-- ===== src/Results/Visible.antt =====
-- Scrolling to the focus shows it, and scrolls no further than that takes.
use poqi.Prelude.{
  ℕ, zero, suc, ◌+◌, ◌-◌, ◌≤◌, ◌<◌, ◌≡◌, refl, ap, ◌∙◌, if_false, ◌⊎◌, inl, inr, true, false, ◌||◌,
  List, ◌==◌, drop, sym, ==_iff, leb→le, leb, u16_max, arith, length, if◌then◌else◌, min,
  Bool-cases, usize_max,
}
use poqi.Results.Grid.{
  ResultsState, is_empty, set_scroll_row, set_scroll_col, max_horizontal_scroll,
}
use poqi.Results.Scroll.{
  row_into_view, ensure_focus_visible, column_is_visible, walk_left, ensure_focus_col_visible,
}
use poqi.Results.Fits.{total_width, column_is_visible-total}
use poqi.Results.Valid.{IsValid}
use poqi.Results.Valid.Sessions.{nonempty}

min_left : (a b : ℕ) → a ≤ b → min a b ≡ a
min_left a b h = omega arith

row_into_view-shows :
    (focus top visible total : ℕ)
    → focus < total
    → total ≤ usize_max
    → 0 < visible
    → top ≤ total - visible
    → (row_into_view focus top visible ≤ focus)
      × (focus < row_into_view focus top visible + visible)
      × (row_into_view focus top visible ≤ total - visible)
unfolding row_into_view
row_into_view-shows focus top visible total h t p l = (ground arith, ground arith, ground arith)

nonempty_or_zero :
    (s : ResultsState) (n : ℕ)
    → is_empty s.rows ≡ false
    → 0 < n
    → (is_empty s.rows || (n == 0)) ≡ false
nonempty_or_zero s n ne p = ground arith

ensure_focus_visible-scrolls :
    (n : ℕ) (s : ResultsState)
    → is_empty s.rows ≡ false
    → 0 < n
    → s.suspend_focus_row_sync ≡ false
    → (ensure_focus_visible n s).scroll_row
      ≡ min
          (row_into_view s.focus_cell.0 (min s.scroll_row (length s.rows - n)) n)
          (length s.rows - n)
unfolding ensure_focus_visible set_scroll_row
ensure_focus_visible-scrolls n s ne p free =
    ap (λ (x : ResultsState). x.scroll_row)
      (if_false (is_empty s.rows || (n == 0)) _ _ (nonempty_or_zero s n ne p)
        ∙ if_false s.suspend_focus_row_sync _ _ free)

-- Unless the user scrolled by hand, the row of the focus is shown, and the view is not scrolled
-- past the last row.
pub ensure_focus_visible-shows :
    (n : ℕ) (s : ResultsState)
    → IsValid s
    → is_empty s.rows ≡ false
    → length s.rows ≤ usize_max
    → 0 < n
    → s.suspend_focus_row_sync ≡ false
    → ((ensure_focus_visible n s).scroll_row ≤ s.focus_cell.0)
      × (s.focus_cell.0 < (ensure_focus_visible n s).scroll_row + n)
      × ((ensure_focus_visible n s).scroll_row ≤ length s.rows - n)
ensure_focus_visible-shows n s v ne t p free =
    let total = length s.rows in
    let focus = s.focus_cell.0 in
    let top = min s.scroll_row (total - n) in
    let in_grid : focus < total = omega (arith, v.focus.row, nonempty s.rows ne) in
    let (a, b, c) = row_into_view-shows focus top n total in_grid t p (omega arith) in
    let e = ensure_focus_visible-scrolls n s ne p free in
    (omega (arith, e, a, c), omega (arith, e, b, c), omega (arith, e))

module _ (max_width separator_width : ℕ) where
  abbrev Shown : List ℕ → ℕ → ℕ → Type 0
  Shown widths focus left = column_is_visible max_width separator_width left focus widths ≡ true

  -- No column further left shows the focus as well.
  abbrev Furthest : List ℕ → ℕ → ℕ → Type 0
  Furthest widths focus zero = Unit {0}
  Furthest widths focus (suc left) =
      column_is_visible max_width separator_width left focus widths ≡ false

  -- The columns from one to the focus have room, or the focus is the first one.
  abbrev pub Fits : List ℕ → ℕ → ℕ → Type 0
  Fits widths focus left =
      (total_width separator_width (focus - left) (drop left widths) ≤ max_width) ⊎ (left ≡ focus)

  -- With the column to the left they have no room.
  abbrev pub IsFirst : List ℕ → ℕ → ℕ → Type 0
  IsFirst widths focus zero = Unit {0}
  IsFirst widths focus (suc left) =
      max_width < total_width separator_width (focus - left) (drop left widths)

  walk_left-Furthest :
      (focus : ℕ) (widths : List ℕ) (left : ℕ)
      → Furthest widths focus (walk_left max_width separator_width focus widths left)
  unfolding walk_left
  walk_left-Furthest focus widths zero = tt
  walk_left-Furthest focus widths (suc left) =
      elim (Bool-cases (column_is_visible max_width separator_width left focus widths)) [
        | inl y ↦ rw y (walk_left-Furthest focus widths left)
        | inr n ↦ rw n n
      ]

  walk_left-Shown :
      (focus : ℕ) (widths : List ℕ) (left : ℕ)
      → left ≤ focus
      → Shown widths focus left ⊎ (left ≡ focus)
      → (walk_left max_width separator_width focus widths left ≤ focus)
        × (Shown widths focus (walk_left max_width separator_width focus widths left)
            ⊎ (walk_left max_width separator_width focus widths left ≡ focus))
  unfolding walk_left
  walk_left-Shown focus widths zero h k = (h, k)
  walk_left-Shown focus widths (suc left) h k =
      elim (Bool-cases (column_is_visible max_width separator_width left focus widths)) [
        | inl y ↦ rw y (walk_left-Shown focus widths left (omega arith) (inl y))
        | inr n ↦ rw n (h, k)
      ]

  start-Shown :
      (focus : ℕ) (widths : List ℕ) (first : ℕ)
      → first ≤ focus
      → ((if column_is_visible max_width separator_width first focus widths then first else focus)
          ≤ focus)
        × (Shown widths focus (
              if column_is_visible max_width separator_width first focus widths
              then first
              else focus)
            ⊎ ((if column_is_visible max_width separator_width first focus widths
                  then first
                  else focus)
                ≡ focus))
  start-Shown focus widths first h =
      elim (Bool-cases (column_is_visible max_width separator_width first focus widths)) [
        | inl y ↦ rw y (h, inl y)
        | inr n ↦ rw n (omega arith, inr refl)
      ]

  -- What `ensure_focus_col_visible` scrolls to.
  abbrev left_column : ℕ → List ℕ → ResultsState → ℕ
  left_column focus widths s =
      let first = min (min s.scroll_col (length widths - 1)) focus in
      walk_left max_width separator_width focus widths
        (if column_is_visible max_width separator_width first focus widths then first else focus)

  ensure_focus_col_visible-scrolls :
      (widths : List ℕ) (s : ResultsState)
      → is_empty widths ≡ false
      → 0 < max_width
      → s.suspend_focus_col_sync ≡ false
      → (ensure_focus_col_visible max_width separator_width widths s).scroll_col
        ≡ min (left_column (min s.focus_cell.1 (length widths - 1)) widths s) (length s.headers - 1)
  unfolding ensure_focus_col_visible set_scroll_col max_horizontal_scroll
  ensure_focus_col_visible-scrolls widths s ne p free =
      ap (λ (x : ResultsState). x.scroll_col)
        (if_false (is_empty widths || (max_width == 0)) _ _ (ground arith)
          ∙ if_false s.suspend_focus_col_sync _ _ free)

  Shown-Fits :
      (widths : List ℕ) (focus left : ℕ)
      → max_width ≤ u16_max
      → 0 < max_width
      → left ≤ focus
      → focus < length widths
      → Shown widths focus left ⊎ (left ≡ focus)
      → Fits widths focus left
  Shown-Fits widths focus left u p le lt (inr e) = inr e
  Shown-Fits widths focus left u p le lt (inl y) = elim (Bool-cases (left == focus)) [
    | inl e ↦ inr ((==_iff left focus).0 e)
    | inr n ↦ inl (
        leb→le _ _ (
          sym (
            column_is_visible-total max_width separator_width u widths left focus p
              (ground (arith, n)) lt)
          ∙ y))
  ]

  Furthest-IsFirst :
      (widths : List ℕ) (focus left : ℕ)
      → max_width ≤ u16_max
      → 0 < max_width
      → left ≤ focus
      → focus < length widths
      → Furthest widths focus left
      → IsFirst widths focus left
  Furthest-IsFirst widths focus zero u p le lt f = tt
  Furthest-IsFirst widths focus (suc left) u p le lt f =
      over (total_width separator_width (focus - left) (drop left widths)) (
        sym
          (column_is_visible-total max_width separator_width u widths left focus p (omega arith) lt)
        ∙ f)
    where
      over : (n : ℕ) → leb n max_width ≡ false → max_width < n
      over n h = ground arith

  -- In a valid grid that has columns, with a width for each, in a view whose width is not zero and
  -- fits in 16 bits, unless the user scrolled by hand, the view scrolls to a column that is not
  -- behind the focused one. The columns from it to the focused one, each at least one wide and with
  -- separators between them, have room in the view, or it is the focused one itself; and with the
  -- column to its left they have no room.
  pub ensure_focus_col_visible-shows :
      (widths : List ℕ) (s : ResultsState)
      → IsValid s
      → length widths ≡ length s.headers
      → is_empty widths ≡ false
      → 0 < max_width
      → max_width ≤ u16_max
      → s.suspend_focus_col_sync ≡ false
      → (left : ℕ) × ((ensure_focus_col_visible max_width separator_width widths s).scroll_col
          ≡ left)
        × (left ≤ s.focus_cell.1)
        × Fits widths s.focus_cell.1 left
        × IsFirst widths s.focus_cell.1 left
  ensure_focus_col_visible-shows widths s v e ne p u free =
      let focus = s.focus_cell.1 in
      let here : min focus (length widths - 1) ≡ focus = omega (arith, v.focus.col) in
      let within : focus < length widths = omega (arith, v.focus.col, nonempty widths ne) in
      let first = min (min s.scroll_col (length widths - 1)) focus in
      let start =
        if column_is_visible max_width separator_width first focus widths then first else focus in
      let begun = start-Shown focus widths first (omega arith) in
      let (le, shown) = walk_left-Shown focus widths start begun.0 begun.1 in
      let left = left_column focus widths s in
      (
        left,
        ensure_focus_col_visible-scrolls widths s ne p free
            ∙ ap (λ f. min (left_column f widths s) (length s.headers - 1)) here
            ∙ min_left left (length s.headers - 1) (omega (arith, le, v.focus.col)),
        le,
        Shown-Fits widths focus left u p le within shown,
        Furthest-IsFirst widths focus left u p le within (walk_left-Furthest focus widths start),
      )
