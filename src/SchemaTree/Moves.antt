-- ===== src/SchemaTree/Moves.antt =====
-- Moving through the rows, and scrolling to the selected one (crates/ui/src/state/schema.rs).
use poqi.Prelude.{
  ℕ, zero, suc, ◌+◌, ◌-◌, ◌≤◌, ◌<◌, ◌≡◌, refl, ◌∙◌, false, List, [], ◌∷◌, ◌==◌, ◌||◌, arith, length,
  min, max, if_false, lt→ltb, usize_max,
}
use poqi.SchemaTree.Tree.{SchemaItem}
use poqi.SchemaTree.State.{
  SchemaState, clamp_index, select_index, follow, move_down, jump_start, ensure_selected_visible,
}
use poqi.SchemaTree.Valid.{IsValid}

follow-shows :
    (selected top n total : ℕ)
    → selected < total
    → total ≤ usize_max
    → 0 < n
    → top ≤ total - n
    → (min (follow selected top n) (total - n) ≤ selected)
      × (selected < min (follow selected top n) (total - n) + n)
follow-shows selected top n total h t p l = (ground arith, ground arith)

selected-lt : (i : ℕ) (xs : List SchemaItem) → 0 < length xs → clamp_index i xs < length xs
selected-lt i [] h = elim h [ ]
selected-lt i (x ∷ xs) h = omega arith

max_left : (n : ℕ) → 0 < n → max n 1 ≡ n
max_left n h = omega arith

ensure_selected_visible-scrolls :
    (n : ℕ) (s : SchemaState)
    → 0 < length s.items
    → 0 < n
    → s.suspend_selection_sync ≡ false
    → (ensure_selected_visible n s).scroll_top
      ≡ min (follow s.selected (min s.scroll_top (length s.items - n)) n) (length s.items - n)
unfolding ensure_selected_visible
ensure_selected_visible-scrolls n s h p free =
    if_false ((length s.items == 0) || (n == 0)) _ _ (ground arith)
    ∙ rw (max_left n p) (rw free refl)

-- In a valid tree with rows, the selected row is shown after the view has followed it, in a view
-- of at least one row that the user did not scroll by hand, and the view stays within the rows.
pub ensure_selected_visible-shows :
    (n : ℕ) (s : SchemaState)
    → IsValid s
    → 0 < length s.items
    → length s.items ≤ usize_max
    → 0 < n
    → s.suspend_selection_sync ≡ false
    → let top = (ensure_selected_visible n s).scroll_top in
      (top ≤ s.selected) × (s.selected < top + n) × (top ≤ length s.items - n)
ensure_selected_visible-shows n s v h t p free =
    let within : s.selected < length s.items = rw v.inside (selected-lt s.selected s.items h) in
    let shown =
      follow-shows s.selected (min s.scroll_top (length s.items - n)) n (length s.items) within t p
        (omega arith) in
    rw (ensure_selected_visible-scrolls n s h p free) (shown.0, shown.1, omega arith)

-- A number of steps down.
abbrev pub moves_down : ℕ → SchemaState → SchemaState
moves_down zero s = s
moves_down (suc n) s = move_down (moves_down n s)

clamp_index-lt : (i : ℕ) (xs : List SchemaItem) → i < length xs → clamp_index i xs ≡ i
clamp_index-lt i [] h = elim h [ ]
clamp_index-lt i (x ∷ xs) h = omega arith

select_index-lt :
    (i : ℕ) (s : SchemaState)
    → i < length s.items
    → ((select_index i s).selected ≡ i) × ((select_index i s).items ≡ s.items)
unfolding select_index
select_index-lt i s h = (clamp_index-lt i s.items h, refl)

move_down-lt :
    (s : SchemaState)
    → s.selected + 1 < length s.items
    → ((move_down s).selected ≡ s.selected + 1) × ((move_down s).items ≡ s.items)
unfolding move_down
move_down-lt s h = rw (lt→ltb _ _ h) (select_index-lt (s.selected + 1) s h)

-- From the first row, as many steps down as there are rows before a row select that row.
pub moves_down-reaches :
    (i : ℕ) (s : SchemaState)
    → i < length s.items
    → ((moves_down i (jump_start s)).selected ≡ i) × ((moves_down i (jump_start s)).items ≡ s.items)
moves_down-reaches zero s h = unfold jump_start in select_index-lt 0 s h
moves_down-reaches (suc i) s h =
    let before = moves_down-reaches i s (omega arith) in
    let t = moves_down i (jump_start s) in
    let after = move_down-lt t (rw (before.0, before.1) (omega arith)) in
    (rw after.0 (omega (arith, before.0)), after.1 ∙ before.1)
