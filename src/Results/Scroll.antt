-- ===== src/Results/Scroll.antt =====
-- crates/ui/src/state/results_state/scroll.rs
use poqi.Prelude.{
  ℕ, zero, suc, ◌+◌, ◌-◌, min, max, Bool, true, false, ◌&&◌, ◌||◌, List, [], ◌∷◌, ◌==◌, leb, ltb,
  if◌then◌else◌, length, drop, sat_add, u16_max,
}
use poqi.Results.Grid.{
  ResultsState, max_horizontal_scroll, set_scroll_row, set_scroll_col, is_empty,
}

unfoldable pub set_manual_scroll_row : ℕ → ResultsState → ResultsState
unfolding set_scroll_row
set_manual_scroll_row row s = set_scroll_row row (record s { suspend_focus_row_sync = true })

unfoldable pub set_manual_scroll_col : ℕ → ResultsState → ResultsState
unfolding set_scroll_col
set_manual_scroll_col col s = set_scroll_col col (record s { suspend_focus_col_sync = true })

unfoldable pub sync_scrollbar_thumb : ℕ → ResultsState → ResultsState
sync_scrollbar_thumb viewport_rows s =
    let viewport = max viewport_rows 1 in
    let total = length s.rows in
    let top = min s.scroll_row (total - viewport) in
    if (total == 0) || leb total viewport
    then record s {
      scrollbar_state = record {
        content_length = 0;
        viewport_content_length = viewport;
        position = 0;
      };
    }
    else record s {
      scroll_row = top;
      scrollbar_state = record {
        content_length = sat_add (total - viewport) 1;
        viewport_content_length = viewport;
        position = top;
      };
    }

unfoldable pub sync_horizontal_scrollbar : ℕ → ResultsState → ResultsState
unfolding max_horizontal_scroll
sync_horizontal_scrollbar viewport_columns s =
    let viewport = max viewport_columns 1 in
    let total = length s.headers in
    let left = min s.scroll_col (max_horizontal_scroll s) in
    if leb total 1 || leb total viewport_columns
    then record s {
      horizontal_scrollbar_state = record (s.horizontal_scrollbar_state) {
        content_length = 0;
        position = 0;
      };
    }
    else record s {
      scroll_col = left;
      horizontal_scrollbar_state = record {
        content_length = sat_add (max_horizontal_scroll s) 1;
        viewport_content_length = viewport;
        position = left;
      };
    }

-- The first row that brings the focused row into a viewport which starts at `top`.
unfoldable pub row_into_view : ℕ → ℕ → ℕ → ℕ
row_into_view focus top visible =
    if ltb focus top
    then focus
    else if ltb (sat_add top (visible - 1)) focus
    then sat_add focus 1 - visible
    else top

unfoldable pub ensure_focus_visible : ℕ → ResultsState → ResultsState
unfolding set_scroll_row row_into_view
ensure_focus_visible visible_rows s =
    let max_scroll = length s.rows - visible_rows in
    let top = min s.scroll_row max_scroll in
    if is_empty s.rows || (visible_rows == 0)
    then set_scroll_row 0 s
    else if s.suspend_focus_row_sync
    then set_scroll_row top s
    else set_scroll_row (min (row_into_view s.focus_cell.0 top visible_rows) max_scroll) s

-- `u16::saturating_add`
abbrev sat_add_u16 : ℕ → ℕ → ℕ
sat_add_u16 a b = min (a + b) u16_max

module _ (max_width separator_width : ℕ) where
  -- The loop of `column_is_visible` from column `idx` on, with the widths from there.
  unfoldable pub columns_fit : ℕ → ℕ → ℕ → ℕ → List ℕ → Bool
  columns_fit target idx used shown [] = false
  columns_fit target idx used shown (w ∷ ws) =
      let desired = max w 1 in
      let remaining = max_width - used in
      let start = if shown == 0 then used else sat_add_u16 used separator_width in
      let rest = columns_fit target (suc idx) (sat_add_u16 start desired) (suc shown) ws in
      if leb max_width used
      then false
      else if (shown == 0) && ltb max_width desired
      then idx == target
      else if remaining == 0
      then false
      else if (shown == 0) && ltb remaining desired
      then false
      else if ltb 0 shown && leb remaining separator_width
      then false
      else if ltb 0 shown && ltb (remaining - separator_width) desired
      then false
      else if idx == target
      then true
      else rest

  unfoldable pub column_is_visible : ℕ → ℕ → List ℕ → Bool
  unfolding columns_fit
  column_is_visible start_col target_col widths =
      if leb (length widths) start_col || (leb (length widths) target_col || (max_width == 0))
      then false
      else columns_fit target_col start_col 0 0 (drop start_col widths)

  -- The loop of `ensure_focus_col_visible`: to the left as long as the focused column is shown.
  unfoldable pub walk_left : ℕ → List ℕ → ℕ → ℕ
  unfolding column_is_visible
  walk_left focus widths zero = zero
  walk_left focus widths (suc prev) =
      let further = walk_left focus widths prev in
      if column_is_visible prev focus widths then further else suc prev

  unfoldable pub ensure_focus_col_visible : List ℕ → ResultsState → ResultsState
  unfolding set_scroll_col column_is_visible walk_left
  ensure_focus_col_visible widths s =
      let max_index = length widths - 1 in
      let left = min s.scroll_col max_index in
      let focus = min s.focus_cell.1 max_index in
      let first = min left focus in
      let shown = if column_is_visible first focus widths then first else focus in
      if is_empty widths || (max_width == 0)
      then set_scroll_col 0 s
      else if s.suspend_focus_col_sync
      then set_scroll_col left s
      else set_scroll_col (walk_left focus widths shown) s
