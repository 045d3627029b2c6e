-- ===== src/Results/Selection.antt =====
-- crates/ui/src/state/results_state/selection.rs
use poqi.Prelude.{
  ℕ, suc, ◌-◌, min, max, Bool, false, ◌&&◌, ◌||◌, Option, none, some, ◌==◌, if◌then◌else◌, length,
  ltb, ℤ, pos, negsuc, sat_add,
}
use poqi.Results.Grid.{EditSession, ResultsState}

abbrev pub cell_eq : ℕ × ℕ → ℕ × ℕ → Bool
cell_eq (a, b) (c, d) = (a == c) && (b == d)

-- The session if it edits the cell.
abbrev pub session_at : ℕ × ℕ → Option EditSession → Option EditSession
session_at cell none = none
session_at cell (some e) = if cell_eq (e.row, e.column) cell then some e else none

abbrev pub or_cell : Option (ℕ × ℕ) → ℕ × ℕ → ℕ × ℕ
or_cell none cell = cell
or_cell (some c) cell = c

-- `set_focus` in a grid that is not empty, once the position is clamped.
abbrev pub focus_on : ℕ × ℕ → Bool → ResultsState → ResultsState
focus_on cell extend s = record s {
  focus_cell = cell;
  suspend_focus_row_sync = false;
  suspend_focus_col_sync = false;
  pending_delete_row = none;
  edit_session = session_at cell s.edit_session;
  selection_anchor = if extend then some (or_cell s.selection_anchor cell) else some cell;
  selection_tail = some cell;
}

unfoldable pub set_focus : ℕ → ℕ → Bool → ResultsState → ResultsState
set_focus row col extend s =
    if (length s.rows == 0) || (length s.headers == 0)
    then s
    else focus_on (min row (length s.rows - 1), min col (length s.headers - 1)) extend s

-- A saturating step of `isize`.
unfoldable pub adjust_index : ℕ → ℤ → ℕ
adjust_index value (pos step) = sat_add value step
adjust_index value (negsuc n) = value - suc n

unfoldable pub move_vertical : ℤ → Bool → ResultsState → ResultsState
unfolding set_focus adjust_index
move_vertical delta extend s =
    let (row, col) = s.focus_cell in set_focus (adjust_index row delta) col extend s

unfoldable pub move_horizontal : ℤ → Bool → ResultsState → ResultsState
unfolding set_focus adjust_index
move_horizontal delta extend s =
    let (row, col) = s.focus_cell in set_focus row (adjust_index col delta) extend s

unfoldable pub jump_row_start : ResultsState → ResultsState
unfolding set_focus
jump_row_start s = set_focus 0 s.focus_cell.1 false s

unfoldable pub jump_row_end : ResultsState → ResultsState
unfolding set_focus
jump_row_end s =
    if ltb 0 (length s.rows) then set_focus (length s.rows - 1) s.focus_cell.1 false s else s

unfoldable pub jump_col_start : ResultsState → ResultsState
unfolding set_focus
jump_col_start s = set_focus s.focus_cell.0 0 false s

unfoldable pub jump_col_end : ResultsState → ResultsState
unfolding set_focus
jump_col_end s =
    if ltb 0 (length s.headers) then set_focus s.focus_cell.0 (length s.headers - 1) false s else s

abbrev bounds_of : ℕ × ℕ → ℕ × ℕ → (ℕ × ℕ) × (ℕ × ℕ)
bounds_of (a, b) (c, d) = ((min a c, min b d), (max a c, max b d))

-- The top left and the bottom right cell of the selection.
unfoldable selection_bounds : ResultsState → Option ((ℕ × ℕ) × (ℕ × ℕ))
selection_bounds s = elim s.selection_anchor [
  | none ↦ none
  | some anchor ↦ some (bounds_of anchor (or_cell s.selection_tail anchor))
]
