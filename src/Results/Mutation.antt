-- ===== src/Results/Mutation.antt =====
-- crates/ui/src/state/results_state/mutation.rs
use poqi.Prelude.{
  ℕ, zero, suc, ◌-◌, min, Bool, true, false, Option, none, some, List, [], ◌∷◌, ◌==◌, eq_text, leb,
  ltb, if◌then◌else◌, length, get_elem?, set, erase_idx,
}
use poqi.TextInput.Utf8.{Line}
use poqi.Catalog.Identifier.{QualifiedRelation}
use poqi.Results.Data.{
  RowIdentity, simple_single_table, complex_single_table, ResultOrigin, unknown, select_top,
  run_sql,
}
use poqi.Results.Presentation.{measured_column_width}
use poqi.Results.Grid.{ResultsState, is_empty, grow_presentation_width_to}
use poqi.Results.Editing.{null_text, is_some, cell_at, or_else}

module _ {ℓ} {A : Type ℓ} where
  abbrev pub erase_within : List A → ℕ → List A
  erase_within xs row = if ltb row (length xs) then erase_idx xs row else xs

  -- The row at an index, changed; without a row there nothing changes.
  abbrev pub at_row : (List A → List A) → ℕ → List (List A) → List (List A)
  at_row f i [] = []
  at_row f zero (r ∷ rs) = f r ∷ rs
  at_row f (suc i) (r ∷ rs) = r ∷ at_row f i rs

-- The focus and the scroll position, once the row is gone.
abbrev pub settle : ResultsState → ResultsState
settle s =
    let row = min s.focus_cell.0 (length s.rows - 1) in
    let col = min s.focus_cell.1 (length s.headers - 1) in
    if is_empty s.rows
    then record s {
      focus_cell = (0, 0);
      selection_anchor = none;
      selection_tail = none;
      scroll_row = 0;
    }
    else record s {
      focus_cell = (row, col);
      selection_anchor = some (row, col);
      selection_tail = some (row, col);
      scroll_row = min s.scroll_row (length s.rows - 1);
    }

unfoldable pub remove_row : ℕ → ResultsState → ResultsState
remove_row row s =
    if leb (length s.rows) row
    then s
    else record (settle (record s {
      rows = erase_idx s.rows row;
      row_identities = erase_within s.row_identities row;
      null_cells = erase_within s.null_cells row;
    })) { pending_delete_row = none; edit_session = none }

-- The text that a value is shown as.
abbrev pub shown_text : Option Line → Line
shown_text v = or_else v null_text

unfoldable pub update_row_identity : ℕ → RowIdentity → ResultsState → ResultsState
update_row_identity row identity s = record s {
  row_identities = set s.row_identities row (some identity);
}

abbrev pub identified : ℕ → Option RowIdentity → ResultsState → ResultsState
identified row none s = s
identified row (some i) s = update_row_identity row i s

unfoldable pub arm_pending_delete : ResultsState → ResultsState
arm_pending_delete s = record s { pending_delete_row = some s.focus_cell.0 }

unfoldable pending_delete_active : ResultsState → Bool
pending_delete_active s = elim s.pending_delete_row [
  | none ↦ false
  | some row ↦ row == s.focus_cell.0
]

unfoldable pub clear_pending_delete : ResultsState → ResultsState
clear_pending_delete s = record s { pending_delete_row = none }

pub data RefreshStrategy : Type 0 where
  refresh_select_top row_refresh : QualifiedRelation → RefreshStrategy
  rerun_sql : Line → RefreshStrategy
  refresh_none : RefreshStrategy

abbrev strategy_of : ResultOrigin → RefreshStrategy
strategy_of (select_top table limit) = refresh_select_top table
strategy_of (run_sql sql (simple_single_table table)) = rerun_sql sql
strategy_of (run_sql sql (complex_single_table table)) = row_refresh table
strategy_of unknown = refresh_none

unfoldable refresh_strategy : ResultsState → RefreshStrategy
refresh_strategy s = strategy_of s.result_origin

-- `iter().position(..)`
abbrev position_of : Line → List Line → Option ℕ
position_of name [] = none
position_of name (c ∷ cs) =
    let later = position_of name cs in
    if eq_text c name then some 0 else elim later [ none ↦ none | some i ↦ some (suc i) ]

abbrev pub source_index : Option Line → List Line → Option ℕ
source_index none columns = none
source_index (some name) columns = position_of name columns

module _ (width : Line → ℕ) where
  unfoldable pub apply_cell_update : ℕ → ℕ → Option Line → ResultsState → ResultsState
  unfolding measured_column_width grow_presentation_width_to
  apply_cell_update row column v s =
      let written = record s {
        rows = at_row (λ r. set r column (shown_text v)) row s.rows;
        null_cells =
            at_row (λ r. set r column (if is_some v then false else true)) row s.null_cells;
      } in
      if is_some (cell_at s.rows row column)
      then grow_presentation_width_to column (measured_column_width width (shown_text v)) written
      else written

  -- One column of `hydrate_row`: the cell, its flag, and the width of the column. The source
  -- widens the columns behind its loop, which comes to the same: the loop reads no width.
  unfoldable pub hydrate_cell : ℕ → ℕ → Line → Bool → ResultsState → ResultsState
  unfolding measured_column_width grow_presentation_width_to
  hydrate_cell row idx v is_null s =
      let written = record s {
        rows = at_row (λ r. set r idx v) row s.rows;
        null_cells = at_row (λ r. set r idx is_null) row s.null_cells;
      } in
      if is_some (cell_at s.rows row idx)
      then grow_presentation_width_to idx (measured_column_width width v) written
      else written

  module _ (columns values : List Line) (nulls : List Bool) where
    abbrev pub hydrate_from : ℕ → ℕ → Option ℕ → ResultsState → ResultsState
    hydrate_from row idx none s = s
    hydrate_from row idx (some i) s = elim (get_elem? values i) [
      | none ↦ s
      | some v ↦ hydrate_cell row idx v (or_else (get_elem? nulls i) false) s
    ]

    abbrev pub hydrate_columns : ℕ → ℕ → List (Option Line) → ResultsState → ResultsState
    hydrate_columns row idx [] s = s
    hydrate_columns row idx (c ∷ cs) s =
        hydrate_columns row (suc idx) cs (hydrate_from row idx (source_index c columns) s)

    unfoldable pub hydrate_row : ℕ → Option RowIdentity → ResultsState → ResultsState
    unfolding hydrate_cell update_row_identity
    hydrate_row row identity s =
        if leb (length s.rows) row
        then s
        else hydrate_columns row 0 s.source_columns (identified row identity s)
