-- ===== src/Results/Grid.antt =====
-- `ResultsState` (crates/ui/src/state/results_state/mod.rs) with the edit session that it holds
-- (editing.rs). The two `ScrollbarState`s of ratatui are the values that are handed to them.
use poqi.Prelude.{
  ℕ, zero, suc, ◌-◌, min, max, Bool, true, false, ◌&&◌, ◌||◌, Option, none, some, List, [], ◌∷◌,
  ◌==◌, if◌then◌else◌, length, replicate,
}
use poqi.TextInput.Utf8.{Line}
use poqi.Catalog.Identifier.{QualifiedRelation}
use poqi.Results.Data.{RowIdentity, ResultOrigin, unknown, ResultMetadata}
use poqi.Results.Presentation.{build_presentation_cache}

pub record EditSession : Type 0 where
  pub row : ℕ
  pub column : ℕ
  pub buffer : Line
  pub original_value : Option Line
  pub is_null : Bool

pub record Scrollbar : Type 0 where
  pub content_length : ℕ
  pub viewport_content_length : ℕ
  pub position : ℕ

abbrev scrollbar_new : Scrollbar
scrollbar_new = record { content_length = 0; viewport_content_length = 0; position = 0 }

pub record ResultsState : Type 0 where
  pub headers : List Line
  pub rows : List (List Line)
  pub row_identities : List (Option RowIdentity)
  pub source_table : Option QualifiedRelation
  pub source_columns : List (Option Line)
  pub column_types : List Line
  pub null_cells : List (List Bool)
  pub display_headers : List Line
  pub presentation_widths : List ℕ
  pub focus_cell : ℕ × ℕ
  pub scroll_row : ℕ
  pub scroll_col : ℕ
  pub scrollbar_state : Scrollbar
  pub horizontal_scrollbar_state : Scrollbar
  pub selection_anchor : Option (ℕ × ℕ)
  pub selection_tail : Option (ℕ × ℕ)
  pub edit_session : Option EditSession
  pub pending_delete_row : Option ℕ
  pub result_origin : ResultOrigin
  pub suspend_focus_row_sync : Bool
  pub suspend_focus_col_sync : Bool

-- `ResultsState::new`
abbrev pub results_new : ResultsState
results_new = record {
  headers = [];
  rows = [];
  row_identities = [];
  source_table = none;
  source_columns = [];
  column_types = [];
  null_cells = [];
  display_headers = [];
  presentation_widths = [];
  focus_cell = (0, 0);
  scroll_row = 0;
  scroll_col = 0;
  scrollbar_state = scrollbar_new;
  horizontal_scrollbar_state = scrollbar_new;
  selection_anchor = none;
  selection_tail = none;
  edit_session = none;
  pending_delete_row = none;
  result_origin = unknown;
  suspend_focus_row_sync = false;
  suspend_focus_col_sync = false;
}

module _ {ℓ} {A : Type ℓ} where
  abbrev pub is_empty : List A → Bool
  is_empty [] = true
  is_empty (x ∷ xs) = false

  -- The list if it is as long as the other, or else as many defaults.
  abbrev pub fitted {κ} : {B : Type κ} → List A → A → List B → List A
  fitted xs d ys = if length xs == length ys then xs else replicate (length ys) d

  abbrev pub all_length : ℕ → List (List A) → Bool
  all_length n [] = true
  all_length n (xs ∷ xss) = (length xs == n) && all_length n xss

abbrev pub fitted_nulls : List (List Bool) → List Line → List (List Line) → List (List Bool)
fitted_nulls nulls headers rows =
    if (length nulls == length rows) && all_length (length headers) nulls
    then nulls
    else replicate (length rows) (replicate (length headers) false)

unfoldable pub max_horizontal_scroll : ResultsState → ℕ
max_horizontal_scroll s = length s.headers - 1

unfoldable pub set_scroll_row : ℕ → ResultsState → ResultsState
set_scroll_row row s = record s { scroll_row = row }

unfoldable pub set_scroll_col : ℕ → ResultsState → ResultsState
unfolding max_horizontal_scroll
set_scroll_col col s = record s { scroll_col = min col (max_horizontal_scroll s) }

abbrev pub first_cell : List Line → List (List Line) → Option (ℕ × ℕ)
first_cell headers rows = if is_empty rows || is_empty headers then none else some (0, 0)

module _ (width : Line → ℕ) where
  unfoldable pub set_data :
      List Line → List (List Line) → ResultMetadata → ResultsState → ResultsState
  unfolding build_presentation_cache set_scroll_row set_scroll_col
  set_data headers rows metadata s =
      let (shown, widths) = build_presentation_cache width headers rows in
      let filled = record s {
        headers = headers;
        rows = rows;
        display_headers = shown;
        presentation_widths = widths;
        source_table = metadata.source_table;
        row_identities = fitted metadata.row_identities none rows;
        source_columns = fitted metadata.source_columns none headers;
        column_types = fitted metadata.column_types [] headers;
        null_cells = fitted_nulls metadata.null_cells headers rows;
        result_origin = metadata.origin;
        focus_cell = (0, 0);
      } in
      record (set_scroll_col 0 (set_scroll_row 0 filled)) {
        suspend_focus_row_sync = false;
        suspend_focus_col_sync = false;
        edit_session = none;
        pending_delete_row = none;
        selection_anchor = first_cell headers rows;
        selection_tail = first_cell headers rows;
      }

abbrev pub max_at : List ℕ → ℕ → ℕ → List ℕ
max_at [] column w = []
max_at (v ∷ ws) zero w = max v w ∷ ws
max_at (v ∷ ws) (suc column) w = v ∷ max_at ws column w

unfoldable pub grow_presentation_width_to : ℕ → ℕ → ResultsState → ResultsState
grow_presentation_width_to column measured s = record s {
  presentation_widths = max_at s.presentation_widths column measured;
}
