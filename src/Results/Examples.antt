-- ===== src/Results/Examples.antt =====
-- A results grid of two rows and one column.
use poqi.Prelude.{
  ℕ, ◌<◌, ◌≤◌, ◌≡◌, refl, true, false, none, some, List, [], ◌∷◌, arith, length, usize_max,
}
use poqi.TextInput.Utf8.{Line}
use poqi.Catalog.Identifier.{QualifiedRelation}
use poqi.Results.Data.{RowIdentity, ResultMetadata, unknown}
use poqi.Results.Grid.{ResultsState, results_new, set_data, is_empty}
use poqi.Results.Scroll.{ensure_focus_col_visible}
use poqi.Results.Editing.{EditCompletion, begin_edit, finish_edit, can_edit, cell_at}
use poqi.Results.Mutation.{apply_cell_update}
use poqi.Results.Session.{
  Key, type_char, erase, type_keys, edited_all, stored, Reports, finish_edit-Reports,
}
use poqi.Results.Update.{stored-apply_cell_update}
use poqi.Results.Visible.{Fits, IsFirst, ensure_focus_col_visible-shows}
use poqi.Results.Valid.{IsValid}
use poqi.Results.Valid.Data.{set_data-IsValid}
use poqi.Results.Valid.Sessions.{with_session}
use poqi.Results.Valid.Steps.{Change, load, focus, begin, remove, apply_all, apply_all-IsValid}

-- The width of a text, for one that takes a cell of the terminal per character.
abbrev cells : Line → ℕ
cells text = length text

abbrev header : Line
header = b'n' ∷ []

abbrev one_table : QualifiedRelation
one_table = record { schema = none; name = b't' ∷ [] }

abbrev identity : RowIdentity
identity = record {
  relation_oid = 1;
  table_oid = 1;
  ctid = b'1' ∷ [];
  xmin = b'2' ∷ [];
  primary_key = [];
}

abbrev metadata : ResultMetadata
metadata = record {
  source_table = some one_table;
  row_identities = some identity ∷ some identity ∷ [];
  source_columns = some header ∷ [];
  column_types = (b'i' ∷ []) ∷ [];
  null_cells = (true ∷ []) ∷ (false ∷ []) ∷ [];
  origin = unknown;
}

abbrev grid_rows : List (List Line)
grid_rows = ((b'N' ∷ []) ∷ []) ∷ ((b'7' ∷ []) ∷ []) ∷ []

abbrev grid : ResultsState
grid = set_data cells (header ∷ []) grid_rows metadata results_new

grid-IsValid : IsValid grid
grid-IsValid = set_data-IsValid cells (header ∷ []) grid_rows metadata results_new

grid-can_edit : can_edit grid ≡ true
unfolding set_data can_edit
grid-can_edit = refl

grid-headers : is_empty grid.headers ≡ false
unfolding set_data
grid-headers = refl

grid-rows : is_empty grid.rows ≡ false
unfolding set_data
grid-rows = refl

grid-closed : grid.edit_session ≡ none
unfolding set_data
grid-closed = refl

-- The first cell is an SQL NULL: `4`, then `2`, then one erased.
abbrev keys : List Key
keys = type_char b'4' ∷ type_char b'2' ∷ erase ∷ []

finish_edit-Reports_example :
    (c : EditCompletion) × (finish_edit (type_keys keys (begin_edit grid).0)
      ≡ (with_session none grid, some c))
    × Reports grid grid.focus_cell (edited_all keys (stored grid grid.focus_cell)) c
finish_edit-Reports_example =
    finish_edit-Reports keys grid grid-IsValid grid-headers grid-can_edit grid-closed

abbrev changes : List Change
changes = load (header ∷ []) grid_rows metadata ∷ focus 5 5 true ∷ begin ∷ remove 0 ∷ []

apply_all-IsValid_example : IsValid (apply_all cells changes results_new)
apply_all-IsValid_example = apply_all-IsValid cells changes

grid-row : 1 < length grid.rows
unfolding set_data
grid-row = omega arith

grid-col : 0 < length grid.headers
unfolding set_data
grid-col = omega arith

grid-cell : cell_at grid.rows 1 0 ≡ some (b'7' ∷ [])
unfolding set_data
grid-cell = refl

stored-apply_cell_update_example : stored (apply_cell_update cells 1 0 none grid) (1, 0) ≡ none
stored-apply_cell_update_example =
    stored-apply_cell_update cells 1 0 (b'7' ∷ []) none grid grid-IsValid grid-row grid-col
      grid-cell

grid-bound : length grid.rows ≤ usize_max
unfolding set_data
grid-bound = omega arith

grid-row_sync : grid.suspend_focus_row_sync ≡ false
unfolding set_data
grid-row_sync = refl

grid-col_sync : grid.suspend_focus_col_sync ≡ false
unfolding set_data
grid-col_sync = refl

abbrev widths : List ℕ
widths = 3 ∷ []

one_width : length widths ≡ length grid.headers
unfolding set_data
one_width = refl

ensure_focus_col_visible-shows_example :
    (left : ℕ) × ((ensure_focus_col_visible 10 1 widths grid).scroll_col ≡ left)
    × (left ≤ grid.focus_cell.1)
    × Fits 10 1 widths grid.focus_cell.1 left
    × IsFirst 10 1 widths grid.focus_cell.1 left
ensure_focus_col_visible-shows_example =
    ensure_focus_col_visible-shows 10 1 widths grid grid-IsValid one_width refl (omega arith)
      (omega arith) grid-col_sync
