-- ===== src/Results/Valid.antt =====
-- What holds of every state of the results grid: its tables fit its rows and columns, and the
-- focus, the selection, the edit session and the scroll position lie within them.
pub mod Sizes
pub mod Focus
pub mod Data
pub mod Write
pub mod View
pub mod Sessions
pub mod Steps
use poqi.Prelude.{ℕ, ◌-◌, ◌≤◌, ◌<◌, ◌≡◌, Bool, Option, some, List, [], ◌∷◌, arith, length}
use poqi.TextInput.Utf8.{Line}
use poqi.Results.Data.{RowIdentity}
use poqi.Results.Grid.{EditSession, ResultsState, results_new}

abbrev pub AllLength {ℓ} : {A : Type ℓ} → ℕ → List (List A) → Type 0
AllLength n [] = Unit {0}
AllLength n (xs ∷ xss) = (length xs ≡ n) × AllLength n xss

-- In a grid without rows or columns, the first cell still counts.
pub record InGrid (rows cols : ℕ) (cell : ℕ × ℕ) : Type 0 where
  pub row : cell.0 ≤ rows - 1
  pub col : cell.1 ≤ cols - 1

pub record AtFocus (rows cols : ℕ) (focus : ℕ × ℕ) (e : EditSession) : Type 0 where
  pub at_row : e.row ≡ focus.0
  pub at_col : e.column ≡ focus.1
  pub row_lt : e.row < rows
  pub col_lt : e.column < cols

-- The tables of `rows` rows and `cols` columns.
pub record Fits (rows cols : ℕ) (row_identities : List (Option RowIdentity))
    (source_columns : List (Option Line)) (column_types display_headers : List Line)
    (null_cells : List (List Bool)) (presentation_widths : List ℕ) : Type 0 where
  pub identities : length row_identities ≡ rows
  pub columns : length source_columns ≡ cols
  pub types : length column_types ≡ cols
  pub shown : length display_headers ≡ cols
  pub nulls : length null_cells ≡ rows
  pub flags : AllLength cols null_cells
  pub widths : length presentation_widths ≡ cols

abbrev pub Sized : ResultsState → Type 0
Sized s =
    Fits (length s.rows) (length s.headers) s.row_identities s.source_columns s.column_types
      s.display_headers s.null_cells s.presentation_widths

pub record IsValid (s : ResultsState) : Type 0 where
  pub fits : Sized s
  pub focus : InGrid (length s.rows) (length s.headers) s.focus_cell
  pub anchor :
      (c : ℕ × ℕ) → s.selection_anchor ≡ some c → InGrid (length s.rows) (length s.headers) c
  pub tail : (c : ℕ × ℕ) → s.selection_tail ≡ some c → InGrid (length s.rows) (length s.headers) c
  pub session :
      (e : EditSession)
      → s.edit_session ≡ some e
      → AtFocus (length s.rows) (length s.headers) s.focus_cell e
  pub left : s.scroll_col ≤ length s.headers - 1

pub results_new-IsValid : IsValid results_new
results_new-IsValid = record {
  fits = record {
    identities = omega arith;
    columns = omega arith;
    types = omega arith;
    nulls = omega arith;
    flags = tt;
    shown = omega arith;
    widths = omega arith;
  };
  focus = record { row = omega arith; col = omega arith };
  anchor = λ c e. cc;
  tail = λ c e. cc;
  session = λ x e. cc;
  left = omega arith;
}
