-- ===== src/Results/Valid/Data.antt =====
-- Loading a result and changing its rows keeps the results grid valid.
use poqi.Prelude.{
  ℕ, ◌-◌, ◌≤◌, ◌<◌, ◌≡◌, sym, ◌∙◌, Bool, true, false, ◌||◌, none, some, List, [], arith, length,
  if◌then◌else◌, min, erase_idx, Bool-cases, inl, inr, leb, ltb, lt→ltb,
}
use mathlib.Core.Path.{subst}
use mathlib.Core.Option.{some-injective}
use poqi.TextInput.Utf8.{Line}
use poqi.Results.Data.{ResultMetadata}
use poqi.Results.Grid.{ResultsState, is_empty, first_cell, set_data}
use poqi.Results.Mutation.{erase_within, settle, remove_row}
use poqi.Results.Valid.{InGrid, AllLength, Sized, IsValid}
use poqi.Results.Valid.Sizes.{
  length-fitted, fitted_nulls-fit, build_presentation_cache-lengths, length-erase_idx,
  AllLength-erase_idx,
}

-- The first cell is in every grid.
first_cell-InGrid :
    (headers : List Line) (rows : List (List Line)) (r k : ℕ) (c : ℕ × ℕ)
    → first_cell headers rows ≡ some c
    → InGrid r k c
first_cell-InGrid headers rows r k c e = elim (Bool-cases (is_empty rows || is_empty headers)) [
  | inl y ↦ let gone : none ≡ some c = rw y at e in cc
  | inr n ↦
      let kept : some (0, 0) ≡ some c = rw n at e in
      subst (λ x. InGrid r k x) (some-injective (0, 0) c kept)
        (record { row = omega arith; col = omega arith })
]

module _ (width : Line → ℕ) where
  pub set_data-IsValid :
      (headers : List Line) (rows : List (List Line)) (m : ResultMetadata) (s : ResultsState)
      → IsValid (set_data width headers rows m s)
  unfolding set_data
  set_data-IsValid headers rows m s =
      let cache = build_presentation_cache-lengths width headers rows in
      let nulls = fitted_nulls-fit m.null_cells headers rows in
      record {
        fits = record {
          identities = length-fitted m.row_identities none rows;
          columns = length-fitted m.source_columns none headers;
          types = length-fitted m.column_types [] headers;
          shown = cache.0;
          nulls = nulls.0;
          flags = nulls.1;
          widths = cache.1;
        };
        focus = record { row = omega arith; col = omega arith };
        anchor = λ c e. first_cell-InGrid headers rows _ _ c e;
        tail = λ c e. first_cell-InGrid headers rows _ _ c e;
        session = λ x e. cc;
        left = omega arith;
      }

length-erase_within {ℓ} :
    {A : Type ℓ} (xs : List A) (i n : ℕ)
    → i < n
    → length xs ≡ n
    → length (erase_within xs i) ≡ n - 1
length-erase_within xs i n h k =
    rw (lt→ltb i (length xs) (omega arith)) (omega (arith, length-erase_idx xs i (omega arith)))

abbrev closed : ResultsState → ResultsState
closed s = record s { pending_delete_row = none; edit_session = none }

either-IsValid :
    (b : Bool) (x y : ResultsState)
    → IsValid (closed x)
    → IsValid (closed y)
    → IsValid (closed (if b then x else y))
either-IsValid true x y h k = h
either-IsValid false x y h k = k

settled-InGrid :
    (s : ResultsState) (c : ℕ × ℕ)
    → some (min s.focus_cell.0 (length s.rows - 1), min s.focus_cell.1 (length s.headers - 1))
      ≡ some c
    → InGrid (length s.rows) (length s.headers) c
settled-InGrid s c e =
    subst (λ x. InGrid (length s.rows) (length s.headers) x) (some-injective _ c e)
      (record { row = omega arith; col = omega arith })

-- Behind a removal the focus is put back into the grid, and the selection on it.
settle-IsValid :
    (s : ResultsState) → Sized s → s.scroll_col ≤ length s.headers - 1 → IsValid (closed (settle s))
settle-IsValid s v l =
    either-IsValid (is_empty s.rows) _ _
      (record {
        fits = v;
        focus = record { row = omega arith; col = omega arith };
        anchor = λ c e. cc;
        tail = λ c e. cc;
        session = λ x e. cc;
        left = l;
      })
      (record {
        fits = v;
        focus = record { row = omega arith; col = omega arith };
        anchor = λ c e. settled-InGrid s c e;
        tail = λ c e. settled-InGrid s c e;
        session = λ x e. cc;
        left = l;
      })

AllLength-erase_within :
    (xss : List (List Bool)) (i n : ℕ) → AllLength n xss → AllLength n (erase_within xss i)
AllLength-erase_within xss i n h = elim (Bool-cases (ltb i (length xss))) [
  | inl y ↦ rw y (AllLength-erase_idx n i xss h)
  | inr k ↦ rw k h
]

abbrev erased : ℕ → ResultsState → ResultsState
erased row s = record s {
  rows = erase_idx s.rows row;
  row_identities = erase_within s.row_identities row;
  null_cells = erase_within s.null_cells row;
}

-- A row that is gone takes its identity and its flags with it.
erased-Sized : (row : ℕ) (s : ResultsState) → row < length s.rows → Sized s → Sized (erased row s)
erased-Sized row s lt v =
    let fewer = sym (length-erase_idx s.rows row lt) in
    record {
      identities = length-erase_within s.row_identities row _ lt v.identities ∙ fewer;
      columns = v.columns;
      types = v.types;
      shown = v.shown;
      nulls = length-erase_within s.null_cells row _ lt v.nulls ∙ fewer;
      flags = AllLength-erase_within s.null_cells row _ v.flags;
      widths = v.widths;
    }

pub remove_row-IsValid : (row : ℕ) (s : ResultsState) → IsValid s → IsValid (remove_row row s)
unfolding remove_row
remove_row-IsValid row s v = elim (Bool-cases (leb (length s.rows) row)) [
  | inl y ↦ rw y v
  | inr n ↦ rw n (settle-IsValid (erased row s) (erased-Sized row s (ground arith) v.fits) v.left)
]
