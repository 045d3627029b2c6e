-- ===== src/Results/Valid/Write.antt =====
-- Writing cells, flags and identities keeps the results grid valid.
use poqi.Prelude.{
  ℕ, suc, ◌≡◌, refl, sym, ◌∙◌, Bool, Option, none, some, List, [], ◌∷◌, length, set, length-set,
  Bool-cases, Option-cases, inl, inr, leb, get_elem?,
}
use poqi.TextInput.Utf8.{Line}
use poqi.Results.Data.{RowIdentity}
use poqi.Results.Grid.{ResultsState, grow_presentation_width_to}
use poqi.Results.Editing.{is_some, cell_at}
use poqi.Results.Mutation.{
  at_row, update_row_identity, apply_cell_update, hydrate_cell, hydrate_from, hydrate_columns,
  hydrate_row, identified, source_index,
}
use poqi.Results.Valid.{AllLength, IsValid}
use poqi.Results.Valid.Sizes.{length-max_at, length-at_row, AllLength-at_row}

-- Changes of the tables that keep the number of rows.
abbrev with_tables :
    List (List Line)
    → List (Option RowIdentity)
    → List (List Bool)
    → List ℕ
    → ResultsState
    → ResultsState
with_tables rows ids nulls widths s = record s {
  rows = rows;
  row_identities = ids;
  null_cells = nulls;
  presentation_widths = widths;
}

with_tables-IsValid :
    (rows : List (List Line)) (ids : List (Option RowIdentity)) (nulls : List (List Bool))
    (widths : List ℕ) (s : ResultsState)
    → length rows ≡ length s.rows
    → length ids ≡ length s.row_identities
    → length nulls ≡ length s.null_cells
    → AllLength (length s.headers) nulls
    → length widths ≡ length s.presentation_widths
    → IsValid s
    → IsValid (with_tables rows ids nulls widths s)
with_tables-IsValid rows ids nulls widths s a b c d w v = record {
  fits = record {
    identities = b ∙ v.fits.identities ∙ sym a;
    columns = v.fits.columns;
    types = v.fits.types;
    shown = v.fits.shown;
    nulls = c ∙ v.fits.nulls ∙ sym a;
    flags = d;
    widths = w ∙ v.fits.widths;
  };
  focus = rw a v.focus;
  anchor = λ x e. rw a (v.anchor x e);
  tail = λ x e. rw a (v.tail x e);
  session = λ x e. rw a (v.session x e);
  left = v.left;
}

pub update_row_identity-IsValid :
    (row : ℕ) (i : RowIdentity) (s : ResultsState)
    → IsValid s
    → IsValid (update_row_identity row i s)
unfolding update_row_identity
update_row_identity-IsValid row i s v =
    with_tables-IsValid s.rows _ s.null_cells s.presentation_widths s refl
      (length-set s.row_identities row _) refl v.fits.flags refl v

-- A cell is overwritten, with its flag, and its column grows.
module _ (row col w : ℕ) (text : Line) (flag : Bool) (s : ResultsState) where
  abbrev written_nulls : List (List Bool)
  written_nulls = at_row (λ r. set r col flag) row s.null_cells

  written-IsValid :
      (widths : List ℕ)
      → length widths ≡ length s.presentation_widths
      → IsValid s
      → IsValid (
          with_tables
            (at_row (λ r. set r col text) row s.rows)
            s.row_identities
            written_nulls
            widths
            s)
  written-IsValid widths h v =
      with_tables-IsValid (at_row (λ r. set r col text) row s.rows) s.row_identities written_nulls
        widths s (length-at_row _ row s.rows) refl (length-at_row _ row s.null_cells)
        (AllLength-at_row _ _ row s.null_cells (λ r. length-set r col flag) v.fits.flags) h v

module _ (width : Line → ℕ) where
  pub apply_cell_update-IsValid :
      (row col : ℕ) (x : Option Line) (s : ResultsState)
      → IsValid s
      → IsValid (apply_cell_update width row col x s)
  unfolding apply_cell_update grow_presentation_width_to
  apply_cell_update-IsValid row col x s v = elim (Bool-cases (is_some (cell_at s.rows row col))) [
    | inl y ↦ rw y (written-IsValid row col 0 _ _ s _ (length-max_at s.presentation_widths col _) v)
    | inr n ↦ rw n (written-IsValid row col 0 _ _ s s.presentation_widths refl v)
  ]

  hydrate_cell-IsValid :
      (row col : ℕ) (x : Line) (flag : Bool) (s : ResultsState)
      → IsValid s
      → IsValid (hydrate_cell width row col x flag s)
  unfolding hydrate_cell grow_presentation_width_to
  hydrate_cell-IsValid row col x flag s v = elim (Bool-cases (is_some (cell_at s.rows row col))) [
    | inl y ↦ rw y (written-IsValid row col 0 _ _ s _ (length-max_at s.presentation_widths col _) v)
    | inr n ↦ rw n (written-IsValid row col 0 _ _ s s.presentation_widths refl v)
  ]

  module _ (columns values : List Line) (nulls : List Bool) where
    hydrate_from-IsValid :
        (row idx : ℕ) (o : Option ℕ) (s : ResultsState)
        → IsValid s
        → IsValid (hydrate_from width columns values nulls row idx o s)
    hydrate_from-IsValid row idx none s v = v
    hydrate_from-IsValid row idx (some i) s v = elim (Option-cases (get_elem? values i)) [
      | inl e ↦ rw (e, hydrate_from) v
      | inr (x, e) ↦ rw (e, hydrate_from) (hydrate_cell-IsValid row idx x _ s v)
    ]

    hydrate_columns-IsValid :
        (row idx : ℕ) (cs : List (Option Line)) (s : ResultsState)
        → IsValid s
        → IsValid (hydrate_columns width columns values nulls row idx cs s)
    hydrate_columns-IsValid row idx [] s v = v
    hydrate_columns-IsValid row idx (c ∷ cs) s v =
        hydrate_columns-IsValid row (suc idx) cs _
          (hydrate_from-IsValid row idx (source_index c columns) s v)

    identified-IsValid :
        (row : ℕ) (o : Option RowIdentity) (s : ResultsState)
        → IsValid s
        → IsValid (identified row o s)
    identified-IsValid row none s v = v
    identified-IsValid row (some i) s v = update_row_identity-IsValid row i s v

    pub hydrate_row-IsValid :
        (row : ℕ) (o : Option RowIdentity) (s : ResultsState)
        → IsValid s
        → IsValid (hydrate_row width columns values nulls row o s)
    unfolding hydrate_row
    hydrate_row-IsValid row o s v = elim (Bool-cases (leb (length s.rows) row)) [
      | inl y ↦ rw y v
      | inr n ↦
          rw n (hydrate_columns-IsValid row 0 s.source_columns _ (identified-IsValid row o s v))
    ]
