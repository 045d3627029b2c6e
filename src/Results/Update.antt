-- ===== src/Results/Update.antt =====
-- A value that is written to a cell is the one that the cell holds then, and no other cell changes.
use poqi.Prelude.{
  ℕ, zero, suc, ◌<◌, ◌≡◌, ◌≢◌, refl, ap, Bool, true, false, Option, none, some, List, [], ◌∷◌,
  arith, length, if◌then◌else◌, get_elem?, get_elem?-lt, set, Bool-cases, inl, inr,
}
use poqi.TextInput.Utf8.{Line}
use poqi.Results.Grid.{ResultsState, grow_presentation_width_to}
use poqi.Results.Editing.{is_some, cell_at, or_else}
use poqi.Results.Mutation.{at_row, shown_text, apply_cell_update}
use poqi.Results.Session.{stored}
use poqi.Results.Valid.{AllLength, IsValid}

module _ {ℓ} {A : Type ℓ} where
  get_elem?-set :
      (xs : List A) (i : ℕ) (x v : A) → get_elem? xs i ≡ some x → get_elem? (set xs i v) i ≡ some v
  get_elem?-set [] i x v h = cc
  get_elem?-set (y ∷ xs) zero x v h = refl
  get_elem?-set (y ∷ xs) (suc i) x v h = get_elem?-set xs i x v h

  get_elem?-set-other :
      (xs : List A) (i j : ℕ) (v : A) → i ≢ j → get_elem? (set xs i v) j ≡ get_elem? xs j
  get_elem?-set-other [] i j v h = refl
  get_elem?-set-other (y ∷ xs) zero zero v h = absurd (h refl)
  get_elem?-set-other (y ∷ xs) zero (suc j) v h = refl
  get_elem?-set-other (y ∷ xs) (suc i) zero v h = refl
  get_elem?-set-other (y ∷ xs) (suc i) (suc j) v h = get_elem?-set-other xs i j v λ e. h (ap suc e)

  cell_at-set :
      (rows : List (List A)) (r c : ℕ) (x v : A)
      → cell_at rows r c ≡ some x
      → cell_at (at_row (λ xs. set xs c v) r rows) r c ≡ some v
  cell_at-set [] r c x v h = cc
  cell_at-set (xs ∷ rows) zero c x v h = get_elem?-set xs c x v h
  cell_at-set (xs ∷ rows) (suc r) c x v h = cell_at-set rows r c x v h

  cell_at-set-other :
      (rows : List (List A)) (r c r' c' : ℕ) (v : A)
      → (r ≡ r' → c ≢ c')
      → cell_at (at_row (λ xs. set xs c v) r rows) r' c' ≡ cell_at rows r' c'
  cell_at-set-other [] r c r' c' v h = refl
  cell_at-set-other (xs ∷ rows) zero c zero c' v h = get_elem?-set-other xs c c' v (h refl)
  cell_at-set-other (xs ∷ rows) zero c (suc r') c' v h = refl
  cell_at-set-other (xs ∷ rows) (suc r) c zero c' v h = refl
  cell_at-set-other (xs ∷ rows) (suc r) c (suc r') c' v h =
      cell_at-set-other rows r c r' c' v λ e. h (ap suc e)

  cell_at-lt :
      (n : ℕ) (rows : List (List A)) (r c : ℕ)
      → AllLength n rows
      → r < length rows
      → c < n
      → (x : A) × (cell_at rows r c ≡ some x)
  cell_at-lt n [] r c h k l = absurd (omega arith)
  cell_at-lt n (xs ∷ rows) zero c (h, hs) k l = get_elem?-lt xs c (omega arith)
  cell_at-lt n (xs ∷ rows) (suc r) c (h, hs) k l = cell_at-lt n rows r c hs (omega arith) l

-- What a flag and a text stand for, as `stored` reads them.
abbrev value_of : Option Bool → Option Line → Option Line
value_of flag text = if or_else flag false then none else some (or_else text [])

value_of-shown_text :
    (v : Option Line)
    → value_of (some (if is_some v then false else true)) (some (shown_text v)) ≡ v
value_of-shown_text none = refl
value_of-shown_text (some t) = refl

module _ (width : Line → ℕ) where
  rows-apply_cell_update :
      (row col : ℕ) (v : Option Line) (s : ResultsState)
      → (apply_cell_update width row col v s).rows
        ≡ at_row (λ r. set r col (shown_text v)) row s.rows
  unfolding apply_cell_update grow_presentation_width_to
  rows-apply_cell_update row col v s = elim (Bool-cases (is_some (cell_at s.rows row col))) [
    | inl y ↦ rw y refl
    | inr n ↦ rw n refl
  ]

  nulls-apply_cell_update :
      (row col : ℕ) (v : Option Line) (s : ResultsState)
      → (apply_cell_update width row col v s).null_cells
        ≡ at_row (λ r. set r col (if is_some v then false else true)) row s.null_cells
  unfolding apply_cell_update grow_presentation_width_to
  nulls-apply_cell_update row col v s = elim (Bool-cases (is_some (cell_at s.rows row col))) [
    | inl y ↦ rw y refl
    | inr n ↦ rw n refl
  ]

  -- A cell that is there holds the value written to it, SQL NULL included.
  pub stored-apply_cell_update :
      (row col : ℕ) (old : Line) (v : Option Line) (s : ResultsState)
      → IsValid s
      → row < length s.rows
      → col < length s.headers
      → cell_at s.rows row col ≡ some old
      → stored (apply_cell_update width row col v s) (row, col) ≡ v
  stored-apply_cell_update row col old v s valid r c h =
      let (flag, f) =
        cell_at-lt (length s.headers) s.null_cells row col valid.fits.flags
          (omega (arith, valid.fits.nulls)) c in
      rw (rows-apply_cell_update row col v s, nulls-apply_cell_update row col v s)
        (rw
          (
            cell_at-set s.rows row col old (shown_text v) h,
            cell_at-set s.null_cells row col flag (if is_some v then false else true) f,
          )
          (value_of-shown_text v))

  -- Every other cell holds what it held.
  pub stored-apply_cell_update-other :
      (row col row' col' : ℕ) (v : Option Line) (s : ResultsState)
      → (row ≡ row' → col ≢ col')
      → stored (apply_cell_update width row col v s) (row', col') ≡ stored s (row', col')
  stored-apply_cell_update-other row col row' col' v s h =
      rw (rows-apply_cell_update row col v s, nulls-apply_cell_update row col v s)
        (rw
          (
            cell_at-set-other s.rows row col row' col' (shown_text v) h,
            cell_at-set-other s.null_cells row col row' col' (if is_some v then false else true) h,
          )
          refl)
