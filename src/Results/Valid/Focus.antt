-- ===== src/Results/Valid/Focus.antt =====
-- Moving the focus and the selection keeps the results grid valid.
use poqi.Prelude.{
  ℕ, ◌-◌, ◌≡◌, refl, sym, ap, ◌∙◌, Bool, true, false, ◌||◌, Option, none, some, ◌==◌, arith, length,
  if◌then◌else◌, min, Bool-cases, inl, inr, ltb, ℤ,
}
use mathlib.Core.Path.{subst}
use mathlib.Core.Option.{some-injective}
use poqi.Results.Grid.{EditSession, ResultsState}
use poqi.Results.Selection.{
  cell_eq, session_at, or_cell, focus_on, set_focus, adjust_index, move_vertical, move_horizontal,
  jump_row_end, jump_col_end,
}
use poqi.Results.Valid.{InGrid, IsValid}

abbrev IsAt : ℕ × ℕ → EditSession → Type 0
IsAt cell e = (e.row ≡ cell.0) × (e.column ≡ cell.1)

cell_eq-eq : (a b c d : ℕ) → cell_eq (a, b) (c, d) ≡ true → (a ≡ c) × (b ≡ d)
cell_eq-eq a b c d h = (ground arith, ground arith)

-- A session that stays is the one that was there, and stands at the cell.
session_at-some :
    (cell : ℕ × ℕ) (o : Option EditSession) (e : EditSession)
    → session_at cell o ≡ some e
    → (o ≡ some e) × IsAt cell e
session_at-some cell none e h = cc
session_at-some cell (some d) e h = elim (Bool-cases (cell_eq (d.row, d.column) cell)) [
  | inl y ↦
      let kept : some d ≡ some e = rw y at h in
      let (at_row, at_col) = cell_eq-eq d.row d.column cell.0 cell.1 y in
      let same : d ≡ e = some-injective d e kept in
      (kept, (sym (ap (λ x. x.row) same) ∙ at_row, sym (ap (λ x. x.column) same) ∙ at_col))
  | inr n ↦ let gone : none ≡ some e = rw n at h in cc
]

module _ (r k : ℕ) where
  some_cell : (a c : ℕ × ℕ) → InGrid r k a → some a ≡ some c → InGrid r k c
  some_cell a c h e = subst (λ x. InGrid r k x) (some-injective a c e) h

  or_cell-InGrid :
      (o : Option (ℕ × ℕ)) (cell : ℕ × ℕ)
      → ((c : ℕ × ℕ) → o ≡ some c → InGrid r k c)
      → InGrid r k cell
      → InGrid r k (or_cell o cell)
  or_cell-InGrid none cell h k = k
  or_cell-InGrid (some c) cell h k = h c refl

  anchor-InGrid :
      (extend : Bool) (o : Option (ℕ × ℕ)) (cell c : ℕ × ℕ)
      → ((c : ℕ × ℕ) → o ≡ some c → InGrid r k c)
      → InGrid r k cell
      → (if extend then some (or_cell o cell) else some cell) ≡ some c
      → InGrid r k c
  anchor-InGrid true o cell c h i e = some_cell (or_cell o cell) c (or_cell-InGrid o cell h i) e
  anchor-InGrid false o cell c h i e = some_cell cell c i e

focus_on-IsValid :
    (cell : ℕ × ℕ) (extend : Bool) (s : ResultsState)
    → InGrid (length s.rows) (length s.headers) cell
    → IsValid s
    → IsValid (focus_on cell extend s)
focus_on-IsValid cell extend s h v = record {
  fits = v.fits;
  focus = h;
  anchor = λ c e. anchor-InGrid _ _ extend s.selection_anchor cell c v.anchor h e;
  tail = λ c e. some_cell _ _ cell c h e;
  session = λ x e.
      let (was, there) = session_at-some cell s.edit_session x e in
      let k = v.session x was in
      record { at_row = there.0; at_col = there.1; row_lt = k.row_lt; col_lt = k.col_lt };
  left = v.left;
}

pub set_focus-IsValid :
    (row col : ℕ) (extend : Bool) (s : ResultsState)
    → IsValid s
    → IsValid (set_focus row col extend s)
unfolding set_focus
set_focus-IsValid row col extend s v =
    elim (Bool-cases ((length s.rows == 0) || (length s.headers == 0))) [
      | inl y ↦ rw y v
      | inr n ↦ rw n (
          focus_on-IsValid (min row (length s.rows - 1), min col (length s.headers - 1)) extend s
            (record { row = omega arith; col = omega arith }) v)
    ]

-- The steps that the keys ask for.
pub move_vertical-IsValid :
    (d : ℤ) (extend : Bool) (s : ResultsState) → IsValid s → IsValid (move_vertical d extend s)
unfolding move_vertical
move_vertical-IsValid d extend s v = set_focus-IsValid (adjust_index s.focus_cell.0 d) _ extend s v

pub move_horizontal-IsValid :
    (d : ℤ) (extend : Bool) (s : ResultsState) → IsValid s → IsValid (move_horizontal d extend s)
unfolding move_horizontal
move_horizontal-IsValid d extend s v =
    set_focus-IsValid _ (adjust_index s.focus_cell.1 d) extend s v

pub jump_row_end-IsValid : (s : ResultsState) → IsValid s → IsValid (jump_row_end s)
unfolding jump_row_end
jump_row_end-IsValid s v = elim (Bool-cases (ltb 0 (length s.rows))) [
  | inl y ↦ rw y (set_focus-IsValid _ _ false s v)
  | inr n ↦ rw n v
]

pub jump_col_end-IsValid : (s : ResultsState) → IsValid s → IsValid (jump_col_end s)
unfolding jump_col_end
jump_col_end-IsValid s v = elim (Bool-cases (ltb 0 (length s.headers))) [
  | inl y ↦ rw y (set_focus-IsValid _ _ false s v)
  | inr n ↦ rw n v
]
