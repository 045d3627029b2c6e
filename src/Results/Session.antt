-- ===== src/Results/Session.antt =====
-- An edit of a cell, from `begin_edit` over the keys to `finish_edit`, does to the value of the
-- cell what the keys do to a nullable text.
use poqi.Prelude.{
  if_false, ℕ, zero, suc, ◌<◌, ◌≡◌, ◌≢◌, refl, sym, ap, ◌∙◌, true, false, not, Option, none, some,
  List, [], ◌∷◌, ◌++◌, arith, length, if◌then◌else◌, get_elem?, Bool-cases, inl, inr, eq_text_refl,
  eq_text→eq,
}
use mathlib.Core.Path.{subst}
use poqi.TextInput.Utf8.{Line}
use poqi.Results.Data.{RowIdentity}
use poqi.Results.Grid.{EditSession, ResultsState, is_empty}
use poqi.Results.Editing.{
  drop_last, session_insert_char, session_backspace, set_null, value, eq_value, is_unchanged,
  EditCompletion, unchanged, changed, is_some, all_some, cell_at, or_else, can_edit, session_for,
  begin_edit, on_session, completion, finish_edit, finish_with, pending,
}
use poqi.Results.Valid.{IsValid}
use poqi.Results.Valid.Sessions.{with_session, can_edit-rows, nonempty}

pub data Key : Type 0 where
  type_char : ℕ → Key
  erase null : Key

abbrev press : Key → EditSession → EditSession
press (type_char c) e = session_insert_char c e
press erase e = session_backspace e
press null e = set_null e

abbrev press_all : List Key → EditSession → EditSession
press_all [] e = e
press_all (k ∷ ks) e = press_all ks (press k e)

abbrev pub type_keys : List Key → ResultsState → ResultsState
type_keys [] s = s
type_keys (k ∷ ks) s = type_keys ks (on_session (press k) s)

-- What a key does to a value: on an SQL NULL it starts with an empty text.
abbrev edited : Key → Option Line → Option Line
edited (type_char c) none = some (c ∷ [])
edited (type_char c) (some text) = some (text ++ c ∷ [])
edited erase none = some []
edited erase (some text) = some (drop_last text)
edited null v = none

abbrev pub edited_all : List Key → Option Line → Option Line
edited_all [] v = v
edited_all (k ∷ ks) v = edited_all ks (edited k v)

value-press : (k : Key) (e : EditSession) → value (press k e) ≡ edited k (value e)
unfolding value session_insert_char session_backspace set_null
value-press (type_char c) e = elim (Bool-cases e.is_null) [ inl y ↦ rw y refl | inr n ↦ rw n refl ]
value-press erase e = elim (Bool-cases e.is_null) [ inl y ↦ rw y refl | inr n ↦ rw n refl ]
value-press null e = refl

-- The keys change neither the place of the session nor the value it started with.
pub record Keeps (e f : EditSession) : Type 0 where
  pub row : f.row ≡ e.row
  pub column : f.column ≡ e.column
  pub original : f.original_value ≡ e.original_value

press-Keeps : (k : Key) (e : EditSession) → Keeps e (press k e)
unfolding session_insert_char session_backspace set_null
press-Keeps (type_char c) e = record { row = refl; column = refl; original = refl }
press-Keeps erase e = record { row = refl; column = refl; original = refl }
press-Keeps null e = record { row = refl; column = refl; original = refl }

press_all-Keeps : (ks : List Key) (e : EditSession) → Keeps e (press_all ks e)
press_all-Keeps [] e = record { row = refl; column = refl; original = refl }
press_all-Keeps (k ∷ ks) e =
    let a = press-Keeps k e in
    let b = press_all-Keeps ks (press k e) in
    record { row = b.row ∙ a.row; column = b.column ∙ a.column; original = b.original ∙ a.original }

value-press_all :
    (ks : List Key) (e : EditSession) → value (press_all ks e) ≡ edited_all ks (value e)
value-press_all [] e = refl
value-press_all (k ∷ ks) e = value-press_all ks (press k e) ∙ ap (edited_all ks) (value-press k e)

type_keys-with_session :
    (ks : List Key) (e : EditSession) (s : ResultsState)
    → type_keys ks (with_session (some e) s) ≡ with_session (some (press_all ks e)) s
type_keys-with_session [] e s = refl
type_keys-with_session (k ∷ ks) e s = type_keys-with_session ks (press k e) s

-- The value that the grid holds at a cell.
abbrev pub stored : ResultsState → ℕ × ℕ → Option Line
stored s (row, col) =
    if or_else (cell_at s.null_cells row col) false
    then none
    else some (or_else (cell_at s.rows row col) [])

value-session_for : (s : ResultsState) → value (session_for s) ≡ stored s s.focus_cell
unfolding value
value-session_for s = refl

begin_edit-opens :
    (s : ResultsState)
    → is_empty s.headers ≡ false
    → can_edit s ≡ true
    → s.edit_session ≡ none
    → begin_edit s ≡ (with_session (some (session_for s)) s, true)
unfolding begin_edit
begin_edit-opens s h c n =
    if_false (is_empty s.headers) _ _ h
    ∙ if_false (not (can_edit s)) _ _ (ap not c)
    ∙ if_false (is_some s.edit_session) _ _ (ap is_some n)

get_all_some {ℓ} :
    {A : Type ℓ} (os : List (Option A)) (i : ℕ)
    → all_some os ≡ true
    → i < length os
    → (a : A) × (get_elem? os i ≡ some (some a))
get_all_some [] i h k = absurd (omega arith)
get_all_some (none ∷ os) i h k = cc
get_all_some (some a ∷ os) zero h k = (a, refl)
get_all_some (some a ∷ os) (suc i) h k = get_all_some os i h (omega arith)

eq_value_refl : (v : Option Line) → eq_value v v ≡ true
eq_value_refl none = refl
eq_value_refl (some a) = eq_text_refl a

eq_value→eq : (v w : Option Line) → eq_value v w ≡ true → v ≡ w
eq_value→eq none none h = refl
eq_value→eq none (some b) h = cc
eq_value→eq (some a) none h = cc
eq_value→eq (some a) (some b) h = ap some (eq_text→eq a b h)

-- What the completion of an edit at a cell says of the value it is to have.
abbrev pub Reports : ResultsState → ℕ × ℕ → Option Line → EditCompletion → Type 0
Reports s (row, col) new c =
    (new ≡ stored s (row, col) → c ≡ unchanged)
    × (new ≢ stored s (row, col)
        → (name : Line) × (identity : RowIdentity) × (get_elem? s.source_columns col
            ≡ some (some name))
          × (get_elem? s.row_identities row ≡ some (some identity))
          × (c
              ≡ changed (record {
                row = row;
                column = col;
                column_name = name;
                row_identity = identity;
                new_value = new;
                column_type = get_elem? s.column_types col;
              })))

-- What editing needs of the tables.
pub record Editable (s : ResultsState) : Type 0 where
  pub identified : all_some s.row_identities ≡ true
  pub named : all_some s.source_columns ≡ true

can_edit-Editable : (s : ResultsState) → can_edit s ≡ true → Editable s
unfolding can_edit
can_edit-Editable s h = record { identified = ground arith; named = ground arith }

never : (v w : Option Line) → v ≡ w → eq_value v w ≡ false → ⊥
never v w h n =
    let y : eq_value v v ≡ true = eq_value_refl v in
    let z : eq_value v v ≡ false = ap (eq_value v) h ∙ n in cc

Reports-at :
    (s : ResultsState) (a b : ℕ × ℕ) (v w : Option Line) (c : EditCompletion)
    → a ≡ b
    → v ≡ w
    → Reports s a v c
    → Reports s b w c
Reports-at s a b v w c h k r = subst (λ x. Reports s x w c) h (subst (λ x. Reports s a x c) k r)

completion-Reports :
    (e : EditSession) (s : ResultsState)
    → Editable s
    → e.row < length s.row_identities
    → e.column < length s.source_columns
    → e.original_value ≡ stored s (e.row, e.column)
    → (c : EditCompletion) × (completion e s ≡ some c) × Reports s (e.row, e.column) (value e) c
unfolding completion is_unchanged value
completion-Reports e s h r k o = elim (Bool-cases (is_unchanged e)) [
  | inl y ↦
      (unchanged, rw y refl, (λ same. refl, λ differs. absurd (differs (eq_value→eq _ _ y ∙ o))))
  | inr n ↦
      let (name, at_col) = get_all_some s.source_columns e.column h.named k in
      let (identity, at_row) = get_all_some s.row_identities e.row h.identified r in
      (
        changed (pending e name identity (get_elem? s.column_types e.column)),
        rw (n, at_col, at_row) refl,
        (
          λ same. absurd (never _ _ (same ∙ sym o) n),
          λ differs. (name, identity, at_col, at_row, refl),
        ),
      )
]

-- An edit, from its beginning over any keys to its end, in a grid that can be edited: it ends,
-- and says that nothing changed exactly if the keys make of the value that the cell holds that
-- same value. Otherwise it asks to write the value that the keys make of it, to the focused
-- cell, under the identity of its row and the source name of its column.
pub finish_edit-Reports :
    (ks : List Key) (s : ResultsState)
    → IsValid s
    → is_empty s.headers ≡ false
    → can_edit s ≡ true
    → s.edit_session ≡ none
    → (c : EditCompletion) × (finish_edit (type_keys ks (begin_edit s).0)
        ≡ (with_session none s, some c))
      × Reports s s.focus_cell (edited_all ks (stored s s.focus_cell)) c
unfolding finish_edit finish_with
finish_edit-Reports ks s v h can n =
    let e = press_all ks (session_for s) in
    let k = press_all-Keeps ks (session_for s) in
    let same : (e.row, e.column) ≡ s.focus_cell = λ i. (k.row i, k.column i) in
    let able = can_edit-Editable s can in
    let opened =
      ap (λ p. type_keys ks p.0) (begin_edit-opens s h can n)
      ∙ type_keys-with_session ks (session_for s) s in
    let (c, done, report) =
      completion-Reports e (with_session none s)
        (record { identified = able.identified; named = able.named })
        (omega (arith, k.row, v.focus.row, v.fits.identities, can_edit-rows s can))
        (omega (arith, k.column, v.focus.col, v.fits.columns, nonempty s.headers h))
        (k.original ∙ ap (stored s) (sym same)) in
    (
      c,
      ap finish_edit opened ∙ ap (λ o. (with_session none s, o)) done,
      Reports-at s (e.row, e.column) s.focus_cell (value e) _ c same
          (value-press_all ks (session_for s) ∙ ap (edited_all ks) (value-session_for s)) report,
    )
