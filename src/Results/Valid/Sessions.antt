-- ===== src/Results/Valid/Sessions.antt =====
-- Opening, typing into and closing an edit session keeps the results grid valid.
use poqi.Prelude.{
  ◌<◌, ◌≡◌, refl, ◌∙◌, Bool, true, false, Option, none, some, List, [], ◌∷◌, not, arith, length,
  if◌then◌else◌,
}
use mathlib.Core.Path.{subst}
use mathlib.Core.Option.{some-injective}
use poqi.Results.Grid.{EditSession, ResultsState, is_empty}
use poqi.Results.Editing.{
  begin_edit, can_edit, session_for, is_some, on_session, change_session, finish_with, finish_edit,
}
use poqi.Results.Valid.{AtFocus, IsValid}

-- A session that is opened, changed in its text, or closed.
abbrev pub with_session : Option EditSession → ResultsState → ResultsState
with_session o s = record s { edit_session = o }

with_session-IsValid :
    (o : Option EditSession) (s : ResultsState)
    → ((e : EditSession) → o ≡ some e → AtFocus (length s.rows) (length s.headers) s.focus_cell e)
    → IsValid s
    → IsValid (with_session o s)
with_session-IsValid o s h v = record {
  fits = v.fits;
  focus = v.focus;
  anchor = v.anchor;
  tail = v.tail;
  session = h;
  left = v.left;
}

pub no_session-IsValid : (s : ResultsState) → IsValid s → IsValid (with_session none s)
no_session-IsValid s v = with_session-IsValid none s (λ e h. cc) v

pub nonempty : {A : Type 0} (xs : List A) → is_empty xs ≡ false → 0 < length xs
nonempty [] h = cc
nonempty (x ∷ xs) h = omega arith

pub can_edit-rows : (s : ResultsState) → can_edit s ≡ true → 0 < length s.rows
unfolding can_edit
can_edit-rows s h = ground (arith, nonempty s.rows)

-- A branch is taken for a reason.
pair-IsValid :
    (b : Bool) (x y : ResultsState × Bool)
    → (b ≡ true → IsValid x.0)
    → (b ≡ false → IsValid y.0)
    → IsValid (if b then x else y).0
pair-IsValid true x y h k = h refl
pair-IsValid false x y h k = k refl

session_for-IsValid :
    (s : ResultsState)
    → 0 < length s.rows
    → 0 < length s.headers
    → IsValid s
    → IsValid (with_session (some (session_for s)) s)
session_for-IsValid s r c v =
    with_session-IsValid (some (session_for s)) s
      (λ e h.
        subst (λ x. AtFocus (length s.rows) (length s.headers) s.focus_cell x)
          (some-injective _ e h)
          (record {
            at_row = refl;
            at_col = refl;
            row_lt = omega (arith, v.focus.row);
            col_lt = omega (arith, v.focus.col);
          }))
      v

not-false : (b : Bool) → not b ≡ false → b ≡ true
not-false true h = refl
not-false false h = cc

pub begin_edit-IsValid : (s : ResultsState) → IsValid s → IsValid (begin_edit s).0
unfolding begin_edit
begin_edit-IsValid s v =
    pair-IsValid (is_empty s.headers) _ _ (λ y. v)
      λ ne.
        pair-IsValid (not (can_edit s)) _ _ (λ y. v)
          λ can.
            pair-IsValid (is_some s.edit_session) _ _ (λ y. v)
              λ free.
                session_for-IsValid s (can_edit-rows s (not-false (can_edit s) can))
                  (nonempty s.headers ne) v

-- The keys of an edit change its text only.
abbrev Stays : (EditSession → EditSession) → Type 0
Stays f = (e : EditSession) → ((f e).row ≡ e.row) × ((f e).column ≡ e.column)

change_session-IsValid :
    (f : EditSession → EditSession) (o : Option EditSession) (s : ResultsState)
    → s.edit_session ≡ o
    → Stays f
    → IsValid s
    → IsValid (change_session f o s)
change_session-IsValid f none s e h v = v
change_session-IsValid f (some x) s e h v =
    with_session-IsValid (some (f x)) s
      (λ y k.
        let at = v.session x e in
        let (row, col) = h x in
        subst (λ z. AtFocus (length s.rows) (length s.headers) s.focus_cell z)
          (some-injective _ y k)
          (record {
            at_row = row ∙ at.at_row;
            at_col = col ∙ at.at_col;
            row_lt = omega (arith, at.row_lt, row);
            col_lt = omega (arith, at.col_lt, col);
          }))
      v

pub on_session-IsValid :
    (f : EditSession → EditSession) (s : ResultsState)
    → Stays f
    → IsValid s
    → IsValid (on_session f s)
on_session-IsValid f s h v = change_session-IsValid f s.edit_session s refl h v

finish_with-IsValid :
    (o : Option EditSession) (s : ResultsState) → IsValid s → IsValid (finish_with o s).0
unfolding finish_with
finish_with-IsValid none s v = v
finish_with-IsValid (some e) s v = no_session-IsValid s v

pub finish_edit-IsValid : (s : ResultsState) → IsValid s → IsValid (finish_edit s).0
unfolding finish_edit
finish_edit-IsValid s v = finish_with-IsValid s.edit_session s v
