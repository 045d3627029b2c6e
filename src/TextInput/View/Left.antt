-- ===== src/TextInput/View/Left.antt =====
-- The step to the left and backspace, on the text before and behind the cursor.
use poqi.Prelude.{ℕ, ◌≡◌, refl, sym, Option, none, List, [], ◌∷◌, append_assoc, inl, inr}
use poqi.TextInput.Utf8.{Line}
use poqi.TextInput.Utils.{Position}
use poqi.TextInput.State.{TextInputState, join_rest}
use poqi.TextInput.Cursor.{move_left}
use poqi.TextInput.Selection.{selection_range}
use poqi.TextInput.Editing.{backspace, delete_back}
use poqi.TextInput.View.{terminated, before, after, at_cursor, Shows, shows}
use poqi.TextInput.View.Insert.{collapse_selection-none}
use poqi.TextInput.View.Last.{
  move_left-in_line, delete_back-in_line, move_left-line_start, at_start, delete_back-line_start,
  before-line_start, TakesLast, snoc-cases,
}

module _ (post : Line) (below : List Line) (scroll : ℕ) (anchor : Option Position) where
  move_left-above :
      (above : List Line)
      → TakesLast move_left
          (at_cursor above [] post below scroll anchor)
          (before above [])
          (λ c. c ∷ after post below)
  move_left-above above = elim (snoc-cases above) [
    | inl e ↦ rw e (inl (refl, (at_start post below scroll anchor).0))
    | inr (ys, l, e) ↦ rw e (
        inr (
          before ys l,
          b'\n',
          at_cursor ys l [] (post ∷ below) scroll anchor,
          before-line_start ys l,
          move_left-line_start ys l post below scroll anchor,
          unfold join_rest in shows ys l [] (post ∷ below) scroll anchor,
        ))
  ]

  delete_back-above :
      (above : List Line)
      → TakesLast delete_back
          (at_cursor above [] post below scroll anchor)
          (before above [])
          (λ c. after post below)
  delete_back-above above = elim (snoc-cases above) [
    | inl e ↦ rw e (inl (refl, (at_start post below scroll anchor).1))
    | inr (ys, l, e) ↦ rw e (
        inr (
          before ys l,
          b'\n',
          at_cursor ys l post below scroll anchor,
          before-line_start ys l,
          delete_back-line_start ys l post below scroll anchor,
          shows ys l post below scroll anchor,
        ))
  ]

-- From a cursor on a boundary, the step to the left does not panic, and moves the last character
-- before the cursor, be it a line feed, behind it; at the start of the text it does nothing.
pub move_left-Shows :
    {s : TextInputState} {left right : Line}
    → Shows s left right
    → TakesLast move_left s left (λ c. c ∷ right)
move_left-Shows (shows above pre post below scroll anchor) = elim (snoc-cases pre) [
  | inl e ↦ rw e (move_left-above post below scroll anchor above)
  | inr (p, d, e) ↦ rw e (
      inr (
        before above p,
        d,
        at_cursor above p (d ∷ post) below scroll anchor,
        sym (append_assoc (terminated above) p (d ∷ [])),
        move_left-in_line above p d post below scroll anchor,
        shows above p (d ∷ post) below scroll anchor,
      ))
]

delete_back-Shows :
    {s : TextInputState} {left right : Line}
    → Shows s left right
    → TakesLast delete_back s left (λ c. right)
delete_back-Shows (shows above pre post below scroll anchor) = elim (snoc-cases pre) [
  | inl e ↦ rw e (delete_back-above post below scroll anchor above)
  | inr (p, d, e) ↦ rw e (
      inr (
        before above p,
        d,
        at_cursor above p post below scroll anchor,
        sym (append_assoc (terminated above) p (d ∷ [])),
        delete_back-in_line above p d post below scroll anchor,
        shows above p post below scroll anchor,
      ))
]

backspace-eq : (s : TextInputState) → selection_range s ≡ none → backspace s ≡ delete_back s
unfolding backspace
backspace-eq s h = rw (collapse_selection-none s h)

-- With no selection and the cursor on a boundary, backspace does not panic, and removes the last
-- character before the cursor, joining two lines where that is a line feed; at the start of the
-- text it does nothing.
pub backspace-Shows :
    {s : TextInputState} {left right : Line}
    → Shows s left right
    → selection_range s ≡ none
    → TakesLast backspace s left (λ c. right)
backspace-Shows {s} v h = rw (backspace-eq s h) (delete_back-Shows v)
