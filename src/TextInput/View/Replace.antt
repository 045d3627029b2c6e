-- ===== src/TextInput/View/Replace.antt =====
-- What the edits do with a selection.
use poqi.Prelude.{
  ℕ, ◌<◌, ◌≡◌, ◌≢◌, refl, none, some, List, [], ◌∷◌, ◌++◌, arith, append_assoc, length,
  get_elem?-append-cons, true, inl, inr,
}
use poqi.TextInput.Utf8.{Line, byte_len, byte_len-append}
use poqi.TextInput.Utils.{Position}
use poqi.TextInput.State.{TextInputState}
use poqi.TextInput.Selection.{
  range_of, selection_range, collapse_selection, collect_range_text, selected_text,
}
use poqi.TextInput.Editing.{insert_char, newline, backspace, put_char, split_line}
use poqi.TextInput.View.{at_cursor, Shows, shows}
use poqi.TextInput.View.Insert.{
  ensure_line_index-lt, lt→leb-false, row-lt, Shows-row-lt, put_char-Shows, split_line-Shows,
}
use poqi.TextInput.View.Select.{
  Spans, Within, selecting, selection_range-selecting, Selects, in_row, across_rows,
}
use poqi.TextInput.View.Collapse.{collapse_selection-at}
use poqi.TextInput.View.Range.{
  ends_lt, remove_range-in_row, remove_range-across, get_last, collect_range_text-in_row,
  collect_range_text-across,
}

Within-first :
    (above : List Line) (p q : Line) (below : List Line)
    → Within (above ++ (p ++ q) ∷ below) (length above, byte_len p)
Within-first above p q below =
    (p ++ q, get_elem?-append-cons above below (p ++ q), omega (arith, byte_len-append p q))

selection-in_row :
    (above : List Line) (p m q : Line) (below : List Line) (scroll : ℕ) (anchor head : Position)
    → m ≢ []
    → Spans (length above, byte_len p) (length above, byte_len (p ++ m)) anchor head
    → selection_range (selecting (above ++ (p ++ (m ++ q)) ∷ below) scroll anchor head)
      ≡ some (range_of ((length above, byte_len p), (length above, byte_len (p ++ m))))
selection-in_row above p m q below scroll anchor head ne sp =
    selection_range-selecting _ scroll _ _ anchor head (inr (refl, ends_lt p m q ne))
      (Within-first above p (m ++ q) below)
      (rw (← append_assoc p m q) (Within-first above (p ++ m) q below)) sp

selection-across :
    (above : List Line) (p m : Line) (mids : List Line) (n q : Line) (below : List Line)
    (scroll : ℕ) (anchor head : Position)
    → Spans (length above, byte_len p) (length (above ++ (p ++ m) ∷ mids), byte_len n) anchor head
    → selection_range
        (selecting (above ++ (p ++ m) ∷ (mids ++ (n ++ q) ∷ below)) scroll anchor head)
      ≡ some
          (range_of ((length above, byte_len p), (length (above ++ (p ++ m) ∷ mids), byte_len n)))
selection-across above p m mids n q below scroll anchor head sp =
    selection_range-selecting _ scroll _ _ anchor head (inl (row-lt above (p ++ m) mids))
      (Within-first above p m (mids ++ (n ++ q) ∷ below))
      (n ++ q, get_last above (p ++ m) mids (n ++ q) below, omega (arith, byte_len-append n q)) sp

-- The selection is removed, the cursor stands where it was, and nothing is selected any more.
pub collapse_selection-Selects :
    {s : TextInputState} {left middle right : Line}
    → Selects s left middle right
    → (t : TextInputState) × (collapse_selection s ≡ some (true, t))
      × Shows t left right
      × (selection_range t ≡ none)
collapse_selection-Selects (in_row above p m q below scroll anchor head ne sp) = (
  at_cursor above p q below scroll none,
  collapse_selection-at (selecting (above ++ (p ++ (m ++ q)) ∷ below) scroll anchor head)
      (length above) (byte_len p) _ _ (selection-in_row above p m q below scroll anchor head ne sp)
      (remove_range-in_row above p m q below ne) (Within-first above p q below),
  shows above p q below scroll none,
  unfold selection_range in refl,
)
collapse_selection-Selects (across_rows above p m mids n q below scroll anchor head sp) = (
  at_cursor above p q below scroll none,
  collapse_selection-at
      (selecting (above ++ (p ++ m) ∷ (mids ++ (n ++ q) ∷ below)) scroll anchor head) (length above)
      (byte_len p) _ _ (selection-across above p m mids n q below scroll anchor head sp)
      (remove_range-across above p m mids n q below) (Within-first above p q below),
  shows above p q below scroll none,
  unfold selection_range in refl,
)

selected_text-at :
    (s : TextInputState) (a b : Position) (t : Line)
    → selection_range s ≡ some (range_of (a, b))
    → collect_range_text s.lines a b ≡ some t
    → selected_text s ≡ some (some t)
unfolding selected_text
selected_text-at s a b t h e = rw (h, selected_text) (rw e)

-- With a selection, in a line or across lines, with both ends on character boundaries of their
-- rows, `selected_text` does not panic and returns the selected text.
pub selected_text-Selects :
    {s : TextInputState} {left middle right : Line}
    → Selects s left middle right
    → selected_text s ≡ some (some middle)
selected_text-Selects (in_row above p m q below scroll anchor head ne sp) =
    selected_text-at _ _ _ m (selection-in_row above p m q below scroll anchor head ne sp)
      (collect_range_text-in_row above p m q below)
selected_text-Selects (across_rows above p m mids n q below scroll anchor head sp) =
    selected_text-at _ _ _ _ (selection-across above p m mids n q below scroll anchor head sp)
      (collect_range_text-across above p m mids n q below)

-- The edits go on from the state that the removal leaves.
module _ (s t : TextInputState) (e : collapse_selection s ≡ some (true, t))
    (lt : t.cursor_row < length t.lines) where
  insert_char-after : (ch : ℕ) → insert_char ch s ≡ put_char ch t
  unfolding insert_char
  insert_char-after ch = rw (e, ensure_line_index-lt t.cursor_row t lt)

  newline-after : newline s ≡ split_line t
  unfolding newline
  newline-after = rw (e, lt→leb-false (length t.lines) t.cursor_row lt)

  backspace-after : backspace s ≡ some t
  unfolding backspace
  backspace-after = rw e

module _ {s : TextInputState} {left middle right : Line} (v : Selects s left middle right) where
  -- Typing over a selection replaces it by the character.
  pub insert_char-Selects :
      (ch : ℕ)
      → (u : TextInputState) × (insert_char ch s ≡ some u) × Shows u (left ++ ch ∷ []) right
  insert_char-Selects ch =
      let (t, e, w, _) = collapse_selection-Selects v in
      rw (insert_char-after s t e (Shows-row-lt w) ch) (put_char-Shows ch w)

  -- A line break over a selection replaces it by a line feed.
  pub newline-Selects :
      (u : TextInputState) × (newline s ≡ some u) × Shows u (left ++ b'\n' ∷ []) right
  newline-Selects =
      let (t, e, w, _) = collapse_selection-Selects v in
      rw (newline-after s t e (Shows-row-lt w)) (split_line-Shows w)

  -- Backspace removes the selection and nothing else.
  pub backspace-Selects : (u : TextInputState) × (backspace s ≡ some u) × Shows u left right
  backspace-Selects =
      let (t, e, w, _) = collapse_selection-Selects v in
      (t, backspace-after s t e (Shows-row-lt w), w)
