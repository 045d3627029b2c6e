-- ===== src/TextInput/View/Inside.antt =====
-- A step up or down can end inside a character, and what follows then panics.
use poqi.Prelude.{
  ℕ, zero, suc, ◌+◌, ◌-◌, ◌<◌, ◌≤◌, ◌≡◌, refl, ap, ◌∙◌, none, some, List, [], ◌∷◌, ◌++◌, arith,
  false, length, length-snoc, get_elem?-append-cons, append_assoc, min, ltb, lt→ltb, ◌==◌, ◌||◌,
}
use poqi.TextInput.Utf8.{
  Line, len_utf8, byte_len, byte_len-append, split_at, split_at-cons, cons_left,
}
use poqi.TextInput.Utils.{prev_char_boundary}
use poqi.TextInput.State.{TextInputState}
use poqi.TextInput.Cursor.{move_up, move_left}
use poqi.TextInput.Editing.{insert_char, put_char}
use poqi.TextInput.Selection.{selection_range}
use poqi.TextInput.View.{at_cursor}
use poqi.TextInput.View.Insert.{insert_char-eq, row-lt, lt→leb-false}
use poqi.TextInput.View.Last.{get_elem?-above, suc_sub_one}

split_at-head : (c : ℕ) (q : Line) (n : ℕ) → 0 < n → n < len_utf8 c → split_at (c ∷ q) n ≡ none
unfolding split_at
split_at-head c q zero h k = absurd (omega arith)
split_at-head c q (suc n) h k = rw (lt→leb-false (len_utf8 c) (suc n) k)

-- No text splits inside a character.
split_at-inside :
    (p : Line) (c : ℕ) (q : Line) (n : ℕ)
    → byte_len p < n
    → n < byte_len p + len_utf8 c
    → split_at (p ++ c ∷ q) n ≡ none
split_at-inside [] c q n h k = split_at-head c q n h (omega arith)
split_at-inside (a ∷ p) c q n h k =
    split_at-cons a (p ++ c ∷ q) n (omega arith)
    ∙ ap (cons_left a) (split_at-inside p c q (n - len_utf8 a) (omega arith) (omega arith))

-- A cursor inside the character `c`, `n` bytes into its line.
module _ (above : List Line) (p : Line) (c : ℕ) (q : Line) (below : List Line) (scroll n : ℕ)
    (h : byte_len p < n) (k : n < byte_len p + len_utf8 c) where
  abbrev inside : TextInputState
  inside = record {
    lines = above ++ (p ++ c ∷ q) ∷ below;
    cursor_row = length above;
    cursor_col = n;
    scroll_row = scroll;
    selection_anchor = none;
  }

  n_le : n ≤ byte_len (p ++ c ∷ q)
  n_le = omega (arith, byte_len-append p (c ∷ q))

  min_n : min n (byte_len (p ++ c ∷ q)) ≡ n
  min_n = omega (arith, n_le)

  put_char-inside : (ch : ℕ) → put_char ch inside ≡ none
  unfolding put_char
  put_char-inside ch = rw (get_elem?-append-cons, min_n, split_at-inside p c q n h k)

  insert_char-inside : (ch : ℕ) → insert_char ch inside ≡ none
  insert_char-inside ch =
      insert_char-eq inside (unfold selection_range in refl) (row-lt above (p ++ c ∷ q) below) ch
      ∙ put_char-inside ch

  prev_char_boundary-inside : prev_char_boundary (p ++ c ∷ q) n ≡ none
  unfolding prev_char_boundary
  prev_char_boundary-inside =
      rw (test n (byte_len (p ++ c ∷ q)) (omega arith) n_le, split_at-inside p c q n h k)
    where
      test : (i m : ℕ) → 0 < i → i ≤ m → ((i == 0) || ltb m i) ≡ false
      test i m a b = ground arith

  move_left-inside : move_left inside ≡ none
  unfolding move_left
  move_left-inside = rw (lt→ltb 0 n (omega arith), get_elem?-append-cons, prev_char_boundary-inside)

module _ (above : List Line) (p : Line) (c : ℕ) (q pre post : Line) (below : List Line) (scroll : ℕ)
    (h : byte_len p < byte_len pre) (k : byte_len pre < byte_len p + len_utf8 c) where
  move_up-inside :
      move_up (at_cursor (above ++ (p ++ c ∷ q) ∷ []) pre post below scroll none)
      ≡ some (inside above p c q ((pre ++ post) ∷ below) scroll (byte_len pre) h k)
  unfolding move_up
  move_up-inside = rw (
    length-snoc above (p ++ c ∷ q),
    lt→ltb 0 (suc (length above)) (omega arith),
    suc_sub_one,
    get_elem?-above,
    not_lt (byte_len (p ++ c ∷ q)) (byte_len pre)
        (n_le above p c q below scroll (byte_len pre) h k),
    append_assoc above ((p ++ c ∷ q) ∷ []) ((pre ++ post) ∷ below),
  )
    where
      not_lt : (a b : ℕ) → b ≤ a → ltb a b ≡ false
      not_lt a b le = ground arith

  -- With nothing selected and the cursor on a character boundary of its row, where the row above
  -- holds a character that begins before the cursor's byte column and ends behind it, the step up
  -- succeeds, and then typing any character panics, and so does the step to the left.
  pub move_up_panics :
      (t : TextInputState) × (move_up
          (at_cursor (above ++ (p ++ c ∷ q) ∷ []) pre post below scroll none)
        ≡ some t)
      × ((ch : ℕ) → insert_char ch t ≡ none)
      × (move_left t ≡ none)
  move_up_panics = (
    inside above p c q ((pre ++ post) ∷ below) scroll (byte_len pre) h k,
    move_up-inside,
    insert_char-inside above p c q ((pre ++ post) ∷ below) scroll (byte_len pre) h k,
    move_left-inside above p c q ((pre ++ post) ∷ below) scroll (byte_len pre) h k,
  )
