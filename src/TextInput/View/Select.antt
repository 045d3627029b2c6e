-- ===== src/TextInput/View/Select.antt =====
-- The selected part of the text, and its removal.
use poqi.Prelude.{
  ℕ, ◌-◌, ◌<◌, ◌≤◌, ◌≡◌, ◌≢◌, refl, ap, ◌∙◌, some, List, [], ◌∷◌, ◌++◌, arith, append_assoc,
  append-nil, length, get_elem?, ◌⊎◌, inl, inr, lt-length_of_get_elem?, min,
}
use poqi.TextInput.Utf8.{Line, byte_len}
use poqi.TextInput.Utils.{Position, normalize_positions}
use poqi.TextInput.State.{TextInputState, join_lines, text}
use poqi.TextInput.Cursor.{cursor_position, clamp_position}
use poqi.TextInput.Selection.{range_of, range_between, selection_range}
use poqi.TextInput.View.{before, after, join_lines-at, join_rest-at}

-- The first position stands before the second.
abbrev Earlier : Position → Position → Type 0
Earlier (r0, c0) (r1, c1) = (r0 < r1) ⊎ ((r0 ≡ r1) × (c0 < c1))

-- One of the two is the anchor and the other the head.
abbrev pub Spans : Position → Position → Position → Position → Type 0
Spans a b anchor head = ((anchor ≡ a) × (head ≡ b)) ⊎ ((anchor ≡ b) × (head ≡ a))

range_between-Earlier :
    (a b : Position)
    → Earlier a b
    → (range_between a b ≡ some (range_of (a, b))) × (range_between b a ≡ some (range_of (a, b)))
unfolding range_between normalize_positions
range_between-Earlier (r0, c0) (r1, c1) (inl h) = (ground arith, ground arith)
range_between-Earlier (r0, c0) (r1, c1) (inr h) = (ground arith, ground arith)

range_between-Spans :
    (a b anchor head : Position)
    → Earlier a b
    → Spans a b anchor head
    → range_between anchor head ≡ some (range_of (a, b))
range_between-Spans a b anchor head h (inl (e, f)) = rw (e, f) (range_between-Earlier a b h).0
range_between-Spans a b anchor head h (inr (e, f)) = rw (e, f) (range_between-Earlier a b h).1

-- A position on a row that is there, within its line.
abbrev pub Within : List Line → Position → Type 0
Within ls (row, col) = (line : Line) × (get_elem? ls row ≡ some line) × (col ≤ byte_len line)

pub clamp_position-Within :
    (s : TextInputState) (pos : Position) → Within s.lines pos → clamp_position s pos ≡ pos
unfolding clamp_position
clamp_position-Within s (row, col) (line, e, h) =
    rw (min_last row (length s.lines) (lt-length_of_get_elem? s.lines row e), e)
      (ap (λ c. (row, c)) (min_le col (byte_len line) h))
  where
    min_last : (r n : ℕ) → r < n → min r (n - 1) ≡ r
    min_last r n k = omega arith

    min_le : (c n : ℕ) → c ≤ n → min c n ≡ c
    min_le c n k = omega arith

abbrev pub selecting : List Line → ℕ → Position → Position → TextInputState
selecting ls scroll anchor head = record {
  lines = ls;
  cursor_row = head.0;
  cursor_col = head.1;
  scroll_row = scroll;
  selection_anchor = some anchor;
}

Within-Spans :
    (ls : List Line) (a b anchor head : Position)
    → Within ls a
    → Within ls b
    → Spans a b anchor head
    → Within ls head
Within-Spans ls a b anchor head wa wb (inl (e, f)) = rw f wb
Within-Spans ls a b anchor head wa wb (inr (e, f)) = rw f wa

module _ (ls : List Line) (scroll : ℕ) (anchor head : Position) where
  selection_range-anchor :
      selection_range (selecting ls scroll anchor head)
      ≡ range_between anchor (cursor_position (selecting ls scroll anchor head))
  unfolding selection_range
  selection_range-anchor = refl

  cursor_position-selecting :
      Within ls head → cursor_position (selecting ls scroll anchor head) ≡ head
  unfolding cursor_position
  cursor_position-selecting = clamp_position-Within (selecting ls scroll anchor head) head

-- The selection lies between its two ends, whichever of them is the anchor.
pub selection_range-selecting :
    (ls : List Line) (scroll : ℕ) (a b anchor head : Position)
    → Earlier a b
    → Within ls a
    → Within ls b
    → Spans a b anchor head
    → selection_range (selecting ls scroll anchor head) ≡ some (range_of (a, b))
selection_range-selecting ls scroll a b anchor head h wa wb sp =
    selection_range-anchor ls scroll anchor head
    ∙ ap (range_between anchor)
        (cursor_position-selecting ls scroll anchor head (Within-Spans ls a b anchor head wa wb sp))
    ∙ range_between-Spans a b anchor head h sp

-- In `s` the text `middle` is selected, with `left` before it and `right` behind it. Both ends of the
-- selection are on character boundaries of their rows.
pub data Selects : TextInputState → Line → Line → Line → Type 0 where
  in_row :
      (above : List Line) (p m q : Line) (below : List Line) (scroll : ℕ) (anchor head : Position)
      → m ≢ []
      → Spans (length above, byte_len p) (length above, byte_len (p ++ m)) anchor head
      → Selects
          (selecting (above ++ (p ++ (m ++ q)) ∷ below) scroll anchor head)
          (before above p)
          m
          (after q below)
  across_rows :
      (above : List Line) (p m : Line) (mids : List Line) (n q : Line) (below : List Line)
      (scroll : ℕ) (anchor head : Position)
      → Spans (length above, byte_len p) (length (above ++ (p ++ m) ∷ mids), byte_len n) anchor head
      → Selects
          (selecting (above ++ (p ++ m) ∷ (mids ++ (n ++ q) ∷ below)) scroll anchor head)
          (before above p)
          (join_lines (m ∷ (mids ++ n ∷ [])))
          (after q below)

-- The text is what stands before the selection, the selection, and what stands behind it.
text-Selects :
    {s : TextInputState} {left middle right : Line}
    → Selects s left middle right
    → text s ≡ left ++ (middle ++ right)
unfolding text
text-Selects (in_row above p m q below scroll anchor head ne sp) =
    join_lines-at above (p ++ (m ++ q)) below ∙ simp append_assoc
text-Selects (across_rows above p m mids n q below scroll anchor head sp) =
    join_lines-at above (p ++ m) (mids ++ (n ++ q) ∷ below)
    ∙ simp (join_rest-at, append_assoc, append-nil)
