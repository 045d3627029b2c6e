-- ===== src/TextInput/View/Insert.antt =====
-- Insertions at the cursor, as edits of the text before the cursor.
use poqi.Prelude.{
  ℕ, suc, ◌+◌, ◌-◌, ◌<◌, ◌≤◌, ◌≡◌, refl, ap, Option, none, some, List, [], ◌∷◌, ◌++◌, arith,
  append_assoc, append-nil, length, get_elem?-append-cons, set-append-cons, length-append,
  length-snoc, add-one, false, leb,
}
use poqi.TextInput.Utf8.{Line, byte_len-snoc, split_at-append}
use poqi.TextInput.Utils.{Position}
use poqi.TextInput.Lines.{insert_row-at}
use poqi.TextInput.State.{TextInputState}
use poqi.TextInput.Cursor.{ensure_line_index, push_lines, non_empty}
use poqi.TextInput.Selection.{selection_range, collapse_selection}
use poqi.TextInput.Editing.{insert_char, put_char, newline, split_line}
use poqi.TextInput.View.{terminated, at_cursor, Shows, shows, min-byte_len}

-- With nothing selected there is nothing to remove.
pub collapse_selection-none :
    (s : TextInputState) → selection_range s ≡ none → collapse_selection s ≡ some (false, s)
unfolding collapse_selection
collapse_selection-none s h = rw (h, collapse_selection)

sub_eq_zero : (a b : ℕ) → a ≤ b → a - b ≡ 0
sub_eq_zero a b h = omega arith

pub lt→leb-false : (a b : ℕ) → b < a → leb a b ≡ false
lt→leb-false a b h = ground arith

push_lines-lt :
    (row : ℕ) (ls : List Line)
    → row < length ls
    → push_lines (row + 1 - length (non_empty ls)) (non_empty ls) ≡ ls
unfolding push_lines
push_lines-lt row [] h = elim h [ ]
push_lines-lt row (l ∷ ls) h = rw (sub_eq_zero (row + 1) (suc (length ls)) (omega arith))

-- A row that is there needs no padding.
pub ensure_line_index-lt :
    (row : ℕ) (s : TextInputState) → row < length s.lines → ensure_line_index row s ≡ s
unfolding ensure_line_index
ensure_line_index-lt row s h = ap (λ ls. record s { lines = ls }) (push_lines-lt row s.lines h)

pub row-lt :
    (above : List Line) (l : Line) (below : List Line) → length above < length (above ++ l ∷ below)
row-lt above l below = omega (arith, length-append above (l ∷ below))

pub terminated-append :
    (above : List Line) (l : Line)
    → terminated (above ++ l ∷ []) ≡ terminated above ++ (l ++ b'\n' ∷ [])
terminated-append [] l = refl
terminated-append (a ∷ above) l = simp (terminated-append above l, append_assoc)

-- The line of the cursor, cut at the cursor.
module _ (above : List Line) (pre post : Line) (below : List Line) (scroll : ℕ)
    (anchor : Option Position) where
  put_char-at :
      (ch : ℕ)
      → put_char ch (at_cursor above pre post below scroll anchor)
        ≡ some (at_cursor above (pre ++ ch ∷ []) post below scroll anchor)
  unfolding put_char
  put_char-at ch =
      rw (get_elem?-append-cons, min-byte_len, split_at-append, set-append-cons)
        (rw (byte_len-snoc pre ch, append_assoc pre (ch ∷ []) post))

  -- A line feed cuts the line in two.
  split_line-at :
      split_line (at_cursor above pre post below scroll anchor)
      ≡ some (at_cursor (above ++ pre ∷ []) [] post below scroll anchor)
  unfolding split_line
  split_line-at =
      rw (get_elem?-append-cons, min-byte_len, split_at-append, set-append-cons)
        (rw (add-one, insert_row-at, length-snoc))

-- With nothing selected and the cursor on a row that is there, the edits go ahead at once.
module _ (s : TextInputState) (h : selection_range s ≡ none)
    (lt : s.cursor_row < length s.lines) where
  pub insert_char-eq : (ch : ℕ) → insert_char ch s ≡ put_char ch s
  unfolding insert_char
  insert_char-eq ch = rw (collapse_selection-none s h, ensure_line_index-lt s.cursor_row s lt)

  newline-eq : newline s ≡ split_line s
  unfolding newline
  newline-eq = rw (collapse_selection-none s h, lt→leb-false (length s.lines) s.cursor_row lt)

pub Shows-row-lt :
    {s : TextInputState} {left right : Line} → Shows s left right → s.cursor_row < length s.lines
Shows-row-lt (shows above pre post below scroll anchor) = row-lt above (pre ++ post) below

pub put_char-Shows :
    {s : TextInputState} {left right : Line} (ch : ℕ)
    → Shows s left right
    → (t : TextInputState) × (put_char ch s ≡ some t) × Shows t (left ++ ch ∷ []) right
put_char-Shows ch (shows above pre post below scroll anchor) = (
  at_cursor above (pre ++ ch ∷ []) post below scroll anchor,
  put_char-at above pre post below scroll anchor ch,
  rw (append_assoc (terminated above) pre (ch ∷ []))
      (shows above (pre ++ ch ∷ []) post below scroll anchor),
)

pub split_line-Shows :
    {s : TextInputState} {left right : Line}
    → Shows s left right
    → (t : TextInputState) × (split_line s ≡ some t) × Shows t (left ++ b'\n' ∷ []) right
split_line-Shows (shows above pre post below scroll anchor) = (
  at_cursor (above ++ pre ∷ []) [] post below scroll anchor,
  split_line-at above pre post below scroll anchor,
  rw
      (
        append_assoc (terminated above) pre (b'\n' ∷ []),
        ← terminated-append above pre,
        ← append-nil (terminated (above ++ pre ∷ [])),
      )
      (shows (above ++ pre ∷ []) [] post below scroll anchor),
)

module _ (s : TextInputState) {left right : Line} where
  -- With no selection and the cursor on a boundary, typing a character does not panic, and puts
  -- the character behind the text before the cursor.
  pub insert_char-Shows :
      (ch : ℕ)
      → Shows s left right
      → selection_range s ≡ none
      → (t : TextInputState) × (insert_char ch s ≡ some t) × Shows t (left ++ ch ∷ []) right
  insert_char-Shows ch v h = rw (insert_char-eq s h (Shows-row-lt v) ch) (put_char-Shows ch v)

  -- Likewise a line break puts a line feed behind the text before the cursor.
  pub newline-Shows :
      Shows s left right
      → selection_range s ≡ none
      → (t : TextInputState) × (newline s ≡ some t) × Shows t (left ++ b'\n' ∷ []) right
  newline-Shows v h = rw (newline-eq s h (Shows-row-lt v)) (split_line-Shows v)
