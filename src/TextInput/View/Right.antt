-- ===== src/TextInput/View/Right.antt =====
-- The cursor step to the right.
use poqi.Prelude.{
  ℕ, ◌+◌, ◌<◌, ◌≤◌, ◌≡◌, refl, Option, some, List, [], ◌∷◌, ◌++◌, arith, append_assoc, append-nil,
  length, length-append, get_elem?-append-cons, length-snoc, add-one, false, ltb, ◌⊎◌, inl, inr,
  lt→ltb,
}
use poqi.TextInput.Utf8.{
  Line, len_utf8_pos, byte_len, byte_len-append, byte_len-snoc, split_at-append,
}
use poqi.TextInput.Utils.{Position, next_char_boundary}
use poqi.TextInput.State.{TextInputState, join_rest}
use poqi.TextInput.Cursor.{move_right}
use poqi.TextInput.View.{terminated, after, at_cursor, Shows, shows}
use poqi.TextInput.View.Insert.{row-lt, lt→leb-false}
use poqi.TextInput.View.Last.{before-line_start}

-- A step to the right either finds nothing behind the cursor and changes nothing, or takes the
-- first character from the text behind the cursor.
abbrev pub TakesFirst :
    (TextInputState → Option TextInputState) → TextInputState → Line → Line → Type 0
TakesFirst op s left right =
    ((right ≡ []) × (op s ≡ some s))
    ⊎ ((c : ℕ) × (right' : Line) × (t : TextInputState) × (right ≡ c ∷ right')
        × (op s ≡ some t)
        × Shows t (left ++ c ∷ []) right')

byte_len_lt : (pre : Line) (c : ℕ) (post : Line) → byte_len pre < byte_len (pre ++ c ∷ post)
byte_len_lt pre c post = omega (arith, byte_len-append pre (c ∷ post), len_utf8_pos c)

ltb_self : (n : ℕ) → ltb n n ≡ false
ltb_self n = ground arith

next_char_boundary-at :
    (pre : Line) (c : ℕ) (post : Line)
    → next_char_boundary (pre ++ c ∷ post) (byte_len pre) ≡ some (byte_len (pre ++ c ∷ []))
unfolding next_char_boundary
next_char_boundary-at pre c post =
    rw (lt→leb-false _ _ (byte_len_lt pre c post), split_at-append, byte_len-snoc pre c)

module _ (above : List Line) (pre : Line) (scroll : ℕ) (anchor : Option Position) where
  move_right-in_line :
      (c : ℕ) (post : Line) (below : List Line)
      → move_right (at_cursor above pre (c ∷ post) below scroll anchor)
        ≡ some (at_cursor above (pre ++ c ∷ []) post below scroll anchor)
  unfolding move_right
  move_right-in_line c post below = rw (
    lt→ltb _ _ (row-lt above (pre ++ c ∷ post) below),
    get_elem?-append-cons,
    lt→ltb _ _ (byte_len_lt pre c post),
    next_char_boundary-at,
    append_assoc pre (c ∷ []) post,
  )

  move_right-line_end :
      (m : Line) (below : List Line)
      → move_right (at_cursor above pre [] (m ∷ below) scroll anchor)
        ≡ some (at_cursor (above ++ pre ∷ []) [] m below scroll anchor)
  unfolding move_right
  move_right-line_end m below = rw (
    lt→ltb _ _ (row-lt above (pre ++ []) (m ∷ below)),
    get_elem?-append-cons,
    append-nil pre,
    ltb_self (byte_len pre),
    lt→ltb (length above + 1) (length (above ++ pre ∷ m ∷ below))
        (omega (arith, length-append above (pre ∷ m ∷ below))),
    append_assoc above (pre ∷ []) (m ∷ below),
    length-snoc above pre,
    add-one,
  )

  move_right-at_end :
      move_right (at_cursor above pre [] [] scroll anchor)
      ≡ some (at_cursor above pre [] [] scroll anchor)
  unfolding move_right
  move_right-at_end = rw (
    lt→ltb _ _ (row-lt above (pre ++ []) []),
    get_elem?-append-cons,
    append-nil pre,
    ltb_self (byte_len pre),
    not_lt (length above + 1) (length (above ++ pre ∷ []))
        (omega (arith, length-append above (pre ∷ []))),
  )
    where
      not_lt : (a b : ℕ) → b ≤ a → ltb a b ≡ false
      not_lt a b h = ground arith

-- From a cursor on a boundary, the step to the right does not panic, and moves the first character
-- behind the cursor, be it a line feed, before it; at the end of the text it does nothing.
pub move_right-Shows :
    {s : TextInputState} {left right : Line}
    → Shows s left right
    → TakesFirst move_right s left right
unfolding join_rest
move_right-Shows (shows above pre (c ∷ post) below scroll anchor) = inr (
  c,
  after post below,
  at_cursor above (pre ++ c ∷ []) post below scroll anchor,
  refl,
  move_right-in_line above pre scroll anchor c post below,
  rw (append_assoc (terminated above) pre (c ∷ []))
      (shows above (pre ++ c ∷ []) post below scroll anchor),
)
move_right-Shows (shows above pre [] (m ∷ below) scroll anchor) = inr (
  b'\n',
  after m below,
  at_cursor (above ++ pre ∷ []) [] m below scroll anchor,
  refl,
  move_right-line_end above pre scroll anchor m below,
  rw (← before-line_start above pre) (shows (above ++ pre ∷ []) [] m below scroll anchor),
)
move_right-Shows (shows above pre [] [] scroll anchor) =
    inl (refl, move_right-at_end above pre scroll anchor)
