-- ===== src/TextInput/View.antt =====
-- The abstract view of a text input: the text before the cursor and the text behind it.
pub mod Insert
pub mod InsertText
pub mod Last
pub mod Left
pub mod Right
pub mod Select
pub mod Range
pub mod Collapse
pub mod Replace
pub mod Vertical
pub mod Inside
use poqi.Prelude.{
  ℕ, suc, ◌+◌, min, ◌≡◌, refl, sym, ap, ◌∙◌, Option, none, some, List, [], ◌∷◌, ◌++◌, arith,
  append_assoc, append-nil, length, get_elem?, set, get_elem?-append-cons, set-append-cons,
  length-append, ==_refl, ◌==◌, ◌<◌, false,
}
use poqi.TextInput.Utf8.{Line, len_utf8, byte_len, byte_len-append}
use poqi.TextInput.Utils.{Position}
use poqi.TextInput.State.{TextInputState, join_rest, join_lines, text}
use poqi.TextInput.Cursor.{offset_from, cursor_offset}

-- Lines, each with its line feed.
abbrev pub terminated : List Line → Line
terminated [] = []
terminated (l ∷ ls) = l ++ (b'\n' ∷ terminated ls)

abbrev pub before : List Line → Line → Line
before above pre = terminated above ++ pre

abbrev pub after : Line → List Line → Line
after post below = post ++ join_rest below

-- A state whose cursor stands between `pre` and `post`.
abbrev pub at_cursor : List Line → Line → Line → List Line → ℕ → Option Position → TextInputState
at_cursor above pre post below scroll anchor = record {
  lines = above ++ (pre ++ post) ∷ below;
  cursor_row = length above;
  cursor_col = byte_len pre;
  scroll_row = scroll;
  selection_anchor = anchor;
}

-- The cursor of `s` stands on a character boundary of a row that is there, with `left` before it
-- and `right` behind it in the whole text.
pub data Shows : TextInputState → Line → Line → Type 0 where
  shows :
      (above : List Line) (pre post : Line) (below : List Line) (scroll : ℕ)
      (anchor : Option Position)
      → Shows (at_cursor above pre post below scroll anchor) (before above pre) (after post below)

pub join_rest-at :
    (above : List Line) (l : Line) (below : List Line)
    → join_rest (above ++ l ∷ below) ≡ b'\n' ∷ (terminated above ++ (l ++ join_rest below))
unfolding join_rest
join_rest-at [] l below = refl
join_rest-at (a ∷ above) l below = simp (join_rest-at above l below, append_assoc)

pub join_lines-at :
    (above : List Line) (l : Line) (below : List Line)
    → join_lines (above ++ l ∷ below) ≡ terminated above ++ (l ++ join_rest below)
unfolding join_lines
join_lines-at [] l below = refl
join_lines-at (a ∷ above) l below = simp (join_rest-at above l below, append_assoc)

-- The text is what stands before the cursor and what stands behind it.
text-Shows : {s : TextInputState} {left right : Line} → Shows s left right → text s ≡ left ++ right
unfolding text
text-Shows (shows above pre post below scroll anchor) =
    join_lines-at above (pre ++ post) below ∙ simp append_assoc

pub min-byte_len : (pre post : Line) → min (byte_len pre) (byte_len (pre ++ post)) ≡ byte_len pre
min-byte_len pre post = omega (arith, byte_len-append pre post)

len_utf8-feed : len_utf8 b'\n' ≡ 1
unfolding len_utf8
len_utf8-feed = refl

pub ==_lt : (a b : ℕ) → a < b → (a == b) ≡ false
==_lt a b h = ground arith

offset_from-at :
    (above : List Line) (pre post : Line) (below : List Line) (i row : ℕ)
    → row ≡ i + length above
    → offset_from (above ++ (pre ++ post) ∷ below) i row (byte_len pre)
      ≡ byte_len (before above pre)
unfolding offset_from
offset_from-at [] pre post below i row h = ground (arith, min-byte_len pre post)
offset_from-at (a ∷ above) pre post below i row h = rw (==_lt i row (omega arith)) (
    omega (
      arith,
      offset_from-at above pre post below (i + 1) row (omega arith),
      byte_len-append (a ++ (b'\n' ∷ terminated above)) pre,
      byte_len-append a (b'\n' ∷ terminated above),
      byte_len-append (terminated above) pre,
      len_utf8-feed,
    ))

-- `cursor_offset` is the length in bytes of what stands before the cursor.
pub cursor_offset-Shows :
    {s : TextInputState} {left right : Line} → Shows s left right → cursor_offset s ≡ byte_len left
unfolding cursor_offset
cursor_offset-Shows (shows above pre post below scroll anchor) =
    offset_from-at above pre post below 0 (length above) (omega arith)
