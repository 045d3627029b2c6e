-- ===== src/Context/Before.antt =====
-- The word at the cursor, the text before it, and whether that ends with a value
-- (crates/search/completion/src/analyzer/token.rs, identifiers.rs and context.rs). Slicing a text
-- inside a character panics, which is `none`.
use poqi.Prelude.{
  ℕ, zero, suc, Bool, true, false, ◌&&◌, ◌||◌, Option, none, some, [], ◌∷◌, ◌==◌, leb, min, length,
  if◌then◌else◌, is_whitespace,
}
use poqi.TextInput.Utf8.{Line, byte_len, split_at}
use poqi.QueryScope.Lexer.{CharTables}
use poqi.Scanner.Machine.{is_identifier_char, identifier_run}

abbrev pub reverse_onto : Line → Line → Line
reverse_onto [] acc = acc
reverse_onto (c ∷ cs) acc = reverse_onto cs (c ∷ acc)

abbrev pub backwards : Line → Line
backwards cs = reverse_onto cs []

abbrev first_half : Option (Line × Line) → Line
first_half none = []
first_half (some (a, b)) = a

-- `buffer.get(..limit).unwrap_or("")`
unfoldable pub text_before : Line → ℕ → Line
unfolding split_at
text_before buffer limit = first_half (split_at buffer limit)

abbrev pub first_char : Line → Option ℕ
first_char [] = none
first_char (c ∷ cs) = some c

unfoldable pub first_visible : Line → Option ℕ
unfolding is_whitespace
first_visible [] = none
first_visible (c ∷ cs) = let rest = first_visible cs in if is_whitespace c then rest else some c

unfoldable pub previous_non_whitespace : Line → ℕ → Option ℕ
unfolding text_before first_visible
previous_non_whitespace buffer limit = first_visible (backwards (text_before buffer limit))

unfoldable pub trailing_literal_punctuation : ℕ → Bool
trailing_literal_punctuation ch =
    (ch == b':')
    || ((ch == b',')
        || ((ch == b'-') || ((ch == b'+') || ((ch == b'*') || ((ch == b'/') || (ch == b'%'))))))

abbrev pub is_operator : ℕ → Bool
is_operator ch =
    (ch == b'=')
    || ((ch == b'<')
        || ((ch == b'>')
            || ((ch == b'!')
                || ((ch == b'+')
                    || ((ch == b'-') || ((ch == b'*') || ((ch == b'/') || (ch == b'%'))))))))

abbrev pub is_digit : ℕ → Bool
is_digit c = leb b'0' c && leb c b'9'

-- Backwards through the text: inside a string or not, and whether a part of a value was seen.
unfoldable pub literal_behind : Bool → Bool → Line → Bool
unfolding is_whitespace
literal_behind in_string saw [] = false
literal_behind true saw (c ∷ []) = false
literal_behind true saw (c ∷ d ∷ cs) =
    let doubled = literal_behind true saw cs in
    let closed = literal_behind false saw (d ∷ cs) in
    let more = literal_behind true saw (d ∷ cs) in
    if c == b'\'' then if d == b'\'' then doubled else closed else more
literal_behind false saw (c ∷ cs) =
    let blank = literal_behind false saw cs in
    let string = literal_behind true true cs in
    let digit = literal_behind false true cs in
    if is_whitespace c
    then blank
    else if c == b'\''
    then string
    else if is_digit c || ((c == b'.') && saw)
    then digit
    else if saw
    then is_operator c
    else false

unfoldable pub literal_after_operator : Line → ℕ → Bool
unfolding text_before literal_behind
literal_after_operator buffer limit =
    literal_behind false false (backwards (text_before buffer limit))

pub record TokenWindow : Type 0 where
  pub current : Line
  pub prev_char : Option ℕ
  pub start_offset : ℕ

-- Behind an opening quote: the text with its closing one.
abbrev pub quoted_text : Line → Line
quoted_text [] = []
quoted_text (a ∷ []) = a ∷ []
quoted_text (a ∷ b ∷ cs) =
    let doubled = a ∷ b ∷ quoted_text cs in
    let more = a ∷ quoted_text (b ∷ cs) in
    if a == b'"' then if b == b'"' then doubled else a ∷ [] else more

-- The part of a text, read backwards, that is on its last line.
abbrev pub last_line : Line → Line
last_line [] = []
last_line (c ∷ cs) = let rest = c ∷ last_line cs in if c == 10 then [] else rest

module _ (u : CharTables) where
  abbrev pub window : Line × Line → TokenWindow
  window (run, rest) = record {
    current = backwards run;
    prev_char = first_char rest;
    start_offset = byte_len rest;
  }

  unfoldable pub window_of : Option (Line × Line) → Option TokenWindow
  unfolding identifier_run
  window_of none = none
  window_of (some (line_before, after)) = some (window (identifier_run u (backwards line_before)))

  unfoldable pub current_token : Line → ℕ → Option TokenWindow
  unfolding split_at window_of
  current_token [] cursor = some (record { current = []; prev_char = none; start_offset = 0 })
  current_token (c ∷ cs) cursor = window_of (split_at (c ∷ cs) (min cursor (byte_len (c ∷ cs))))

  -- The identifier that ends with the text; so many characters of it were already read.
  unfoldable pub identifier_ending : ℕ → Option Line → Line → Option Line
  unfolding identifier_run
  identifier_ending read found [] = found
  identifier_ending (suc read) found (c ∷ cs) = identifier_ending read found cs
  identifier_ending zero found (c ∷ cs) =
      let quoted = identifier_ending (length (quoted_text cs)) (some (c ∷ quoted_text cs)) cs in
      let run = (identifier_run u cs).0 in
      let plain = identifier_ending (length run) (some (c ∷ run)) cs in
      let sign = identifier_ending zero none cs in
      if c == b'"' then quoted else if is_identifier_char u c then plain else sign

  -- What stands before the word at the cursor, backwards.
  unfoldable pub before_dot : Line → Option Line
  unfolding identifier_ending
  before_dot [] = none
  before_dot (c ∷ cs) =
      if c == b'.' then identifier_ending zero none (backwards (last_line cs)) else none

  unfoldable pub before_dot_of : Option (Line × Line) → Option Line
  unfolding before_dot
  before_dot_of none = none
  before_dot_of (some (before_cursor, after)) =
      before_dot (identifier_run u (backwards before_cursor)).1

  unfoldable pub extract_identifier_before_dot : Line → ℕ → Option Line
  unfolding before_dot_of split_at
  extract_identifier_before_dot buffer cursor =
      before_dot_of (split_at buffer (min cursor (byte_len buffer)))
