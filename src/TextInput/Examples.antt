-- ===== src/TextInput/Examples.antt =====
-- Runs of the text input at concrete texts.
use poqi.Prelude.{ℕ, ◌<◌, ◌≡◌, refl, none, some, List, [], ◌∷◌, ◌++◌, arith, inl, ◌+◌}
use poqi.TextInput.Utf8.{Line, byte_len, len_utf8}
use poqi.TextInput.State.{TextInputState, join_lines}
use poqi.TextInput.Cursor.{cursor_offset, move_left, move_up}
use poqi.TextInput.Selection.{selection_range, selected_text}
use poqi.TextInput.Editing.{insert_char, backspace}
use poqi.TextInput.View.{before, after, at_cursor, Shows, shows, cursor_offset-Shows}
use poqi.TextInput.View.Last.{TakesLast}
use poqi.TextInput.View.Left.{backspace-Shows}
use poqi.TextInput.View.Select.{Within, Selects, across_rows, selecting}
use poqi.TextInput.View.Replace.{selected_text-Selects}
use poqi.TextInput.View.Vertical.{AllAscii}
use poqi.TextInput.View.Inside.{move_up_panics}

-- Two lines, with the cursor before the last character.
abbrev ab : Line
ab = b'a' ∷ b'b' ∷ []

abbrev here : TextInputState
here = at_cursor (ab ∷ []) (b'c' ∷ []) (b'd' ∷ []) [] 0 none

abbrev here_left : Line
here_left = before (ab ∷ []) (b'c' ∷ [])

abbrev here_right : Line
here_right = after (b'd' ∷ []) []

here-Shows : Shows here here_left here_right
here-Shows = shows (ab ∷ []) (b'c' ∷ []) (b'd' ∷ []) [] 0 none

here-unselected : selection_range here ≡ none
unfolding selection_range
here-unselected = refl

-- `x`, CR LF, `y`
abbrev xy : Line
xy = b'x' ∷ 13 ∷ 10 ∷ b'y' ∷ []

backspace-Shows_example : TakesLast backspace here here_left (λ c. here_right)
backspace-Shows_example = backspace-Shows here-Shows here-unselected

cursor_offset-Shows_example : cursor_offset here ≡ byte_len here_left
cursor_offset-Shows_example = cursor_offset-Shows here-Shows

-- From the second character of the first line to the first one of the second.
abbrev selected : TextInputState
selected = selecting ((b'a' ∷ b'b' ∷ []) ∷ (b'c' ∷ b'd' ∷ []) ∷ []) 0 (0, 1) (1, 1)

abbrev selected_left : Line
selected_left = before [] (b'a' ∷ [])

abbrev selected_middle : Line
selected_middle = join_lines ((b'b' ∷ []) ∷ (b'c' ∷ []) ∷ [])

abbrev selected_right : Line
selected_right = after (b'd' ∷ []) []

selected-Selects : Selects selected selected_left selected_middle selected_right
unfolding len_utf8
selected-Selects =
    across_rows [] (b'a' ∷ []) (b'b' ∷ []) [] (b'c' ∷ []) (b'd' ∷ []) [] 0 (0, 1) (1, 1)
      (inl (refl, refl))

selected_text-Selects_example : selected_text selected ≡ some (some selected_middle)
selected_text-Selects_example = selected_text-Selects selected-Selects

abbrev two_lines : List Line
two_lines = (b'a' ∷ b'b' ∷ []) ∷ (b'c' ∷ b'd' ∷ []) ∷ []

first-Within : Within two_lines (0, 1)
unfolding len_utf8
first-Within = (b'a' ∷ b'b' ∷ [], refl, omega arith)

last-Within : Within two_lines (1, 1)
unfolding len_utf8
last-Within = (b'c' ∷ b'd' ∷ [], refl, omega arith)

here-AllAscii : AllAscii here.lines
here-AllAscii = ((omega arith, (omega arith, tt)), ((omega arith, (omega arith, tt)), tt))

-- `é` above `ab`, with the cursor behind `a`.
abbrev accent_above : TextInputState
accent_above = at_cursor ([] ++ ([] ++ 0xE9 ∷ []) ∷ []) (b'a' ∷ []) (b'b' ∷ []) [] 0 none

accent_before : byte_len [] < byte_len (b'a' ∷ [])
unfolding len_utf8
accent_before = omega arith

accent_behind : byte_len (b'a' ∷ []) < byte_len [] + len_utf8 0xE9
unfolding len_utf8
accent_behind = omega arith

abbrev top_line : TextInputState
top_line = at_cursor [] (b'a' ∷ []) (b'b' ∷ []) ((b'c' ∷ []) ∷ []) 0 none

top_line-AllAscii : AllAscii top_line.lines
top_line-AllAscii = ((omega arith, (omega arith, tt)), ((omega arith, tt), tt))

move_up_panics_example :
    (t : TextInputState) × (move_up accent_above ≡ some t)
    × ((ch : ℕ) → insert_char ch t ≡ none)
    × (move_left t ≡ none)
move_up_panics_example =
    move_up_panics [] [] 0xE9 [] (b'a' ∷ []) (b'b' ∷ []) [] 0 accent_before accent_behind
