-- ===== src/TextInput/Editing.antt =====
-- Edits at the cursor (crates/ui/src/state/text_input/editing.rs).
use poqi.Prelude.{
  ℕ, ◌+◌, ◌-◌, min, Option, none, some, List, [], ◌∷◌, ◌++◌, ltb, leb, if◌then◌else◌, ◌>>=◌, length,
  get_elem?, set, erase_idx,
}
use poqi.TextInput.Utf8.{Line, len_utf8, byte_len, split_at}
use poqi.TextInput.Utils.{prev_char_boundary}
use poqi.TextInput.Lines.{insert_row, split_lines, normalize, str_lines}
use poqi.TextInput.State.{TextInputState, new}
use poqi.TextInput.Cursor.{ensure_line_index, last_len}
use poqi.TextInput.Selection.{collapse_selection, drain}

abbrev lines_of : Line → List Line
lines_of [] = [] ∷ []
lines_of (c ∷ cs) = str_lines (c ∷ cs)

unfoldable set_text : Line → TextInputState → TextInputState
set_text t s =
    let ls = lines_of t in
    record {
      lines = ls;
      cursor_row = length ls - 1;
      cursor_col = last_len ls;
      scroll_row = 0;
      selection_anchor = none;
    }

-- `with_placeholder` of mod.rs.
unfoldable with_placeholder : Line → TextInputState
unfolding set_text
with_placeholder t = set_text t new

-- `line.insert(insert_at, ch)` on the cursor's row, with the cursor behind it.
unfoldable pub put_char : ℕ → TextInputState → Option TextInputState
put_char ch s = do
  line ← get_elem? s.lines s.cursor_row
  (a, b) ← split_at line (min s.cursor_col (byte_len line))
  some (record s {
    lines = set s.lines s.cursor_row (a ++ ch ∷ b);
    cursor_col = min s.cursor_col (byte_len line) + len_utf8 ch;
  })

unfoldable pub insert_char : ℕ → TextInputState → Option TextInputState
unfolding put_char
insert_char ch s = do (_, t) ← collapse_selection s; put_char ch (ensure_line_index t.cursor_row t)

-- The loop over the parts behind the first.
unfoldable pub insert_parts : List Line → TextInputState → Option TextInputState
unfolding insert_row
insert_parts [] s = some s
insert_parts (part ∷ parts) s = do
  ls ← insert_row s.lines (s.cursor_row + 1) part
  line ← get_elem? ls (s.cursor_row + 1)
  insert_parts parts
      (record s { lines = ls; cursor_row = s.cursor_row + 1; cursor_col = byte_len line })

-- `push_str(part)` on the cursor's row, with the cursor at its new end.
unfoldable pub push_first : List Line → TextInputState → Option TextInputState
unfolding insert_parts
push_first [] s = some s
push_first (first ∷ parts) s = do
  line ← get_elem? s.lines s.cursor_row
  insert_parts parts (record s {
    lines = set s.lines s.cursor_row (line ++ first);
    cursor_col = byte_len (line ++ first);
  })

-- The tail goes back behind the last part, and the cursor stays before it.
unfoldable pub push_tail : Line → TextInputState → Option TextInputState
push_tail tail s = do
  line ← get_elem? s.lines s.cursor_row
  some (record s { lines = set s.lines s.cursor_row (line ++ tail); cursor_col = byte_len line })

unfoldable pub put_text : Line → TextInputState → Option TextInputState
unfolding push_first push_tail
put_text t s = do
  line ← get_elem? s.lines s.cursor_row
  (head, tail) ← split_at line (min s.cursor_col (byte_len line))
  u ← push_first (split_lines (normalize t)) (record s { lines = set s.lines s.cursor_row head })
  push_tail tail u

unfoldable pub insert_text : Line → TextInputState → Option TextInputState
unfolding put_text
insert_text [] s = some s
insert_text (c ∷ cs) s = do
  (_, t) ← collapse_selection s
  put_text (c ∷ cs) (ensure_line_index t.cursor_row t)

unfoldable pub split_line : TextInputState → Option TextInputState
unfolding insert_row
split_line s = do
  line ← get_elem? s.lines s.cursor_row
  (head, rest) ← split_at line (min s.cursor_col (byte_len line))
  ls ← insert_row (set s.lines s.cursor_row head) (s.cursor_row + 1) rest
  some (record s { lines = ls; cursor_row = s.cursor_row + 1; cursor_col = 0 })

unfoldable pub newline : TextInputState → Option TextInputState
unfolding split_line
newline s = do
  (_, t) ← collapse_selection s
  if leb (length t.lines) t.cursor_row
      then some (record (ensure_line_index t.cursor_row t) { cursor_col = 0 })
      else split_line t

-- `unwrap_or(0)`
abbrev pub or_zero : Option ℕ → ℕ
or_zero none = 0
or_zero (some i) = i

unfoldable pub delete_in_line : TextInputState → Option TextInputState
delete_in_line s = do
  line ← get_elem? s.lines s.cursor_row
  found ← prev_char_boundary line s.cursor_col
  line' ← drain line (or_zero found) (min s.cursor_col (byte_len line))
  some (record s { lines = set s.lines s.cursor_row line'; cursor_col = or_zero found })

unfoldable pub join_with_previous : TextInputState → Option TextInputState
join_with_previous s = do
  removed ← get_elem? s.lines s.cursor_row
  above ← get_elem? (erase_idx s.lines s.cursor_row) (s.cursor_row - 1)
  some (record s {
    lines = set (erase_idx s.lines s.cursor_row) (s.cursor_row - 1) (above ++ removed);
    cursor_row = s.cursor_row - 1;
    cursor_col = byte_len above;
  })

unfoldable pub delete_back : TextInputState → Option TextInputState
unfolding delete_in_line join_with_previous
delete_back s =
    if leb (length s.lines) s.cursor_row
    then some s
    else if ltb 0 s.cursor_col
    then delete_in_line s
    else if ltb 0 s.cursor_row
    then join_with_previous s
    else some s

unfoldable pub backspace : TextInputState → Option TextInputState
unfolding delete_back
backspace s = do (removed, t) ← collapse_selection s; if removed then some t else delete_back t
