-- ===== src/TextInput/Cursor.antt =====
-- Cursor moves and scrolling (crates/ui/src/state/text_input/cursor.rs).
use poqi.Prelude.{
  ℕ, zero, suc, ◌+◌, ◌-◌, min, max, ◌||◌, Option, none, some, List, [], ◌∷◌, ◌++◌, ltb, leb, ◌==◌,
  if◌then◌else◌, ◌>>=◌, length, get_elem?, ℤ, pos, sat_add_isize, max_zero, isize_max,
}
use poqi.TextInput.Utf8.{Line, byte_len}
use poqi.TextInput.Utils.{Position, prev_char_boundary, next_char_boundary}
use poqi.TextInput.State.{TextInputState}

-- The loop of `cursor_offset` from row `row_idx` on.
unfoldable pub offset_from : List Line → ℕ → ℕ → ℕ → ℕ
offset_from [] row_idx row col = 0
offset_from (line ∷ rest) row_idx row col =
    let tail = offset_from rest (row_idx + 1) row col in
    if row_idx == row then min col (byte_len line) else byte_len line + 1 + tail

unfoldable pub cursor_offset : TextInputState → ℕ
unfolding offset_from
cursor_offset s = offset_from s.lines 0 s.cursor_row s.cursor_col

-- `lines.get(row).map_or(0, |line| col.min(line.len()))`
abbrev clamp_col : Option Line → ℕ → ℕ
clamp_col none col = 0
clamp_col (some line) col = min col (byte_len line)

unfoldable pub clamp_position : TextInputState → Position → Position
clamp_position s (row, col) =
    let row' = min row (length s.lines - 1) in (row', clamp_col (get_elem? s.lines row') col)

unfoldable pub cursor_position : TextInputState → Position
unfolding clamp_position
cursor_position s = clamp_position s (s.cursor_row, s.cursor_col)

-- The rounds of a loop that pushes an empty line.
unfoldable pub push_lines : ℕ → List Line → List Line
push_lines zero ls = ls
push_lines (suc n) ls = push_lines n (ls ++ [] ∷ [])

abbrev pub non_empty : List Line → List Line
non_empty [] = [] ∷ []
non_empty (l ∷ ls) = l ∷ ls

-- The loop runs while `row >= lines.len()`.
unfoldable pub ensure_line_index : ℕ → TextInputState → TextInputState
unfolding push_lines
ensure_line_index row s =
    let ls = non_empty s.lines in record s { lines = push_lines (row + 1 - length ls) ls }

unfoldable ensure_line_count : ℕ → TextInputState → TextInputState
unfolding push_lines
ensure_line_count zero s = s
ensure_line_count count s = record s { lines = push_lines (max count 1 - length s.lines) s.lines }

unfoldable pub set_cursor : ℕ → ℕ → TextInputState → TextInputState
unfolding ensure_line_index clamp_position
set_cursor row col s =
    let t = ensure_line_index 0 s in
    let (r, c) = clamp_position t (row, col) in record t { cursor_row = r; cursor_col = c }

-- Both vertical moves: `self.lines[row]` panics out of range.
unfoldable pub move_to_row : ℕ → TextInputState → Option TextInputState
move_to_row row s = do
  line ← get_elem? s.lines row
  some (record s {
    cursor_row = row;
    cursor_col = if ltb (byte_len line) s.cursor_col then byte_len line else s.cursor_col;
  })

unfoldable pub move_up : TextInputState → Option TextInputState
unfolding move_to_row
move_up s = if ltb 0 s.cursor_row then move_to_row (s.cursor_row - 1) s else some s

unfoldable pub move_down : TextInputState → Option TextInputState
unfolding move_to_row
move_down s =
    if ltb (s.cursor_row + 1) (length s.lines) then move_to_row (s.cursor_row + 1) s else some s

-- `if let Some(prev) = … { prev } else { 0 }`
abbrev or_zero : Option ℕ → ℕ
or_zero none = 0
or_zero (some i) = i

unfoldable pub move_left : TextInputState → Option TextInputState
unfolding prev_char_boundary
move_left s =
    if ltb 0 s.cursor_col
    then (do
      line ← get_elem? s.lines s.cursor_row
      prev ← prev_char_boundary line s.cursor_col
      some (record s { cursor_col = or_zero prev }))
    else if ltb 0 s.cursor_row
    then (do
      line ← get_elem? s.lines (s.cursor_row - 1)
      some (record s { cursor_row = s.cursor_row - 1; cursor_col = byte_len line }))
    else some s

move_right_in : Line → TextInputState → Option TextInputState
move_right_in line s =
    if ltb s.cursor_col (byte_len line)
    then (do next ← next_char_boundary line s.cursor_col; some (record s { cursor_col = next }))
    else if ltb (s.cursor_row + 1) (length s.lines)
    then some (record s { cursor_row = s.cursor_row + 1; cursor_col = 0 })
    else some s

unfoldable pub move_right : TextInputState → Option TextInputState
unfolding move_right_in next_char_boundary
move_right s =
    if ltb s.cursor_row (length s.lines)
    then (do line ← get_elem? s.lines s.cursor_row; move_right_in line s)
    else some s

-- `lines.last().map_or(0, String::len)`
abbrev pub last_len : List Line → ℕ
last_len [] = 0
last_len (l ∷ []) = byte_len l
last_len (l ∷ m ∷ ls) = last_len (m ∷ ls)

unfoldable move_to_end : TextInputState → TextInputState
move_to_end s = record s { cursor_row = length s.lines - 1; cursor_col = last_len s.lines }

-- `isize::try_from(n).unwrap_or(default)`
abbrev isize_or : ℕ → ℕ → ℕ
isize_or n default = if leb n isize_max then n else default

unfoldable pub scroll_by : ℤ → ℕ → ℕ → TextInputState → TextInputState
scroll_by delta total_rows view_height s =
    if (total_rows == 0) || (view_height == 0) then record s { scroll_row = 0 } else record s {
      scroll_row =
          min (max_zero (sat_add_isize (pos (isize_or s.scroll_row 0)) delta))
            (isize_or (total_rows - view_height) isize_max);
    }

-- The scroll position before it is clamped to the last full view.
follow_cursor : ℕ → ℕ → ℕ → ℕ
follow_cursor row view scroll =
    if ltb row scroll then row else if leb (scroll + view) row then row + 1 - view else scroll

unfoldable pub ensure_cursor_visible : ℕ → ℕ → ℕ → TextInputState → TextInputState
unfolding follow_cursor
ensure_cursor_visible cursor_visual_row view_height total_rows s =
    if (view_height == 0) || (total_rows == 0) then record s { scroll_row = 0 } else record s {
      scroll_row =
          let moved = follow_cursor cursor_visual_row view_height s.scroll_row in
          if ltb (total_rows - view_height) moved then total_rows - view_height else moved;
    }
