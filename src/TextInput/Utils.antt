-- ===== src/TextInput/Utils.antt =====
-- Character boundaries, positions and indentation (crates/ui/src/state/text_input/utils.rs).
use poqi.Prelude.{
  ℕ, suc, ◌+◌, ◌-◌, min, ◌&&◌, ◌||◌, Option, none, some, List, [], ◌∷◌, ltb, leb, ◌==◌,
  if◌then◌else◌, ◌>>=◌, take, drop, length, ℤ, pos, negsuc, sat_add,
}
use poqi.TextInput.Utf8.{Line, len_utf8, byte_len, split_at}

-- A row and a byte column.
abbrev pub Position : Type 0
Position = ℕ × ℕ

-- `INDENT`, four spaces, and `INDENT_WIDTH`.
abbrev pub indent : Line
indent = b' ' ∷ b' ' ∷ b' ' ∷ b' ' ∷ []

abbrev pub indent_width : ℕ
indent_width = byte_len indent

abbrev shift : ℕ → Option ℕ → Option ℕ
shift n none = none
shift n (some i) = some (n + i)

-- `char_indices().next_back()`: where the last character starts.
unfoldable pub last_char_index : Line → Option ℕ
last_char_index [] = none
last_char_index (c ∷ []) = some 0
last_char_index (c ∷ d ∷ cs) = shift (len_utf8 c) (last_char_index (d ∷ cs))

unfoldable pub prev_char_boundary : Line → ℕ → Option (Option ℕ)
prev_char_boundary line idx =
    if (idx == 0) || ltb (byte_len line) idx
    then some none
    else do (before, _) ← split_at line idx; some (last_char_index before)

abbrev next_of : Line → ℕ → Line → ℕ
next_of line idx [] = byte_len line
next_of line idx (ch ∷ _) = idx + len_utf8 ch

unfoldable pub next_char_boundary : Line → ℕ → Option ℕ
next_char_boundary line idx =
    if leb (byte_len line) idx
    then some (byte_len line)
    else do (_, rest) ← split_at line idx; some (next_of line idx rest)

unfoldable pub normalize_positions : Position → Position → Position × Position
normalize_positions (a0, a1) (b0, b1) =
    if ltb a0 b0 || ((a0 == b0) && leb a1 b1) then ((a0, a1), (b0, b1)) else ((b0, b1), (a0, a1))

-- `take_while(|ch| *ch == ' ').count()`
unfoldable pub leading_spaces : Line → ℕ
leading_spaces [] = 0
leading_spaces (c ∷ cs) = let rest = leading_spaces cs in if c == b' ' then suc rest else 0

-- The shortened line and the number of bytes removed.
unfoldable pub remove_line_indent : Line → Option (Line × ℕ)
remove_line_indent line =
    let to_remove = min (leading_spaces line) indent_width in
    do (_, rest) ← split_at line to_remove; some (rest, to_remove)

abbrev apply_delta : ℕ → ℤ → ℕ
apply_delta col (pos n) = sat_add col n
apply_delta col (negsuc n) = col - min (suc n) col

unfoldable pub apply_deltas : Position → List (ℕ × ℤ) → Position
apply_deltas p [] = p
apply_deltas (r, c) ((row, delta) ∷ deltas) =
    apply_deltas (r, if row == r then apply_delta c delta else c) deltas

unfoldable pub count_chars : Line → ℕ
count_chars value = length value

unfoldable take_chars : Line → ℕ → ℕ → Line
take_chars value start len = take len (drop start value)
