-- ===== src/TextInput/State.antt =====
-- `TextInputState` and its plain readers (crates/ui/src/state/text_input/mod.rs).
use poqi.Prelude.{ℕ, ◌+◌, ◌-◌, Option, none, List, [], ◌∷◌, ◌++◌, length, sat_add}
use poqi.TextInput.Utf8.{Line}
use poqi.TextInput.Utils.{Position, count_chars}

pub record TextInputState : Type 0 where
  pub lines : List Line
  pub cursor_row : ℕ
  pub cursor_col : ℕ
  pub scroll_row : ℕ
  pub selection_anchor : Option Position

abbrev pub new : TextInputState
new = record {
  lines = [] ∷ [];
  cursor_row = 0;
  cursor_col = 0;
  scroll_row = 0;
  selection_anchor = none;
}

-- Every line behind the first, each after its line feed.
unfoldable pub join_rest : List Line → Line
join_rest [] = []
join_rest (l ∷ ls) = b'\n' ∷ (l ++ join_rest ls)

-- `lines.join("\n")`
unfoldable pub join_lines : List Line → Line
unfolding join_rest
join_lines [] = []
join_lines (l ∷ ls) = l ++ join_rest ls

unfoldable pub text : TextInputState → Line
unfolding join_lines
text s = join_lines s.lines

sum_chars : List Line → ℕ
sum_chars [] = 0
sum_chars (l ∷ ls) = count_chars l + sum_chars ls

unfoldable char_count : TextInputState → ℕ
unfolding sum_chars count_chars
char_count s = sat_add (sum_chars s.lines) (length s.lines - 1)
