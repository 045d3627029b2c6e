-- ===== src/StartMenu/Field.antt =====
-- `TextInput` of the start menu's form (crates/app/src/bootstrap/start_menu/form.rs). The cursor counts
-- characters, the edits go by byte offsets, and at one inside a character they panic.
use poqi.Prelude.{
  is_whitespace, ℕ, ◌+◌, ◌-◌, min, Bool, true, false, ◌&&◌, [], ◌∷◌, ◌++◌, ◌==◌, if◌then◌else◌,
  length, leb, zero, suc, Option, none, some,
}
use poqi.TextInput.Utf8.{Line, len_utf8, byte_len, split_at}

pub record TextInput : Type 0 where
  pub value : Line
  pub cursor : ℕ

unfoldable pub input_new : Line → TextInput
input_new value = record { value = value; cursor = length value }

-- `char_indices().nth(n)`, with the byte index of the first character.
abbrev pub nth_index : ℕ → ℕ → Line → Option ℕ
nth_index base n [] = none
nth_index base zero (c ∷ cs) = some base
nth_index base (suc n) (c ∷ cs) = nth_index (base + len_utf8 c) n cs

-- `map_or`
abbrev pub or_length : Option ℕ → ℕ → ℕ
or_length none total = total
or_length (some index) total = index

unfoldable pub byte_index : TextInput → ℕ
unfolding len_utf8
byte_index i = or_length (nth_index 0 i.cursor i.value) (byte_len i.value)

unfoldable pub next_byte_index : TextInput → ℕ
unfolding len_utf8
next_byte_index i = or_length (nth_index 0 (i.cursor + 1) i.value) (byte_len i.value)

-- `insert_str`, with the halves of the text at the byte index.
abbrev pub insert_between : Option (Line × Line) → Line → ℕ → Option TextInput
insert_between none text cursor = none
insert_between (some (front, back)) text cursor =
    some (record { value = front ++ text ++ back; cursor = cursor })

-- A panic is `none`.
unfoldable pub insert : Line → TextInput → Option TextInput
unfolding split_at byte_index
insert text i = insert_between (split_at i.value (byte_index i)) text (i.cursor + length text)

abbrev pub outer_parts : Option (Line × Line) → Option (Line × Line) → Option Line
outer_parts none second = none
outer_parts (some first) none = none
outer_parts (some (front, _)) (some (_, back)) = some (front ++ back)

-- `value.replace_range(start..end, "")`
unfoldable pub remove_range : ℕ → ℕ → Line → Option Line
unfolding split_at
remove_range start end value =
    let parts = outer_parts (split_at value start) (split_at value end) in
    if leb start end then parts else none

abbrev pub with_value : Option Line → ℕ → Option TextInput
with_value none cursor = none
with_value (some value) cursor = some (record { value = value; cursor = cursor })

-- The character behind the cursor removed.
unfoldable pub remove_next : TextInput → Option TextInput
unfolding remove_range byte_index next_byte_index
remove_next i = with_value (remove_range (byte_index i) (next_byte_index i) i.value) i.cursor

unfoldable pub backspace : TextInput → Option TextInput
unfolding remove_next
backspace i =
    if i.cursor == 0
    then some i
    else remove_next (record { value = i.value; cursor = i.cursor - 1 })

unfoldable pub delete : TextInput → Option TextInput
unfolding remove_next
delete i = if i.cursor == length i.value then some i else remove_next i

-- An edit as the menu goes on behind it. A panic would end the program; here it keeps the input.
abbrev pub runs : (TextInput → Option TextInput) → TextInput → TextInput
runs edit i = elim (edit i) [ none ↦ i | some j ↦ j ]

unfoldable pub move_left : TextInput → TextInput
move_left i = record { value = i.value; cursor = i.cursor - 1 }

unfoldable pub move_right : TextInput → TextInput
move_right i = record { value = i.value; cursor = min (i.cursor + 1) (length i.value) }

unfoldable pub clear : TextInput → TextInput
clear i = record { value = []; cursor = 0 }

unfoldable trim_start : Line → Line
unfolding is_whitespace
trim_start [] = []
trim_start (c ∷ cs) = let rest = trim_start cs in if is_whitespace c then rest else c ∷ cs

abbrev pub is_empty : Line → Bool
is_empty [] = true
is_empty (c ∷ cs) = false

unfoldable trim_end : Line → Line
unfolding is_whitespace
trim_end [] = []
trim_end (c ∷ cs) =
    let rest = trim_end cs in if is_whitespace c && is_empty rest then [] else c ∷ rest

-- `str::trim`
unfoldable pub trim : Line → Line
unfolding trim_start trim_end
trim text = trim_end (trim_start text)
