-- ===== src/TextInput/Indent.antt =====
-- Indentation of the selected rows, or of the cursor's row
-- (crates/ui/src/state/text_input/editing.rs).
use poqi.Prelude.{
  ℕ, zero, suc, ◌+◌, ◌-◌, min, Option, none, some, List, [], ◌∷◌, ◌++◌, ltb, ◌==◌, if◌then◌else◌,
  ◌>>=◌, get_elem?, set, ℤ, pos, negsuc,
}
use poqi.TextInput.Utf8.{Line}
use poqi.TextInput.Utils.{indent, indent_width, remove_line_indent}
use poqi.TextInput.State.{TextInputState}
use poqi.TextInput.Cursor.{ensure_line_index}
use poqi.TextInput.Selection.{
  SelectionRange, selection_range, selection_line_bounds, adjust_selection_positions,
}
use poqi.TextInput.Editing.{insert_text}

-- The deltas that a loop has collected, and the lines as it left them.
abbrev Indented : Type 0
Indented = List Line × List (ℕ × ℤ)

-- `insert_str(0, INDENT)` on `count` rows from `row` on; an absent row is passed over.
indent_rows : ℕ → ℕ → Indented → Indented
indent_rows zero row acc = acc
indent_rows (suc count) row (ls, deltas) = indent_rows count (row + 1) (elim (get_elem? ls row) [
  | none ↦ (ls, deltas)
  | some line ↦ (set ls row (indent ++ line), deltas ++ (row, pos indent_width) ∷ [])
])

abbrev adjust : Indented → TextInputState → TextInputState
adjust (ls, []) s = record s { lines = ls }
adjust (ls, d ∷ ds) s = adjust_selection_positions (d ∷ ds) (record s { lines = ls })

unfoldable indent_selection : SelectionRange → TextInputState → TextInputState
unfolding indent_rows
indent_selection range s =
    let (start_row, end_row) = selection_line_bounds s range in
    adjust (indent_rows (end_row + 1 - start_row) start_row (s.lines, [])) s

-- `-removed_delta` of a positive number of bytes.
abbrev negated : ℕ → ℤ
negated zero = pos 0
negated (suc n) = negsuc n

outdent_row : ℕ → Line → Indented → Option Indented
outdent_row row line (ls, deltas) = do
  (rest, removed) ← remove_line_indent line
  some (set ls row rest, if ltb 0 removed then deltas ++ (row, negated removed) ∷ [] else deltas)

outdent_rows : ℕ → ℕ → Indented → Option Indented
outdent_rows zero row acc = some acc
outdent_rows (suc count) row acc = do
  acc' ← elim (get_elem? acc.0 row) [ none ↦ some acc | some line ↦ outdent_row row line acc ]
  outdent_rows count (row + 1) acc'

unfoldable outdent_selection : SelectionRange → TextInputState → Option TextInputState
unfolding outdent_rows outdent_row
outdent_selection range s =
    let (start_row, end_row) = selection_line_bounds s range in
    do acc ← outdent_rows (end_row + 1 - start_row) start_row (s.lines, []); some (adjust acc s)

unfoldable outdent_current_line : TextInputState → Option TextInputState
outdent_current_line s =
    let t = ensure_line_index s.cursor_row s in
    elim (get_elem? t.lines t.cursor_row) [
      | none ↦ some t
      | some line ↦ do
        (rest, removed) ← remove_line_indent line
        some (record t {
          lines = set t.lines t.cursor_row rest;
          cursor_col =
              if removed == 0 then t.cursor_col else t.cursor_col - min removed t.cursor_col;
        })
    ]

unfoldable insert_tab : TextInputState → Option TextInputState
unfolding indent_selection
insert_tab s = elim (selection_range s) [
  | none ↦ insert_text indent s
  | some range ↦ some (indent_selection range s)
]

unfoldable outdent : TextInputState → Option TextInputState
unfolding outdent_selection outdent_current_line
outdent s = elim (selection_range s) [
  | none ↦ outdent_current_line s
  | some range ↦ outdent_selection range s
]
