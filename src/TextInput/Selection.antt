-- ===== src/TextInput/Selection.antt =====
-- The selection, and the removal of its text (crates/ui/src/state/text_input/selection.rs).
use poqi.Prelude.{
  ℕ, ◌+◌, ◌-◌, min, Bool, true, false, ◌&&◌, Option, none, some, List, [], ◌∷◌, ◌++◌, ltb, ◌==◌,
  if◌then◌else◌, ◌>>=◌, length, get_elem?, set, take, drop, ℤ,
}
use poqi.TextInput.Utf8.{Line, byte_len, split_at}
use poqi.TextInput.Utils.{Position, normalize_positions, apply_deltas}
use poqi.TextInput.State.{TextInputState, join_lines}
use poqi.TextInput.Cursor.{cursor_position, set_cursor}

pub record SelectionRange : Type 0 where
  pub start : Position
  pub end : Position

unfoldable clear_selection : TextInputState → TextInputState
clear_selection s = record s { selection_anchor = none }

-- `prepare_selection` of mod.rs.
unfoldable prepare_selection : Bool → TextInputState → TextInputState
unfolding clear_selection
prepare_selection true s = elim s.selection_anchor [
  | none ↦ record s { selection_anchor = some (cursor_position s) }
  | some _ ↦ s
]
prepare_selection false s = clear_selection s

abbrev same_position : Position → Position → Bool
same_position (a0, a1) (b0, b1) = (a0 == b0) && (a1 == b1)

abbrev pub range_of : Position × Position → SelectionRange
range_of (a, b) = record { start = a; end = b }

unfoldable pub range_between : Position → Position → Option SelectionRange
range_between anchor head =
    if same_position anchor head then none else some (range_of (normalize_positions anchor head))

unfoldable pub selection_range : TextInputState → Option SelectionRange
unfolding range_between
selection_range s = do anchor ← s.selection_anchor; range_between anchor (cursor_position s)

-- `&line[..n]` and `&line[n..]` with `n` cut to the length of the line.
unfoldable pub slice_to : Line → ℕ → Option Line
slice_to line n = do (a, _) ← split_at line (min n (byte_len line)); some a

unfoldable pub slice_from : Line → ℕ → Option Line
slice_from line n = do (_, b) ← split_at line (min n (byte_len line)); some b

-- `&line[m..n]` with both cut to the length of the line.
unfoldable pub slice_between : Line → ℕ → ℕ → Option Line
unfolding slice_to
slice_between line m n = do
  front ← slice_to line n
  (_, b) ← split_at front (min m (byte_len line))
  some b

-- A `lines.get(row)` that is absent gives the default, `some` of a line may panic in `f`.
abbrev pub get_then : List Line → ℕ → (Line → Option Line) → Option Line
get_then ls row f = elim (get_elem? ls row) [ none ↦ some [] | some line ↦ f line ]

-- The pieces that `collect_range_text` pushes for one row, none if the row is absent.
abbrev pub piece : List Line → ℕ → (Line → Option Line) → Option (List Line)
piece ls row f = elim (get_elem? ls row) [
  | none ↦ some []
  | some line ↦ do p ← f line; some (p ∷ [])
]

unfoldable pub collect_range_text : List Line → Position → Position → Option Line
unfolding slice_to slice_from slice_between
collect_range_text ls (r0, c0) (r1, c1) =
    if r0 == r1 then get_then ls r0 (λ line. slice_between line c0 c1) else do
      first ← piece ls r0 (λ line. slice_from line c0)
      last ← piece ls r1 (λ line. slice_to line c1)
      some (join_lines (first ++ (take (r1 - (r0 + 1)) (drop (r0 + 1) ls) ++ last)))

unfoldable pub selected_text : TextInputState → Option (Option Line)
selected_text s = elim (selection_range s) [
  | none ↦ some none
  | some range ↦ do t ← collect_range_text s.lines range.start range.end; some (some t)
]

-- `line.drain(begin..finish)`
unfoldable pub drain : Line → ℕ → ℕ → Option Line
drain line begin finish = do
  (front, tail) ← split_at line finish
  (kept, _) ← split_at front begin
  some (kept ++ tail)

unfoldable pub drain_line : Line → ℕ → ℕ → Option Line
unfolding drain
drain_line line c0 c1 =
    let begin = min c0 (byte_len line) in
    let finish = min c1 (byte_len line) in
    if ltb begin finish then drain line begin finish else some line

-- `line.truncate(..)` and `line.push_str(&tail)` on the row of the start, if it is there.
unfoldable pub merge_tail : List Line → ℕ → ℕ → Line → Option (List Line)
unfolding slice_to
merge_tail ls row col tail = elim (get_elem? ls row) [
  | none ↦ some ls
  | some line ↦ do head ← slice_to line col; some (set ls row (head ++ tail))
]

-- `lines.drain((start + 1)..=end)` where `end` is a row.
unfoldable pub drain_rows : List Line → ℕ → ℕ → List Line
drain_rows ls r0 r1 =
    if ltb r0 r1 && ltb r1 (length ls) then take (r0 + 1) ls ++ drop (r1 + 1) ls else ls

abbrev pub keep_one : List Line → List Line
keep_one [] = [] ∷ []
keep_one (l ∷ ls) = l ∷ ls

unfoldable pub remove_range : List Line → Position → Position → Option (List Line)
unfolding slice_from drain_line merge_tail drain_rows
remove_range ls (r0, c0) (r1, c1) =
    if r0 == r1
    then elim (get_elem? ls r0) [
      | none ↦ some ls
      | some line ↦ do line' ← drain_line line c0 c1; some (set ls r0 line')
    ]
    else do
      tail ← get_then ls r1 (λ line. slice_from line c1)
      merged ← merge_tail ls r0 c0 tail
      some (keep_one (drain_rows merged r0 r1))

-- Whether there was a selection, and the state after it is removed.
unfoldable pub collapse_selection : TextInputState → Option (Bool × TextInputState)
collapse_selection s = elim (selection_range s) [
  | none ↦ some (false, s)
  | some range ↦ do
    ls ← remove_range s.lines range.start range.end
    some (
      true,
      record (set_cursor range.start.0 range.start.1 (record s { lines = ls })) {
        selection_anchor = none;
      },
    )
]

unfoldable pub selection_line_bounds : TextInputState → SelectionRange → ℕ × ℕ
selection_line_bounds s range =
    let start = min range.start.0 (length s.lines - 1) in
    let end = min range.end.0 (length s.lines - 1) in
    if ltb end start then (start, start) else (start, end)

unfoldable pub adjust_selection_positions : List (ℕ × ℤ) → TextInputState → TextInputState
adjust_selection_positions deltas s = elim s.selection_anchor [
  | none ↦ s
  | some anchor ↦
      let (r, c) = apply_deltas (s.cursor_row, s.cursor_col) deltas in
      set_cursor r c (record s { selection_anchor = some (apply_deltas anchor deltas) })
]
