-- ===== src/Results/Presentation.antt =====
-- crates/ui/src/state/results_state/presentation.rs. The width of a text on the terminal
-- (`UnicodeWidthStr::width`, of the crate unicode-width) is the parameter `width`.
use poqi.Prelude.{
  ℕ, zero, suc, ◌*◌, min, max, Bool, true, false, Option, none, some, List, [], ◌∷◌, ◌++◌, leb,
  if◌then◌else◌, map, sat_add,
}
use poqi.TextInput.Utf8.{Line, byte_len, split_at}
use poqi.Catalog.Identifier.{display_identifier}

abbrev max_display_column_width : ℕ
max_display_column_width = 256

abbrev max_display_field_bytes : ℕ
max_display_field_bytes = 4 * 1024

abbrev half_or : Option (Line × Line) → Line → Line
half_or none other = other
half_or (some (a, b)) other = a

-- The text up to the last character boundary that is not behind `end`.
unfoldable prefix_to : ℕ → Line → Line
unfolding split_at
prefix_to zero value = []
prefix_to (suc end) value = half_or (split_at value (suc end)) (prefix_to end value)

-- The prefix, and whether it is cut off.
unfoldable bounded_prefix : Line → Line × Bool
unfolding prefix_to
bounded_prefix value =
    if leb (byte_len value) max_display_field_bytes
    then (value, false)
    else (prefix_to max_display_field_bytes value, true)

unfoldable bounded_identifier_display : Line → Line
unfolding bounded_prefix display_identifier
bounded_identifier_display value =
    let (front, truncated) = bounded_prefix value in
    if truncated then display_identifier front ++ 0x2026 ∷ [] else display_identifier front

module _ (width : Line → ℕ) where
  unfoldable bounded_value_width : Line → ℕ
  unfolding bounded_prefix
  bounded_value_width value =
      let (front, truncated) = bounded_prefix value in
      sat_add (width front) (if truncated then 1 else 0)

  unfoldable pub measured_column_width : Line → ℕ
  unfolding bounded_value_width
  measured_column_width value = min (sat_add (bounded_value_width value) 2) max_display_column_width

  -- The columns of one row, as far as there are widths.
  unfoldable pub widen : List ℕ → List Line → List ℕ
  unfolding measured_column_width
  widen [] row = []
  widen (w ∷ ws) [] = w ∷ ws
  widen (w ∷ ws) (v ∷ row) = max w (measured_column_width v) ∷ widen ws row

  unfoldable pub widen_rows : List ℕ → List (List Line) → List ℕ
  unfolding widen
  widen_rows ws [] = ws
  widen_rows ws (row ∷ rows) = widen_rows (widen ws row) rows

  unfoldable pub build_presentation_cache : List Line → List (List Line) → List Line × List ℕ
  unfolding bounded_identifier_display measured_column_width widen_rows
  build_presentation_cache headers rows =
      let shown = map bounded_identifier_display headers in
      (shown, widen_rows (map measured_column_width shown) rows)
