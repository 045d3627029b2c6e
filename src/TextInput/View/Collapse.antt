-- ===== src/TextInput/View/Collapse.antt =====
-- The state that the removal of a selection leaves.
use poqi.Prelude.{ℕ, ◌≡◌, refl, ap, ◌∙◌, none, some, List, arith, lt-length_of_get_elem?, true}
use poqi.TextInput.Utf8.{Line}
use poqi.TextInput.Utils.{Position}
use poqi.TextInput.State.{TextInputState}
use poqi.TextInput.Cursor.{clamp_position, set_cursor, ensure_line_index}
use poqi.TextInput.Selection.{range_of, selection_range, remove_range, collapse_selection}
use poqi.TextInput.View.Insert.{ensure_line_index-lt}
use poqi.TextInput.View.Select.{Within, clamp_position-Within}

set_cursor-parts :
    (s : TextInputState) (row col : ℕ)
    → set_cursor row col s ≡ (
        let t = ensure_line_index 0 s in
        record t {
          cursor_row = (clamp_position t (row, col)).0;
          cursor_col = (clamp_position t (row, col)).1;
        })
unfolding set_cursor
set_cursor-parts s row col = refl

-- `set_cursor` to a position within the text goes there.
set_cursor-Within :
    (s : TextInputState) (row col : ℕ)
    → Within s.lines (row, col)
    → set_cursor row col s ≡ record s { cursor_row = row; cursor_col = col }
set_cursor-Within s row col w =
    set_cursor-parts s row col
    ∙ rw (
      ensure_line_index-lt 0 s (omega (arith, lt-length_of_get_elem? s.lines row w.1)),
      clamp_position-Within s (row, col) w,
    )

pub collapse_selection-at :
    (s : TextInputState) (r c : ℕ) (b : Position) (ls : List Line)
    → selection_range s ≡ some (range_of ((r, c), b))
    → remove_range s.lines (r, c) b ≡ some ls
    → Within ls (r, c)
    → collapse_selection s
      ≡ some (
        true,
        record {
          lines = ls;
          cursor_row = r;
          cursor_col = c;
          scroll_row = s.scroll_row;
          selection_anchor = none;
        },
      )
unfolding collapse_selection
collapse_selection-at s r c b ls h e w =
    rw (h, collapse_selection)
      (rw e (
        ap (λ t. some (true, record t { selection_anchor = none }))
          (set_cursor-Within (record s { lines = ls }) r c w)))
