-- ===== src/TextInput/Scroll.antt =====
-- Where scrolling leaves the view (crates/ui/src/state/text_input/cursor.rs).
use poqi.Prelude.{ℕ, ◌+◌, ◌-◌, ◌<◌, ◌≤◌, arith, ℤ}
use poqi.TextInput.State.{TextInputState}
use poqi.TextInput.Cursor.{ensure_cursor_visible, scroll_by}

-- After the view has followed a cursor row that is there, the row is one of the visible rows, and
-- no row of the view is left empty where there are rows enough.
pub ensure_cursor_visible_lem :
    (s : TextInputState) (row view total : ℕ)
    → 0 < view
    → row < total
    → (let top = (ensure_cursor_visible row view total s).scroll_row in
        (top ≤ row) × (row < top + view) × (top ≤ total - view))
unfolding ensure_cursor_visible
ensure_cursor_visible_lem s row view total h k = ground arith

-- Whatever the step, scrolling never passes the last full view.
pub scroll_by-le :
    (delta : ℤ) (total view : ℕ) (s : TextInputState)
    → (scroll_by delta total view s).scroll_row ≤ total - view
unfolding scroll_by
scroll_by-le delta total view s = ground arith
