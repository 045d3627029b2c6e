-- ===== src/Results/Valid/View.antt =====
-- Scrolling keeps the results grid valid.
use poqi.Prelude.{
  ℕ, ◌-◌, ◌≤◌, Bool, true, false, ◌||◌, Option, List, ◌==◌, arith, length, if◌then◌else◌, min,
}
use poqi.Results.Grid.{
  Scrollbar, ResultsState, is_empty, set_scroll_row, set_scroll_col, max_horizontal_scroll,
}
use poqi.Results.Scroll.{
  set_manual_scroll_row, set_manual_scroll_col, sync_scrollbar_thumb, sync_horizontal_scrollbar,
  ensure_focus_visible, ensure_focus_col_visible,
}
use poqi.Results.Valid.{IsValid}

min_le : (a b c : ℕ) → a ≤ c → min a b ≤ c
min_le a b c h = omega arith

pub either-IsValid :
    (b : Bool) (x y : ResultsState) → IsValid x → IsValid y → IsValid (if b then x else y)
either-IsValid true x y h k = h
either-IsValid false x y h k = k

-- Changes of what only concerns the view.
abbrev with_view :
    ℕ → ℕ → Scrollbar → Scrollbar → Bool → Bool → Option ℕ → ResultsState → ResultsState
with_view row col bar low_bar free_row free_col pending s = record s {
  scroll_row = row;
  scroll_col = col;
  scrollbar_state = bar;
  horizontal_scrollbar_state = low_bar;
  suspend_focus_row_sync = free_row;
  suspend_focus_col_sync = free_col;
  pending_delete_row = pending;
}

pub with_view-IsValid :
    (row col : ℕ) (bar low_bar : Scrollbar) (free_row free_col : Bool) (pending : Option ℕ)
    (s : ResultsState)
    → col ≤ length s.headers - 1
    → IsValid s
    → IsValid (with_view row col bar low_bar free_row free_col pending s)
with_view-IsValid row col bar low_bar free_row free_col pending s h v = record {
  fits = v.fits;
  focus = v.focus;
  anchor = v.anchor;
  tail = v.tail;
  session = v.session;
  left = h;
}

pub set_scroll_col-IsValid : (n : ℕ) (s : ResultsState) → IsValid s → IsValid (set_scroll_col n s)
unfolding set_scroll_col max_horizontal_scroll
set_scroll_col-IsValid n s v = with_view-IsValid _ _ _ _ _ _ _ s (omega arith) v

pub set_scroll_row-IsValid : (n : ℕ) (s : ResultsState) → IsValid s → IsValid (set_scroll_row n s)
unfolding set_scroll_row
set_scroll_row-IsValid n s v = with_view-IsValid _ _ _ _ _ _ _ s v.left v

pub manual_row-IsValid :
    (n : ℕ) (s : ResultsState) → IsValid s → IsValid (set_manual_scroll_row n s)
unfolding set_manual_scroll_row set_scroll_row
manual_row-IsValid n s v = with_view-IsValid _ _ _ _ _ _ _ s v.left v

pub manual_col-IsValid :
    (n : ℕ) (s : ResultsState) → IsValid s → IsValid (set_manual_scroll_col n s)
unfolding set_manual_scroll_col set_scroll_col max_horizontal_scroll
manual_col-IsValid n s v = with_view-IsValid _ _ _ _ _ _ _ s (omega arith) v

pub thumb-IsValid : (n : ℕ) (s : ResultsState) → IsValid s → IsValid (sync_scrollbar_thumb n s)
unfolding sync_scrollbar_thumb
thumb-IsValid n s v =
    either-IsValid _ _ _ (with_view-IsValid _ _ _ _ _ _ _ s v.left v)
      (with_view-IsValid _ _ _ _ _ _ _ s v.left v)

pub bar-IsValid : (n : ℕ) (s : ResultsState) → IsValid s → IsValid (sync_horizontal_scrollbar n s)
unfolding sync_horizontal_scrollbar
bar-IsValid n s v =
    either-IsValid _ _ _ (with_view-IsValid _ _ _ _ _ _ _ s v.left v)
      (with_view-IsValid _ _ _ _ _ _ _ s (min_le s.scroll_col _ _ v.left) v)

pub ensure_focus_visible-IsValid :
    (n : ℕ) (s : ResultsState) → IsValid s → IsValid (ensure_focus_visible n s)
unfolding ensure_focus_visible
ensure_focus_visible-IsValid n s v =
    either-IsValid (is_empty s.rows || (n == 0)) _ _ (set_scroll_row-IsValid 0 s v) (
      either-IsValid s.suspend_focus_row_sync _ _ (set_scroll_row-IsValid _ s v)
        (set_scroll_row-IsValid _ s v))

pub ensure_focus_col_visible-IsValid :
    (m sep : ℕ) (ws : List ℕ) (s : ResultsState)
    → IsValid s
    → IsValid (ensure_focus_col_visible m sep ws s)
unfolding ensure_focus_col_visible
ensure_focus_col_visible-IsValid m sep ws s v =
    either-IsValid (is_empty ws || (m == 0)) _ _ (set_scroll_col-IsValid 0 s v) (
      either-IsValid s.suspend_focus_col_sync _ _ (set_scroll_col-IsValid _ s v)
        (set_scroll_col-IsValid _ s v))
