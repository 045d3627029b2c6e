-- ===== src/Results/Valid/Steps.antt =====
-- Whatever is done with the results grid, in whatever order, it stays valid.
use poqi.Prelude.{ℕ, refl, Bool, false, Option, none, some, List, [], ◌∷◌, ℤ}
use poqi.TextInput.Utf8.{Line}
use poqi.Results.Data.{RowIdentity, ResultMetadata}
use poqi.Results.Grid.{ResultsState, results_new, set_data, set_scroll_row, set_scroll_col}
use poqi.Results.Selection.{
  set_focus, move_vertical, move_horizontal, jump_row_start, jump_row_end, jump_col_start,
  jump_col_end,
}
use poqi.Results.Scroll.{
  set_manual_scroll_row, set_manual_scroll_col, sync_scrollbar_thumb, sync_horizontal_scrollbar,
  ensure_focus_visible, ensure_focus_col_visible,
}
use poqi.Results.Editing.{
  begin_edit, on_session, session_insert_char, session_backspace, set_null, set_edit_value_null,
  cancel_edit, finish_edit,
}
use poqi.Results.Mutation.{
  remove_row, apply_cell_update, update_row_identity, arm_pending_delete, clear_pending_delete,
  hydrate_row,
}
use poqi.Results.Valid.{IsValid, results_new-IsValid}
use poqi.Results.Valid.Focus.{
  set_focus-IsValid, move_vertical-IsValid, move_horizontal-IsValid, jump_row_end-IsValid,
  jump_col_end-IsValid,
}
use poqi.Results.Valid.View.{
  set_scroll_row-IsValid, set_scroll_col-IsValid, manual_row-IsValid, manual_col-IsValid,
  thumb-IsValid, bar-IsValid, ensure_focus_visible-IsValid, ensure_focus_col_visible-IsValid,
  with_view-IsValid,
}
use poqi.Results.Valid.Sessions.{
  begin_edit-IsValid, on_session-IsValid, finish_edit-IsValid, no_session-IsValid,
}
use poqi.Results.Valid.Data.{set_data-IsValid, remove_row-IsValid}
use poqi.Results.Valid.Write.{
  update_row_identity-IsValid, apply_cell_update-IsValid, hydrate_row-IsValid,
}

-- Everything that changes the grid.
pub data Change : Type 0 where
  load : List Line → List (List Line) → ResultMetadata → Change
  focus : ℕ → ℕ → Bool → Change
  vertical horizontal : ℤ → Bool → Change
  row_start row_end col_start col_end : Change
  scroll_row scroll_col manual_row manual_col thumb bar rows_shown : ℕ → Change
  cols_shown : ℕ → ℕ → List ℕ → Change
  begin cancel finish erase null arm disarm : Change
  type_char remove : ℕ → Change
  write : ℕ → ℕ → Option Line → Change
  identify : ℕ → RowIdentity → Change
  hydrate : List Line → List Line → List Bool → ℕ → Option RowIdentity → Change

module _ (width : Line → ℕ) where
  unfoldable pub apply : Change → ResultsState → ResultsState
  apply (load headers rows m) s = set_data width headers rows m s
  apply (focus row col extend) s = set_focus row col extend s
  apply (vertical d extend) s = move_vertical d extend s
  apply (horizontal d extend) s = move_horizontal d extend s
  apply row_start s = jump_row_start s
  apply row_end s = jump_row_end s
  apply col_start s = jump_col_start s
  apply col_end s = jump_col_end s
  apply (scroll_row n) s = set_scroll_row n s
  apply (scroll_col n) s = set_scroll_col n s
  apply (manual_row n) s = set_manual_scroll_row n s
  apply (manual_col n) s = set_manual_scroll_col n s
  apply (thumb n) s = sync_scrollbar_thumb n s
  apply (bar n) s = sync_horizontal_scrollbar n s
  apply (rows_shown n) s = ensure_focus_visible n s
  apply (cols_shown m sep ws) s = ensure_focus_col_visible m sep ws s
  apply begin s = (begin_edit s).0
  apply (type_char c) s = on_session (λ e. session_insert_char c e) s
  apply erase s = on_session (λ e. session_backspace e) s
  apply null s = (set_edit_value_null s).0
  apply cancel s = cancel_edit s
  apply finish s = (finish_edit s).0
  apply arm s = arm_pending_delete s
  apply disarm s = clear_pending_delete s
  apply (remove row) s = remove_row row s
  apply (write row col v) s = apply_cell_update width row col v s
  apply (identify row i) s = update_row_identity row i s
  apply (hydrate columns values nulls row i) s = hydrate_row width columns values nulls row i s

  abbrev pub apply_all : List Change → ResultsState → ResultsState
  apply_all [] s = s
  apply_all (c ∷ cs) s = apply_all cs (apply c s)

  apply-IsValid : (c : Change) (s : ResultsState) → IsValid s → IsValid (apply c s)
  unfolding apply jump_row_start jump_col_start session_insert_char session_backspace set_null
      set_edit_value_null cancel_edit arm_pending_delete clear_pending_delete
  apply-IsValid (load headers rows m) s v = set_data-IsValid width headers rows m s
  apply-IsValid (focus row col extend) s v = set_focus-IsValid row col extend s v
  apply-IsValid (vertical d extend) s v = move_vertical-IsValid d extend s v
  apply-IsValid (horizontal d extend) s v = move_horizontal-IsValid d extend s v
  apply-IsValid row_start s v = set_focus-IsValid 0 s.focus_cell.1 false s v
  apply-IsValid row_end s v = jump_row_end-IsValid s v
  apply-IsValid col_start s v = set_focus-IsValid s.focus_cell.0 0 false s v
  apply-IsValid col_end s v = jump_col_end-IsValid s v
  apply-IsValid (scroll_row n) s v = set_scroll_row-IsValid n s v
  apply-IsValid (scroll_col n) s v = set_scroll_col-IsValid n s v
  apply-IsValid (manual_row n) s v = manual_row-IsValid n s v
  apply-IsValid (manual_col n) s v = manual_col-IsValid n s v
  apply-IsValid (thumb n) s v = thumb-IsValid n s v
  apply-IsValid (bar n) s v = bar-IsValid n s v
  apply-IsValid (rows_shown n) s v = ensure_focus_visible-IsValid n s v
  apply-IsValid (cols_shown m sep ws) s v = ensure_focus_col_visible-IsValid m sep ws s v
  apply-IsValid begin s v = begin_edit-IsValid s v
  apply-IsValid (type_char c) s v =
      on_session-IsValid (λ e. session_insert_char c e) s (λ e. (refl, refl)) v
  apply-IsValid erase s v = on_session-IsValid (λ e. session_backspace e) s (λ e. (refl, refl)) v
  apply-IsValid null s v = on_session-IsValid set_null s (λ e. (refl, refl)) v
  apply-IsValid cancel s v = no_session-IsValid s v
  apply-IsValid finish s v = finish_edit-IsValid s v
  apply-IsValid arm s v =
      with_view-IsValid s.scroll_row s.scroll_col _ _ _ _ (some s.focus_cell.0) s v.left v
  apply-IsValid disarm s v = with_view-IsValid s.scroll_row s.scroll_col _ _ _ _ none s v.left v
  apply-IsValid (remove row) s v = remove_row-IsValid row s v
  apply-IsValid (write row col x) s v = apply_cell_update-IsValid width row col x s v
  apply-IsValid (identify row i) s v = update_row_identity-IsValid row i s v
  apply-IsValid (hydrate columns values nulls row i) s v =
      hydrate_row-IsValid width columns values nulls row i s v

  apply_all-IsValid_from :
      (cs : List Change) (s : ResultsState) → IsValid s → IsValid (apply_all cs s)
  apply_all-IsValid_from [] s v = v
  apply_all-IsValid_from (c ∷ cs) s v = apply_all-IsValid_from cs (apply c s) (apply-IsValid c s v)

  -- After any changes of a new grid the tables of its columns and rows have the grid's size,
  -- the focus, the selection and the scroll column lie within it, and an edit session stands
  -- at the focus, in a cell that exists.
  pub apply_all-IsValid : (cs : List Change) → IsValid (apply_all cs results_new)
  apply_all-IsValid cs = apply_all-IsValid_from cs results_new results_new-IsValid
