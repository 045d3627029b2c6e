-- ===== src/StartMenu/Valid/Events.antt =====
-- Keys, pastes, clicks and redraws of the start menu, in any order
-- (crates/app/src/bootstrap/start_menu/input.rs).
use poqi.StartMenu.Menu.{other, backspace_key, back_tab, tab, down, up, delete_key, enter, esc}
use poqi.Prelude.{
  ℕ, ◌≡◌, Bool, true, false, ◌&&◌, not, Option, none, some, List, [], ◌∷◌, ◌==◌, arith,
  if◌then◌else◌,
}
use poqi.TextInput.Utf8.{Line}
use poqi.StartMenu.Form.{
  eq_field, recovered, CreationField, mode_field, ProfileForm, UrlOps, StoredConnectionProfile,
  ProfileSelectionResult, Result, ok, err, submit, active_text, toggle_active,
}
use poqi.StartMenu.Editing.{
  insert_text, erase_before, erase_behind, left, right, home, end, erase_all,
}
use poqi.StartMenu.Menu.{
  clicked_field, is_esc, initial_state, has_text, click_in, recovered_form, key_in, submitted,
  click_field, handle_form_key, submit_form, handle_selection_click, form_key, recover_draft,
  activate_field, form_char, is_press, char, is_quit, UiState, profile_selection, profile_creation,
  test_data_generation, App, ProfileRecovery, app_new, KeyEvent, KeyCode, Answers, Rect, handle_key,
  handle_paste, handle_mouse, FormAction, continue,
}
use poqi.StartMenu.Valid.Rows.{
  IsValid, StateSplit, state-IsValid, pair-IsValid, drawn-IsValid, handle_selection_key-IsValid,
  handle_test_generation_key-IsValid, after_form-IsValid, handle_paste-IsValid, click_row-IsValid,
}
use poqi.StartMenu.Valid.Inputs.{
  AllSplit, edit_text-AllSplit, paste_from_clipboard-AllSplit, error-AllSplit,
  active_field-AllSplit, move_field-AllSplit, from_profile-AllSplit, draft-AllSplit,
  toggle_active-AllSplit, either-AllSplit,
}

-- What happens to the menu; `draw` is the view's record of where it drew.
pub data Event : Type 0 where
  pressed : Answers → KeyEvent → Event
  pasted : Line → Event
  clicked : Bool → ℕ → ℕ → Event
  drawn : List (CreationField × Rect) → Option Rect → ℕ → Bool → Event

abbrev pub DraftIn : Option ProfileForm → Type 0
DraftIn none = Unit {0}
DraftIn (some f) = AllSplit f

-- The draft of a recovery, if there is one, has its cursors in its texts.
abbrev pub DraftSplit : Option ProfileRecovery → Type 0
DraftSplit none = Unit {0}
DraftSplit (some r) = DraftIn r.draft

module _ (ops : UrlOps) (validate : Line → Option Line) where
  submitted-AllSplit :
      (o : Result ProfileSelectionResult) (f : ProfileForm)
      → AllSplit f
      → AllSplit (submitted o f).0
  submitted-AllSplit (ok r) f h = h
  submitted-AllSplit (err e) f h = error-AllSplit e f h

  submit_form-AllSplit :
      (profiles : List StoredConnectionProfile) (f : ProfileForm)
      → AllSplit f
      → AllSplit (submit_form ops validate profiles f).0
  unfolding submit_form
  submit_form-AllSplit profiles f h = submitted-AllSplit (submit ops validate profiles f) f h

  form_char-AllSplit :
      (answers : Answers) (c : ℕ) (control : Bool) (f : ProfileForm)
      → AllSplit f
      → AllSplit (form_char ops validate answers c control f)
  form_char-AllSplit answers c control f h =
      either-AllSplit ((c == b' ') && not (has_text (active_text f))) _ _
        (toggle_active-AllSplit ops f h)
        (either-AllSplit ((c == b'a') && control) _ _ (edit_text-AllSplit erase_all f h) (
          either-AllSplit ((c == b'v') && control) _ _
            (paste_from_clipboard-AllSplit answers.clipboard f h)
            (either-AllSplit control _ _ h (edit_text-AllSplit (insert_text (c ∷ [])) f h))))

  enter-AllSplit :
      (b : Bool) (x y : ProfileForm × FormAction)
      → AllSplit x.0
      → AllSplit y.0
      → AllSplit (if b then x else y).0
  enter-AllSplit true x y h k = h
  enter-AllSplit false x y h k = k

  form_key-AllSplit :
      (answers : Answers) (code : KeyCode) (shift control : Bool)
      (profiles : List StoredConnectionProfile) (f : ProfileForm)
      → AllSplit f
      → AllSplit (form_key ops validate answers code shift control profiles f).0
  form_key-AllSplit answers esc shift control profiles f h = h
  form_key-AllSplit answers tab shift control profiles f h = move_field-AllSplit shift f h
  form_key-AllSplit answers back_tab shift control profiles f h = move_field-AllSplit true f h
  form_key-AllSplit answers up shift control profiles f h = move_field-AllSplit true f h
  form_key-AllSplit answers down shift control profiles f h = move_field-AllSplit false f h
  form_key-AllSplit answers enter shift control profiles f h =
      enter-AllSplit (eq_field f.active_field mode_field) (toggle_active ops f, continue)
        (submit_form ops validate profiles f) (toggle_active-AllSplit ops f h)
        (submit_form-AllSplit profiles f h)
  form_key-AllSplit answers KeyCode.home shift control profiles f h = edit_text-AllSplit home f h
  form_key-AllSplit answers KeyCode.end shift control profiles f h = edit_text-AllSplit end f h
  form_key-AllSplit answers KeyCode.left shift control profiles f h = edit_text-AllSplit left f h
  form_key-AllSplit answers KeyCode.right shift control profiles f h = edit_text-AllSplit right f h
  form_key-AllSplit answers backspace_key shift control profiles f h =
      edit_text-AllSplit erase_before f h
  form_key-AllSplit answers delete_key shift control profiles f h =
      edit_text-AllSplit erase_behind f h
  form_key-AllSplit answers (char c) shift control profiles f h =
      form_char-AllSplit answers c control f h
  form_key-AllSplit answers other shift control profiles f h = h

  handled-AllSplit :
      (quits : Bool) (done out : ProfileForm × FormAction)
      → AllSplit done.0
      → (if quits then none else some done) ≡ some out
      → AllSplit out.0
  handled-AllSplit true done out e h = absurd (cc)
  handled-AllSplit false done out e h = let same : done ≡ out = cc in rw (← same) e

  handle_form_key-AllSplit :
      (answers : Answers) (key : KeyEvent) (profiles : List StoredConnectionProfile)
      (f : ProfileForm) (out : ProfileForm × FormAction)
      → AllSplit f
      → handle_form_key ops validate answers key profiles f ≡ some out
      → AllSplit out.0
  unfolding handle_form_key
  handle_form_key-AllSplit answers key profiles f out h e =
      handled-AllSplit (is_quit key) _ out
        (form_key-AllSplit answers key.code key.shift key.control profiles f h) e

  key_in-IsValid :
      (s : UiState) (answers : Answers) (key : KeyEvent) (a : App)
      → IsValid a
      → StateSplit s
      → IsValid (key_in ops validate s answers key a).0
  key_in-IsValid profile_selection answers key a v h = handle_selection_key-IsValid a v answers key
  key_in-IsValid (profile_creation f) answers key a v h =
      pair-IsValid a v (not a.form_size_ok && (not (is_esc key.code) && not (is_quit key))) _ _ v (
        after_form-IsValid a v (handle_form_key ops validate answers key a.profiles f)
          (λ out e. handle_form_key-AllSplit answers key a.profiles f out h e))
  key_in-IsValid (test_data_generation (some p) error) answers key a v h = v
  key_in-IsValid (test_data_generation none error) answers key a v h =
      handle_test_generation_key-IsValid a v key

  handle_key-IsValid :
      (answers : Answers) (key : KeyEvent) (a : App)
      → IsValid a
      → IsValid (handle_key ops validate answers key a).0
  unfolding handle_key
  handle_key-IsValid answers key a v =
      pair-IsValid a v (is_press key.kind) _ _ (key_in-IsValid a.state answers key a v v.inputs) v

  activate_field-AllSplit :
      (field : CreationField) (f : ProfileForm)
      → AllSplit f
      → AllSplit (activate_field ops validate field f)
  activate_field-AllSplit field f h =
      let f' : ProfileForm = record f { active_field = field } in
      let h' = active_field-AllSplit field f h in
      either-AllSplit (has_text (active_text f')) f' _ h' (toggle_active-AllSplit ops f' h')

  click_field-AllSplit :
      (field : Option CreationField) (f : ProfileForm)
      → AllSplit f
      → AllSplit (click_field ops validate field f)
  click_field-AllSplit none f h = h
  click_field-AllSplit (some field) f h = activate_field-AllSplit field f h

  click_in-IsValid :
      (s : UiState) (column row : ℕ) (a : App)
      → IsValid a
      → StateSplit s
      → IsValid (click_in ops validate s column row a).0
  unfolding handle_selection_click
  click_in-IsValid profile_selection column row a v h =
      click_row-IsValid a.profile_list_area column row a v
  click_in-IsValid (profile_creation f) column row a v h =
      state-IsValid a v
        (profile_creation
          (click_field ops validate (clicked_field a.form_field_rects column row) f))
        a.result a.status (click_field-AllSplit (clicked_field a.form_field_rects column row) f h)
  click_in-IsValid (test_data_generation progress error) column row a v h = v

  handle_mouse-IsValid :
      (left_down : Bool) (column row : ℕ) (a : App)
      → IsValid a
      → IsValid (handle_mouse ops validate left_down column row a).0
  unfolding handle_mouse
  handle_mouse-IsValid left_down column row a v =
      pair-IsValid a v left_down _ _ (click_in-IsValid a.state column row a v v.inputs) v

  unfoldable pub on_event : Event → App → App
  on_event (pressed answers key) a = (handle_key ops validate answers key a).0
  on_event (pasted text) a = handle_paste text a
  on_event (clicked left_down column row) a = (handle_mouse ops validate left_down column row a).0
  on_event (drawn rects area offset fits) a = record a {
    form_field_rects = rects;
    profile_list_area = area;
    profile_list_offset = offset;
    form_size_ok = fits;
  }

  abbrev pub on_events : List Event → App → App
  on_events [] a = a
  on_events (e ∷ es) a = on_events es (on_event e a)

  on_event-IsValid : (e : Event) (a : App) → IsValid a → IsValid (on_event e a)
  unfolding on_event
  on_event-IsValid (pressed answers key) a v = handle_key-IsValid answers key a v
  on_event-IsValid (pasted text) a v = handle_paste-IsValid a v text
  on_event-IsValid (clicked left_down column row) a v =
      handle_mouse-IsValid left_down column row a v
  on_event-IsValid (drawn rects area offset fits) a v = drawn-IsValid a v rects area offset fits

  on_events-IsValid_from : (es : List Event) (a : App) → IsValid a → IsValid (on_events es a)
  on_events-IsValid_from [] a v = v
  on_events-IsValid_from (e ∷ es) a v =
      on_events-IsValid_from es (on_event e a) (on_event-IsValid e a v)

  recover_draft-AllSplit :
      (d : Option ProfileForm) (r : ProfileRecovery) → DraftIn d → AllSplit (recover_draft d r)
  recover_draft-AllSplit none r h =
      from_profile-AllSplit r.name r.uri r.editing (some (recovered r.message))
  recover_draft-AllSplit (some f) r h = draft-AllSplit f (some (recovered r.message)) r.editing h

  app_new-inputs :
      (recovery : Option ProfileRecovery)
      → DraftSplit recovery
      → StateSplit (initial_state recovery)
  unfolding recovered_form
  app_new-inputs none h = tt
  app_new-inputs (some r) h = recover_draft-AllSplit r.draft r h

  -- After any keys, pastes, clicks and redraws, from any start whose draft has its cursors in its
  -- texts, a row of the list is selected, and every input of the form has its cursor between two
  -- parts of its text.
  pub on_events-IsValid :
      (es : List Event) (profiles : List StoredConnectionProfile) (initial : ℕ)
      (from_main_ui : Bool) (recovery : Option ProfileRecovery)
      → DraftSplit recovery
      → IsValid (on_events es (app_new profiles initial from_main_ui recovery))
  unfolding app_new
  on_events-IsValid es profiles initial from_main_ui recovery h =
      on_events-IsValid_from es (app_new profiles initial from_main_ui recovery)
        (record { inside = omega arith; inputs = app_new-inputs recovery h })
