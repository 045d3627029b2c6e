-- ===== src/StartMenu/Menu.antt =====
-- `App` of the start menu (crates/app/src/bootstrap/start_menu/state.rs) and what it does on keys,
-- pastes and clicks (input.rs). The clipboard and the profile store answer through the event.
use poqi.Prelude.{
  ◌%◌, ℕ, ◌+◌, ◌-◌, min, Bool, true, false, ◌&&◌, ◌||◌, not, Option, none, some, List, [], ◌∷◌,
  ◌==◌, leb, ltb, if◌then◌else◌, length, get_elem?, erase_idx,
}
use poqi.TextInput.Utf8.{Line}
use poqi.StartMenu.Field.{
  runs, TextInput, insert, backspace, delete, move_left, move_right, clear, trim,
}
use poqi.StartMenu.Form.{
  CreationField, mode_field, password_field, recovered, ProfileForm, Result, ok, err, form_new,
  from_profile, active_text, edit_text, move_field, eq_field, UrlOps, StoredConnectionProfile,
  ProfileSelectionResult, selected, generate_test_data, toggle_active, submit,
}

pub data UiState : Type 0 where
  profile_selection : UiState
  profile_creation : ProfileForm → UiState
  test_data_generation : Option Line → Option Line → UiState

-- The messages of the list of profiles, each an error or not.
pub data SelectionStatus : Type 0 where
  select_to_edit select_to_delete : SelectionStatus
  removed already_removed : Line → SelectionStatus

pub record Rect : Type 0 where
  pub x : ℕ
  pub y : ℕ
  pub width : ℕ
  pub height : ℕ

-- crates/ui/src/geometry.rs
unfoldable pub point_in_rect : ℕ → ℕ → Rect → Bool
point_in_rect column row rect =
    leb rect.x column
    && (ltb column (rect.x + rect.width) && (leb rect.y row && ltb row (rect.y + rect.height)))

pub record App : Type 0 where
  pub profiles : List StoredConnectionProfile
  pub selected : ℕ
  pub state : UiState
  pub result : Option ProfileSelectionResult
  pub status : Option SelectionStatus
  pub form_field_rects : List (CreationField × Rect)
  pub profile_list_area : Option Rect
  pub profile_list_offset : ℕ
  pub form_size_ok : Bool
  pub from_main_ui : Bool

pub record ProfileRecovery : Type 0 where
  pub name : Line
  pub uri : Line
  pub message : Line
  pub editing : Bool
  pub draft : Option ProfileForm

abbrev pub recover_draft : Option ProfileForm → ProfileRecovery → ProfileForm
recover_draft none r = from_profile r.name r.uri r.editing (some (recovered r.message))
recover_draft (some draft) r = record draft {
  error = some (recovered r.message);
  name_locked = r.editing;
}

unfoldable pub recovered_form : ProfileRecovery → ProfileForm
unfolding from_profile
recovered_form r = recover_draft r.draft r

abbrev pub initial_state : Option ProfileRecovery → UiState
initial_state none = profile_selection
initial_state (some r) = profile_creation (recovered_form r)

unfoldable pub app_new : List StoredConnectionProfile → ℕ → Bool → Option ProfileRecovery → App
unfolding recovered_form
app_new profiles initial from_main_ui recovery = record {
  profiles = profiles;
  selected = min initial (length profiles + 2 - 1);
  state = initial_state recovery;
  result = none;
  status = none;
  form_field_rects = [];
  profile_list_area = none;
  profile_list_offset = 0;
  form_size_ok = true;
  from_main_ui = from_main_ui;
}

pub data KeyKind : Type 0 where
  press release repeat : KeyKind

pub data KeyCode : Type 0 where
  esc tab back_tab up down enter home end left right backspace_key delete_key other : KeyCode
  char : ℕ → KeyCode

pub record KeyEvent : Type 0 where
  pub kind : KeyKind
  pub code : KeyCode
  pub shift : Bool
  pub control : Bool

-- What the clipboard holds, and what the store says of a deletion: whether the profile was there.
pub record Answers : Type 0 where
  pub clipboard : Result Line
  pub deleted : Option Bool

-- `Result<bool>`: whether the menu is done, or the error that leaves it.
pub data Outcome : Type 0 where
  done : Bool → Outcome
  selection_quit selection_cancelled store_failed : Outcome

abbrev pub is_char : ℕ → KeyCode → Bool
is_char c (char d) = c == d
is_char c _ = false

abbrev pub is_esc : KeyCode → Bool
is_esc esc = true
is_esc _ = false

unfoldable pub is_quit : KeyEvent → Bool
is_quit key =
    ((is_char b'q' key.code || is_esc key.code) && key.shift)
    || (is_char b'c' key.code && key.control)

abbrev pub set_status : SelectionStatus → App → App
set_status status a = record a { status = some status }

unfoldable pub cancel_selection : App → Outcome
cancel_selection a = if a.from_main_ui then done false else selection_cancelled

-- An index past the rows is a panic in the source; here it changes nothing.
abbrev pub choose : Option StoredConnectionProfile → App → App × Bool
choose none a = (a, false)
choose (some p) a = (record a { result = some (selected p) }, true)

unfoldable pub activate_selected : App → App × Bool
unfolding form_new
activate_selected a =
    if a.selected == length a.profiles
    then (record a { state = profile_creation form_new }, false)
    else if a.selected == length a.profiles + 1
    then (record a { state = test_data_generation none none }, false)
    else choose (get_elem? a.profiles a.selected) a

abbrev pub edit_profile : Option StoredConnectionProfile → App → App
edit_profile none a = set_status select_to_edit a
edit_profile (some p) a = record a {
  state = profile_creation (from_profile p.name p.uri true none);
}

unfoldable pub edit_selected_profile : App → App
unfolding from_profile
edit_selected_profile a = edit_profile (get_elem? a.profiles a.selected) a

abbrev pub removal_status : Bool → Line → SelectionStatus
removal_status true name = removed name
removal_status false name = already_removed name

-- The profile's entry removed from the list, when the store has answered.
abbrev pub remove_profile : Bool → Line → App → App
remove_profile found name a =
    let rest = erase_idx a.profiles a.selected in
    record a {
      profiles = rest;
      selected = min a.selected (length rest + 2 - 1);
      status = some (removal_status found name);
    }

abbrev pub delete_found : Option StoredConnectionProfile → Option Bool → App → App × Outcome
delete_found none answer a = (set_status select_to_delete a, done false)
delete_found (some p) none a = (a, store_failed)
delete_found (some p) (some found) a = (remove_profile found p.name a, done false)

unfoldable pub delete_selected_profile : Option Bool → App → App × Outcome
delete_selected_profile answer a = delete_found (get_elem? a.profiles a.selected) answer a

abbrev pub done_with : App × Bool → App × Outcome
done_with (a, finished) = (a, done finished)

-- The list's rows: the profiles, a new one, and the test data.
abbrev pub row_before : App → ℕ
row_before a = if a.selected == 0 then length a.profiles + 2 - 1 else a.selected - 1

abbrev pub row_after : App → ℕ
row_after a = (a.selected + 1) % (length a.profiles + 2)

abbrev pub selection_char : ℕ → App → App × Outcome
selection_char c a =
    if (c == b'w') || (c == b'a')
    then (record a { selected = row_before a }, done false)
    else if (c == b's') || (c == b'd')
    then (record a { selected = row_after a }, done false)
    else if (c == b'e') || (c == b'E')
    then (edit_selected_profile a, done false)
    else if c == b'f'
    then done_with (activate_selected a)
    else (a, done false)

abbrev pub selection_key : Answers → KeyCode → App → App × Outcome
selection_key answers esc a = (a, cancel_selection a)
selection_key answers delete_key a = delete_selected_profile answers.deleted a
selection_key answers up a = (record a { selected = row_before a }, done false)
selection_key answers down a = (record a { selected = row_after a }, done false)
selection_key answers enter a = done_with (activate_selected a)
selection_key answers (char c) a = selection_char c a
selection_key answers _ a = (a, done false)

unfoldable pub handle_selection_key : Answers → KeyEvent → App → App × Outcome
unfolding is_quit cancel_selection delete_selected_profile activate_selected edit_selected_profile
handle_selection_key answers key a =
    if is_quit key then (a, selection_quit) else selection_key answers key.code a

abbrev pub generation_key : KeyCode → App → App × Outcome
generation_key esc a = (record a { state = profile_selection }, done false)
generation_key enter a = (record a { result = some generate_test_data }, done true)
generation_key _ a = (a, done false)

unfoldable pub handle_test_generation_key : KeyEvent → App → App × Outcome
unfolding is_quit
handle_test_generation_key key a =
    if is_quit key then (a, selection_quit) else generation_key key.code a

unfoldable pub insert_paste : Line → ProfileForm → ProfileForm
unfolding insert trim edit_text
insert_paste text f =
    edit_text (runs (insert (if eq_field f.active_field password_field then text else trim text))) f

abbrev pub paste_found : Result Line → ProfileForm → ProfileForm
paste_found (ok text) f = insert_paste text f
paste_found (err e) f = record f { error = some e }

unfoldable pub paste_from_clipboard : Result Line → ProfileForm → ProfileForm
unfolding insert_paste
paste_from_clipboard clipboard f = paste_found clipboard f

pub data FormAction : Type 0 where
  continue back : FormAction
  finish : ProfileSelectionResult → FormAction

abbrev pub has_text : Option TextInput → Bool
has_text none = false
has_text (some i) = true

abbrev pub submitted : Result ProfileSelectionResult → ProfileForm → ProfileForm × FormAction
submitted (ok r) f = (f, finish r)
submitted (err e) f = (record f { error = some e }, continue)

abbrev pub after_form : Option (ProfileForm × FormAction) → App → App × Outcome
after_form none a = (a, selection_quit)
after_form (some (f, continue)) a = (record a { state = profile_creation f }, done false)
after_form (some (f, back)) a = (record a { state = profile_selection }, done false)
after_form (some (f, finish r)) a =
    (record a { state = profile_creation f; result = some r }, done true)

abbrev pub is_press : KeyKind → Bool
is_press press = true
is_press _ = false

abbrev pub paste_in : UiState → Line → App → App
paste_in (profile_creation f) text a = record a { state = profile_creation (insert_paste text f) }
paste_in _ text a = a

unfoldable pub handle_paste : Line → App → App
unfolding insert_paste
handle_paste text a = if a.form_size_ok then paste_in a.state text a else a

abbrev pub click_row : Option Rect → ℕ → ℕ → App → App × Bool
click_row none column row a = (a, false)
click_row (some area) column row a =
    let clicked = a.profile_list_offset + (row - area.y) in
    if point_in_rect column row area
    then if leb (length a.profiles + 2) clicked
      then (a, false)
      else activate_selected (record a { selected = clicked })
    else (a, false)

unfoldable pub handle_selection_click : ℕ → ℕ → App → App × Bool
unfolding point_in_rect activate_selected
handle_selection_click column row a = click_row a.profile_list_area column row a

abbrev pub clicked_field : List (CreationField × Rect) → ℕ → ℕ → Option CreationField
clicked_field [] column row = none
clicked_field ((field, rect) ∷ rects) column row =
    let rest = clicked_field rects column row in
    if point_in_rect column row rect then some field else rest

module _ (ops : UrlOps) (validate : Line → Option Line) where
  unfoldable pub submit_form : List StoredConnectionProfile → ProfileForm → ProfileForm × FormAction
  unfolding submit
  submit_form profiles f = submitted (submit ops validate profiles f) f

  abbrev pub form_char : Answers → ℕ → Bool → ProfileForm → ProfileForm
  form_char answers c control f =
      if (c == b' ') && not (has_text (active_text f))
      then toggle_active ops f
      else if (c == b'a') && control
      then edit_text clear f
      else if (c == b'v') && control
      then paste_from_clipboard answers.clipboard f
      else if control
      then f
      else edit_text (runs (insert (c ∷ []))) f

  abbrev pub form_key :
      Answers
      → KeyCode
      → Bool
      → Bool
      → List StoredConnectionProfile
      → ProfileForm
      → ProfileForm × FormAction
  form_key answers esc shift control profiles f = (f, back)
  form_key answers tab shift control profiles f = (move_field shift f, continue)
  form_key answers back_tab shift control profiles f = (move_field true f, continue)
  form_key answers up shift control profiles f = (move_field true f, continue)
  form_key answers down shift control profiles f = (move_field false f, continue)
  form_key answers enter shift control profiles f =
      if eq_field f.active_field mode_field
      then (toggle_active ops f, continue)
      else submit_form profiles f
  form_key answers home shift control profiles f =
      (edit_text (λ i. record { value = i.value; cursor = 0 }) f, continue)
  form_key answers end shift control profiles f =
      (edit_text (λ i. record { value = i.value; cursor = length i.value }) f, continue)
  form_key answers left shift control profiles f = (edit_text move_left f, continue)
  form_key answers right shift control profiles f = (edit_text move_right f, continue)
  form_key answers backspace_key shift control profiles f = (edit_text (runs backspace) f, continue)
  form_key answers delete_key shift control profiles f = (edit_text (runs delete) f, continue)
  form_key answers (char c) shift control profiles f = (form_char answers c control f, continue)
  form_key answers other shift control profiles f = (f, continue)

  -- `none` leaves the menu.
  unfoldable pub handle_form_key :
      Answers
      → KeyEvent
      → List StoredConnectionProfile
      → ProfileForm
      → Option (ProfileForm × FormAction)
  unfolding is_quit active_text toggle_active edit_text clear paste_from_clipboard insert move_field
      submit_form move_left move_right backspace delete
  handle_form_key answers key profiles f =
      if is_quit key
      then none
      else some (form_key answers key.code key.shift key.control profiles f)

  abbrev pub key_in : UiState → Answers → KeyEvent → App → App × Outcome
  key_in profile_selection answers key a = handle_selection_key answers key a
  key_in (profile_creation f) answers key a =
      if not a.form_size_ok && (not (is_esc key.code) && not (is_quit key))
      then (a, done false)
      else after_form (handle_form_key answers key a.profiles f) a
  key_in (test_data_generation (some progress) error) answers key a = (a, done false)
  key_in (test_data_generation none error) answers key a = handle_test_generation_key key a

  unfoldable pub handle_key : Answers → KeyEvent → App → App × Outcome
  unfolding handle_selection_key handle_form_key handle_test_generation_key is_quit
  handle_key answers key a =
      if is_press key.kind then key_in a.state answers key a else (a, done false)

  abbrev pub activate_field : CreationField → ProfileForm → ProfileForm
  activate_field field f =
      let f' : ProfileForm = record f { active_field = field } in
      if has_text (active_text f') then f' else toggle_active ops f'

  abbrev pub click_field : Option CreationField → ProfileForm → ProfileForm
  click_field none f = f
  click_field (some field) f = activate_field field f

  abbrev pub click_in : UiState → ℕ → ℕ → App → App × Bool
  click_in profile_selection column row a = handle_selection_click column row a
  click_in (profile_creation f) column row a = (
    record a {
      state = profile_creation (click_field (clicked_field a.form_field_rects column row) f);
    },
    false,
  )
  click_in (test_data_generation progress error) column row a = (a, false)

  -- A press of the left button, or another event of the mouse.
  unfoldable pub handle_mouse : Bool → ℕ → ℕ → App → App × Bool
  unfolding handle_selection_click point_in_rect active_text toggle_active
  handle_mouse left_down column row a =
      if left_down then click_in a.state column row a else (a, false)
