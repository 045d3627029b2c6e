-- ===== src/StartMenu/Valid/Rows.antt =====
-- The list of profiles stays valid, whatever is done with it
-- (crates/app/src/bootstrap/start_menu/input.rs).
use poqi.StartMenu.Menu.{down, up, delete_key, enter, esc}
use poqi.Prelude.{
  ℕ, ◌+◌, ◌-◌, ◌<◌, ◌≡◌, refl, inl, inr, Bool, true, false, ◌||◌, Option, none, some, List, ◌==◌,
  leb, arith, if◌then◌else◌, Bool-cases, length, get_elem?,
}
use poqi.TextInput.Utf8.{Line}
use poqi.StartMenu.Form.{
  from_profile, generate_test_data, CreationField, ProfileForm, StoredConnectionProfile,
  ProfileSelectionResult, form_new,
}
use poqi.StartMenu.Menu.{
  edit_profile, char, select_to_delete, point_in_rect, is_quit, insert_paste, selection_key,
  select_to_edit, paste_in, selection_char, generation_key, delete_found, after_form, row_before,
  click_row, handle_selection_key, delete_selected_profile, choose, SelectionStatus,
  activate_selected, row_after, remove_profile, handle_test_generation_key, edit_selected_profile,
  UiState, profile_selection, profile_creation, test_data_generation, App, KeyEvent, KeyCode,
  Answers, Rect, handle_paste, FormAction, continue, back, finish,
}
use poqi.StartMenu.Valid.Inputs.{
  AllSplit, insert_paste-AllSplit, form_new-AllSplit, from_profile-AllSplit,
}

abbrev pub StateSplit : UiState → Type 0
StateSplit profile_selection = Unit {0}
StateSplit (profile_creation f) = AllSplit f
StateSplit (test_data_generation progress error) = Unit {0}

-- A row of the list is selected, and the inputs of the form have their cursors in their texts.
pub record IsValid (a : App) : Type 0 where
  pub inside : a.selected < length a.profiles + 2
  pub inputs : StateSplit a.state

module _ (a : App) (v : IsValid a) where
  -- A change of the state alone, or of the row alone.
  pub state-IsValid :
      (state : UiState) (result : Option ProfileSelectionResult) (status : Option SelectionStatus)
      → StateSplit state
      → IsValid (record a { state = state; result = result; status = status })
  state-IsValid state result status h = record { inside = v.inside; inputs = h }

  row-IsValid : (row : ℕ) → row < length a.profiles + 2 → IsValid (record a { selected = row })
  row-IsValid row h = record { inside = h; inputs = v.inputs }

  pub drawn-IsValid :
      (rects : List (CreationField × Rect)) (area : Option Rect) (offset : ℕ) (fits : Bool)
      → IsValid (record a {
        form_field_rects = rects;
        profile_list_area = area;
        profile_list_offset = offset;
        form_size_ok = fits;
      })
  drawn-IsValid rects area offset fits = record { inside = v.inside; inputs = v.inputs }

  choose-IsValid : (p : Option StoredConnectionProfile) → IsValid (choose p a).0
  choose-IsValid none = v
  choose-IsValid (some p) =
      state-IsValid a.state (some (ProfileSelectionResult.selected p)) a.status v.inputs

  pub pair-IsValid :
      {B : Type 0} (b : Bool) (x y : App × B)
      → IsValid x.0
      → IsValid y.0
      → IsValid (if b then x else y).0
  pair-IsValid true x y h k = h
  pair-IsValid false x y h k = k

  either-IsValid : (b : Bool) (x y : App) → IsValid x → IsValid y → IsValid (if b then x else y)
  either-IsValid true x y h k = h
  either-IsValid false x y h k = k

  activate_selected-IsValid : IsValid (activate_selected a).0
  unfolding activate_selected
  activate_selected-IsValid =
      pair-IsValid (a.selected == length a.profiles) _ _
        (state-IsValid (profile_creation form_new) a.result a.status form_new-AllSplit)
        (pair-IsValid (a.selected == length a.profiles + 1) _ _
          (state-IsValid (test_data_generation none none) a.result a.status tt)
          (choose-IsValid (get_elem? a.profiles a.selected)))

  edit_profile-IsValid : (p : Option StoredConnectionProfile) → IsValid (edit_profile p a)
  edit_profile-IsValid none = state-IsValid a.state a.result (some select_to_edit) v.inputs
  edit_profile-IsValid (some p) =
      state-IsValid (profile_creation (from_profile p.name p.uri true none)) a.result a.status
        (from_profile-AllSplit p.name p.uri true none)

  edit_selected_profile-IsValid : IsValid (edit_selected_profile a)
  unfolding edit_selected_profile
  edit_selected_profile-IsValid = edit_profile-IsValid (get_elem? a.profiles a.selected)

  remove_profile-IsValid : (found : Bool) (name : Line) → IsValid (remove_profile found name a)
  remove_profile-IsValid found name = record { inside = omega arith; inputs = v.inputs }

  delete_found-IsValid :
      (p : Option StoredConnectionProfile) (answer : Option Bool)
      → IsValid (delete_found p answer a).0
  delete_found-IsValid none answer = state-IsValid a.state a.result (some select_to_delete) v.inputs
  delete_found-IsValid (some p) none = v
  delete_found-IsValid (some p) (some found) = remove_profile-IsValid found p.name

  row_before-lt : row_before a < length a.profiles + 2
  row_before-lt = ground (arith, v.inside)

  row_after-lt : row_after a < length a.profiles + 2
  row_after-lt = grind arith

  selection_char-IsValid : (c : ℕ) → IsValid (selection_char c a).0
  selection_char-IsValid c =
      pair-IsValid ((c == b'w') || (c == b'a')) _ _ (row-IsValid (row_before a) row_before-lt) (
        pair-IsValid ((c == b's') || (c == b'd')) _ _ (row-IsValid (row_after a) row_after-lt) (
          pair-IsValid ((c == b'e') || (c == b'E')) _ _ edit_selected_profile-IsValid
            (pair-IsValid (c == b'f') _ _ activate_selected-IsValid v)))

  selection_key-IsValid :
      (answers : Answers) (code : KeyCode) → IsValid (selection_key answers code a).0
  unfolding delete_selected_profile
  selection_key-IsValid answers esc = v
  selection_key-IsValid answers delete_key =
      delete_found-IsValid (get_elem? a.profiles a.selected) answers.deleted
  selection_key-IsValid answers up = row-IsValid (row_before a) row_before-lt
  selection_key-IsValid answers down = row-IsValid (row_after a) row_after-lt
  selection_key-IsValid answers enter = activate_selected-IsValid
  selection_key-IsValid answers (char c) = selection_char-IsValid c
  selection_key-IsValid answers _ = v

  pub handle_selection_key-IsValid :
      (answers : Answers) (key : KeyEvent) → IsValid (handle_selection_key answers key a).0
  unfolding handle_selection_key
  handle_selection_key-IsValid answers key =
      pair-IsValid (is_quit key) _ _ v (selection_key-IsValid answers key.code)

  generation_key-IsValid : (code : KeyCode) → IsValid (generation_key code a).0
  generation_key-IsValid esc = state-IsValid profile_selection a.result a.status tt
  generation_key-IsValid enter = state-IsValid a.state (some generate_test_data) a.status v.inputs
  generation_key-IsValid _ = v

  pub handle_test_generation_key-IsValid :
      (key : KeyEvent) → IsValid (handle_test_generation_key key a).0
  unfolding handle_test_generation_key
  handle_test_generation_key-IsValid key =
      pair-IsValid (is_quit key) _ _ v (generation_key-IsValid key.code)

  pub after_form-IsValid :
      (o : Option (ProfileForm × FormAction))
      → ((out : ProfileForm × FormAction) → o ≡ some out → AllSplit out.0)
      → IsValid (after_form o a).0
  after_form-IsValid none h = v
  after_form-IsValid (some (f, continue)) h =
      state-IsValid (profile_creation f) a.result a.status (h (f, continue) refl)
  after_form-IsValid (some (f, back)) h = state-IsValid profile_selection a.result a.status tt
  after_form-IsValid (some (f, finish r)) h =
      state-IsValid (profile_creation f) (some r) a.status (h (f, finish r) refl)

  paste_in-IsValid : (s : UiState) (text : Line) → StateSplit s → IsValid (paste_in s text a)
  paste_in-IsValid profile_selection text h = v
  paste_in-IsValid (profile_creation f) text h =
      state-IsValid (profile_creation (insert_paste text f)) a.result a.status
        (insert_paste-AllSplit text f h)
  paste_in-IsValid (test_data_generation progress error) text h = v

  pub handle_paste-IsValid : (text : Line) → IsValid (handle_paste text a)
  unfolding handle_paste
  handle_paste-IsValid text =
      either-IsValid a.form_size_ok _ _ (paste_in-IsValid a.state text v.inputs) v

selected_row-IsValid :
    (a : App) (row : ℕ)
    → IsValid a
    → leb (length a.profiles + 2) row ≡ false
    → IsValid (activate_selected (record a { selected = row })).0
selected_row-IsValid a row v h =
    activate_selected-IsValid (record a { selected = row })
      (row-IsValid a v row (ground (arith, h)))

pub click_row-IsValid :
    (area : Option Rect) (column row : ℕ) (a : App)
    → IsValid a
    → IsValid (click_row area column row a).0
click_row-IsValid none column row a v = v
click_row-IsValid (some area) column row a v = elim (Bool-cases (point_in_rect column row area)) [
  | inr k ↦ rw k v
  | inl y ↦
      elim (Bool-cases (leb (length a.profiles + 2) (a.profile_list_offset + (row - area.y)))) [
        | inl z ↦ rw (y, z) v
        | inr k ↦ rw (y, k) (selected_row-IsValid a (a.profile_list_offset + (row - area.y)) v k)
      ]
]
