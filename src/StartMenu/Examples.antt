-- ===== src/StartMenu/Examples.antt =====
-- The start menu at concrete keys and profiles.
use poqi.Prelude.{◌++◌, ℕ, ◌≡◌, refl, true, false, Option, none, some, List, [], ◌∷◌}
use poqi.TextInput.Utf8.{Line}
use poqi.StartMenu.Field.{TextInput, backspace, move_left, insert, input_new, trim, is_empty}
use poqi.StartMenu.Form.{
  build_structured_url, structured, structured_uri, fields_of, UrlOps, ok, ProfileForm,
  StoredConnectionProfile, create_new, from_profile, form_new, submit, connection_uri, toggle_mode,
}
use poqi.StartMenu.Menu.{
  handle_key, handle_form_key, app_new, KeyEvent, press, Answers, enter, char, delete_key, finish,
}
use poqi.StartMenu.Editing.{insert_text, erase_before, left, edit_inputs, Shows, edit_inputs-Shows}
use poqi.StartMenu.Submit.{NotTaken, submit-Fresh}
use poqi.StartMenu.Locked.{IsLocked, press_keys, press_keys-Ends, Ends}
use poqi.StartMenu.Fields.{is_among, toggle_mode-Switched, Switched, Keeps}
use poqi.StartMenu.Valid.Rows.{IsValid}
use poqi.StartMenu.Valid.Events.{on_event, pressed, pasted, on_events, on_events-IsValid}

abbrev prod : Line
prod = b'p' ∷ b'r' ∷ b'o' ∷ b'd' ∷ []

abbrev local : Line
local = b'l' ∷ b'o' ∷ b'c' ∷ b'a' ∷ b'l' ∷ []

abbrev uri : Line
uri = b'p' ∷ b'g' ∷ b':' ∷ b'/' ∷ b'/' ∷ b'h' ∷ []

-- URLs as the texts of their hosts.
abbrev ops : UrlOps
ops = record {
  Url = Line;
  postgresql_localhost = some [];
  set_host = λ host u. some host;
  set_port = λ port u. some u;
  set_username = λ user u. some u;
  set_password = λ password u. some u;
  set_path = λ path u. some u;
  append_sslmode = λ mode u. u;
  into = λ u. u;
}

abbrev accepts : Line → Option Line
accepts u = none

abbrev saved : List StoredConnectionProfile
saved = record { name = prod; uri = uri } ∷ []

abbrev answers : Answers
answers = record { clipboard = ok local; deleted = some true }

abbrev key_enter : KeyEvent
key_enter = record { kind = press; code = enter; shift = false; control = false }

abbrev key_char : ℕ → KeyEvent
key_char c = record { kind = press; code = char c; shift = false; control = false }

abbrev key_delete : KeyEvent
key_delete = record { kind = press; code = delete_key; shift = false; control = false }

-- A character of two bytes, and an edit in front of it.
typed_at_the_end :
    edit_inputs (insert_text (0xE9 ∷ []) ∷ left ∷ erase_before ∷ []) (input_new local)
    ≡ some (record { value = b'l' ∷ b'o' ∷ b'c' ∷ b'a' ∷ 0xE9 ∷ []; cursor = 4 })
unfolding input_new backspace move_left insert
typed_at_the_end = refl

at_start : Shows (record { value = local; cursor = 0 }) [] local
at_start = record { text = refl; at = refl }

edit_inputs-Shows_example :
    (j : TextInput) × (edit_inputs
        (insert_text (0xE9 ∷ prod) ∷ erase_before ∷ [])
        (record { value = local; cursor = 0 })
      ≡ some j)
    × Shows j (b'o' ∷ b'r' ∷ b'p' ∷ 0xE9 ∷ []) local
edit_inputs-Shows_example =
    edit_inputs-Shows (insert_text (0xE9 ∷ prod) ∷ erase_before ∷ [])
      (record { value = local; cursor = 0 }) [] local at_start

-- The menu's list is moved through, and its profile deleted.
deleted_profile :
    (on_events ops accepts (pressed answers key_delete ∷ []) (app_new saved 0 false none)).profiles
    ≡ []
unfolding on_event app_new handle_key
deleted_profile = refl

on_events-IsValid_example : IsValid (
    on_events ops accepts
      (pressed answers (key_char b's')
        ∷ pressed answers key_enter
        ∷ pasted local
        ∷ pressed answers key_delete
        ∷ [])
      (app_new saved 0 false none))
on_events-IsValid_example =
    on_events-IsValid ops accepts
      (pressed answers (key_char b's')
        ∷ pressed answers key_enter
        ∷ pasted local
        ∷ pressed answers key_delete
        ∷ [])
      saved 0 false none tt

-- A new profile named `local`.
abbrev filled : ProfileForm
filled = record form_new { name = input_new local; uri = input_new uri }

filled_result : submit ops accepts saved filled ≡ ok (create_new local uri filled)
unfolding submit form_new input_new
filled_result = refl

filled_unlocked : filled.name_locked ≡ false
unfolding form_new
filled_unlocked = refl

submit-Fresh_example :
    (u : Line) × (create_new local uri filled ≡ create_new (trim filled.name.value) u filled)
    × (is_empty (trim filled.name.value) ≡ false)
    × NotTaken (trim filled.name.value) saved
    × (connection_uri ops filled ≡ ok u)
    × (accepts u ≡ none)
submit-Fresh_example =
    submit-Fresh ops accepts saved filled (create_new local uri filled) filled_unlocked
      filled_result

abbrev editing : ProfileForm
editing = from_profile prod uri true none

editing-IsLocked : IsLocked (input_new prod) editing
unfolding from_profile form_new
editing-IsLocked = record { locked = refl; named = refl; in_url = refl }

-- Typed into the URL, and submitted.
abbrev edited : ProfileForm
edited = record editing { uri = input_new (uri ++ b'x' ∷ []) }

editing_keys :
    press_keys ops accepts ((answers, key_char b'x') ∷ (answers, key_enter) ∷ []) saved editing
    ≡ some (edited, finish (create_new prod (uri ++ b'x' ∷ []) edited))
unfolding handle_form_key from_profile form_new input_new
editing_keys = refl

press_keys-Ends_example :
    Ends ops accepts (input_new prod) (edited, finish (create_new prod (uri ++ b'x' ∷ []) edited))
press_keys-Ends_example =
    press_keys-Ends ops accepts ((answers, key_char b'x') ∷ (answers, key_enter) ∷ []) saved
      (input_new prod) editing (edited, finish (create_new prod (uri ++ b'x' ∷ []) edited))
      editing-IsLocked editing_keys

new_shows_name : is_among form_new.active_field (fields_of form_new.mode) ≡ true
unfolding form_new
new_shows_name = refl

-- The fields of a database at the host local.
abbrev local_form : ProfileForm
unfolding form_new input_new
local_form = record form_new {
  mode = structured;
  host = record { value = local; cursor = 5 };
  database = record { value = prod; cursor = 4 };
  user = record { value = prod; cursor = 4 };
  port = record { value = b'1' ∷ []; cursor = 1 };
}

toggle_mode-Switched_example :
    Switched ops local_form (toggle_mode ops local_form)
    × Keeps ops (connection_uri ops local_form) (connection_uri ops (toggle_mode ops local_form))
toggle_mode-Switched_example = toggle_mode-Switched ops local_form

local_form_uri : connection_uri ops (toggle_mode ops local_form) ≡ ok local
unfolding connection_uri toggle_mode structured_uri build_structured_url local_form form_new
local_form_uri = refl
