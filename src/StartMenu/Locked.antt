-- ===== src/StartMenu/Locked.antt =====
-- The name of a saved profile while it is edited (crates/app/src/bootstrap/start_menu).
use poqi.Prelude.{
  not, ◌&&◌, ◌==◌, ℕ, ◌≡◌, refl, ap, ◌∙◌, Bool, true, false, Option, none, some, List, [], ◌∷◌,
  arith, if◌then◌else◌, if_true,
}
use poqi.TextInput.Utf8.{Line}
use poqi.StartMenu.Field.{
  runs, clear, delete, backspace, move_right, move_left, trim, insert, TextInput,
}
use poqi.StartMenu.Submit.{submit-Passed}
use poqi.StartMenu.Form.{
  submitted_name, active_text, create_new, submit, ProfileSelectionResult, database_field,
  user_field, port_field, host_field, tls_field, err, uri_field, mode_field,
  StoredConnectionProfile, password_field, ok, next, TlsMode, eq_field, locked_mode, UrlOps,
  FormError, Result, CreationField, name_field, ProfileForm, url, text_of, with_text, edit_found,
  edit_text, move_field, toggle_mode, toggle_field, toggle_active,
}
use poqi.StartMenu.Menu.{
  other, delete_key, backspace_key, right, left, end, home, enter, down, up, back_tab, tab, esc,
  char, has_text, back, is_quit, continue, submitted, finish, KeyCode, KeyEvent, Answers,
  handle_form_key, FormAction, submit_form, paste_found, insert_paste, paste_from_clipboard,
  form_key, form_char,
}

-- The form of a saved profile: its name as it was, and its URL.
pub record IsLocked (name : TextInput) (f : ProfileForm) : Type 0 where
  pub locked : f.name_locked ≡ true
  pub named : f.name ≡ name
  pub in_url : f.mode ≡ url

with_text-keeps :
    (field : CreationField) (i : TextInput) (f : ProfileForm)
    → ((with_text field i f).name_locked ≡ f.name_locked) × ((with_text field i f).mode ≡ f.mode)
with_text-keeps name_field i f = (refl, refl)
with_text-keeps uri_field i f = (refl, refl)
with_text-keeps host_field i f = (refl, refl)
with_text-keeps port_field i f = (refl, refl)
with_text-keeps user_field i f = (refl, refl)
with_text-keeps password_field i f = (refl, refl)
with_text-keeps database_field i f = (refl, refl)
with_text-keeps mode_field i f = (refl, refl)
with_text-keeps tls_field i f = (refl, refl)

with_text-name :
    (field : CreationField) (i j : TextInput) (f : ProfileForm)
    → f.name_locked ≡ true
    → text_of field f ≡ some i
    → (with_text field j f).name ≡ f.name
with_text-name name_field i j f l h = absurd (ground (arith, l, h))
with_text-name uri_field i j f l h = refl
with_text-name host_field i j f l h = refl
with_text-name port_field i j f l h = refl
with_text-name user_field i j f l h = refl
with_text-name password_field i j f l h = refl
with_text-name database_field i j f l h = refl
with_text-name mode_field i j f l h = refl
with_text-name tls_field i j f l h = refl

edit_found-IsLocked :
    (o : Option TextInput) (operation : TextInput → TextInput) (n : TextInput) (f : ProfileForm)
    → text_of f.active_field f ≡ o
    → IsLocked n f
    → IsLocked n (edit_found o operation f)
edit_found-IsLocked none operation n f h v = v
edit_found-IsLocked (some i) operation n f h v =
    let kept = with_text-keeps f.active_field (operation i) f in
    record {
      locked = kept.0 ∙ v.locked;
      named = with_text-name f.active_field i (operation i) f v.locked h ∙ v.named;
      in_url = kept.1 ∙ v.in_url;
    }

edit_text-IsLocked :
    (operation : TextInput → TextInput) (n : TextInput) (f : ProfileForm)
    → IsLocked n f
    → IsLocked n (edit_text operation f)
unfolding edit_text
edit_text-IsLocked operation n f v =
    edit_found-IsLocked (text_of f.active_field f) operation n f refl v

-- The field that is active, the error and the TLS mode are no part of it.
with_rest-IsLocked :
    (n : TextInput) (f : ProfileForm) (field : CreationField) (e : Option FormError) (tls : TlsMode)
    → IsLocked n f
    → IsLocked n (record f { active_field = field; error = e; tls = tls })
with_rest-IsLocked n f field e tls v = record {
  locked = v.locked;
  named = v.named;
  in_url = v.in_url;
}

either-IsLocked :
    (n : TextInput) (b : Bool) (f g : ProfileForm)
    → IsLocked n f
    → IsLocked n g
    → IsLocked n (if b then f else g)
either-IsLocked n true f g h k = h
either-IsLocked n false f g h k = k

move_field-IsLocked :
    (backwards : Bool) (n : TextInput) (f : ProfileForm)
    → IsLocked n f
    → IsLocked n (move_field backwards f)
unfolding move_field
move_field-IsLocked backwards n f v = with_rest-IsLocked n f _ f.error f.tls v

insert_paste-IsLocked :
    (text : Line) (n : TextInput) (f : ProfileForm)
    → IsLocked n f
    → IsLocked n (insert_paste text f)
unfolding insert_paste
insert_paste-IsLocked text n f v =
    edit_text-IsLocked
      (runs (insert (if eq_field f.active_field password_field then text else trim text))) n f v

paste_found-IsLocked :
    (clipboard : Result Line) (n : TextInput) (f : ProfileForm)
    → IsLocked n f
    → IsLocked n (paste_found clipboard f)
paste_found-IsLocked (ok text) n f v = insert_paste-IsLocked text n f v
paste_found-IsLocked (err e) n f v = with_rest-IsLocked n f f.active_field (some e) f.tls v

paste_from_clipboard-IsLocked :
    (clipboard : Result Line) (n : TextInput) (f : ProfileForm)
    → IsLocked n f
    → IsLocked n (paste_from_clipboard clipboard f)
unfolding paste_from_clipboard
paste_from_clipboard-IsLocked clipboard n f v = paste_found-IsLocked clipboard n f v

module _ (ops : UrlOps) where
  toggle_mode-IsLocked :
      (n : TextInput) (f : ProfileForm) → IsLocked n f → IsLocked n (toggle_mode ops f)
  unfolding toggle_mode
  toggle_mode-IsLocked n f v =
      rw (if_true f.name_locked (record f { error = some locked_mode }) _ v.locked)
        (with_rest-IsLocked n f f.active_field (some locked_mode) f.tls v)

  toggle_field-IsLocked :
      (field : CreationField) (n : TextInput) (f : ProfileForm)
      → IsLocked n f
      → IsLocked n (toggle_field ops field f)
  toggle_field-IsLocked mode_field n f v = toggle_mode-IsLocked n f v
  toggle_field-IsLocked tls_field n f v =
      with_rest-IsLocked n f f.active_field f.error (next f.tls) v
  toggle_field-IsLocked _ n f v = v

  toggle_active-IsLocked :
      (n : TextInput) (f : ProfileForm) → IsLocked n f → IsLocked n (toggle_active ops f)
  unfolding toggle_active
  toggle_active-IsLocked n f v = toggle_field-IsLocked f.active_field n f v

  module _ (validate : Line → Option Line) where
    -- The form stays locked, and a profile that it ends with has the form's name.
    abbrev pub Ends : TextInput → ProfileForm × FormAction → Type 0
    Ends n (f, finish r) = IsLocked n f × (uri : Line) × (r ≡ create_new n.value uri f)
    Ends n (f, _) = IsLocked n f

    submitted-Ends :
        (profiles : List StoredConnectionProfile) (n : TextInput) (f : ProfileForm)
        (o : Result ProfileSelectionResult)
        → submit ops validate profiles f ≡ o
        → IsLocked n f
        → Ends n (submitted o f)
    submitted-Ends profiles n f (err e) h v = with_rest-IsLocked n f f.active_field (some e) f.tls v
    submitted-Ends profiles n f (ok r) h v =
        let passed = submit-Passed ops validate profiles f r h in
        let name : submitted_name f ≡ n.value =
          if_true f.name_locked f.name.value _ v.locked ∙ ap (λ (i : TextInput). i.value) v.named in
        (v, passed.uri, rw (← name) passed.result)

    submit_form-Ends :
        (profiles : List StoredConnectionProfile) (n : TextInput) (f : ProfileForm)
        → IsLocked n f
        → Ends n (submit_form ops validate profiles f)
    unfolding submit_form
    submit_form-Ends profiles n f v =
        submitted-Ends profiles n f (submit ops validate profiles f) refl v

    either-Ends :
        (n : TextInput) (b : Bool) (f g : ProfileForm × FormAction)
        → Ends n f
        → Ends n g
        → Ends n (if b then f else g)
    either-Ends n true f g h k = h
    either-Ends n false f g h k = k

    form_char-IsLocked :
        (answers : Answers) (c : ℕ) (control : Bool) (n : TextInput) (f : ProfileForm)
        → IsLocked n f
        → IsLocked n (form_char ops validate answers c control f)
    form_char-IsLocked answers c control n f v =
        either-IsLocked n ((c == b' ') && not (has_text (active_text f))) _ _
          (toggle_active-IsLocked n f v)
          (either-IsLocked n ((c == b'a') && control) _ _ (edit_text-IsLocked clear n f v) (
            either-IsLocked n ((c == b'v') && control) _ _
              (paste_from_clipboard-IsLocked answers.clipboard n f v)
              (either-IsLocked n control _ _ v
                (edit_text-IsLocked (runs (insert (c ∷ []))) n f v))))

    form_key-Ends :
        (answers : Answers) (code : KeyCode) (shift control : Bool)
        (profiles : List StoredConnectionProfile) (n : TextInput) (f : ProfileForm)
        → IsLocked n f
        → Ends n (form_key ops validate answers code shift control profiles f)
    form_key-Ends answers esc shift control profiles n f v = v
    form_key-Ends answers tab shift control profiles n f v = move_field-IsLocked shift n f v
    form_key-Ends answers back_tab shift control profiles n f v = move_field-IsLocked true n f v
    form_key-Ends answers up shift control profiles n f v = move_field-IsLocked true n f v
    form_key-Ends answers down shift control profiles n f v = move_field-IsLocked false n f v
    form_key-Ends answers enter shift control profiles n f v =
        either-Ends n (eq_field f.active_field mode_field) (toggle_active ops f, continue)
          (submit_form ops validate profiles f) (toggle_active-IsLocked n f v)
          (submit_form-Ends profiles n f v)
    form_key-Ends answers home shift control profiles n f v = edit_text-IsLocked _ n f v
    form_key-Ends answers end shift control profiles n f v = edit_text-IsLocked _ n f v
    form_key-Ends answers left shift control profiles n f v = edit_text-IsLocked move_left n f v
    form_key-Ends answers right shift control profiles n f v = edit_text-IsLocked move_right n f v
    form_key-Ends answers backspace_key shift control profiles n f v =
        edit_text-IsLocked (runs backspace) n f v
    form_key-Ends answers delete_key shift control profiles n f v =
        edit_text-IsLocked (runs delete) n f v
    form_key-Ends answers (char c) shift control profiles n f v =
        form_char-IsLocked answers c control n f v
    form_key-Ends answers other shift control profiles n f v = v

    -- Keys pressed in a form until it is left: by a quit, `none`, or with the action.
    abbrev pub after_key :
        (ProfileForm → Option (ProfileForm × FormAction))
        → Option (ProfileForm × FormAction)
        → Option (ProfileForm × FormAction)
    after_key rest none = none
    after_key rest (some (f, continue)) = rest f
    after_key rest (some (f, back)) = some (f, back)
    after_key rest (some (f, finish r)) = some (f, finish r)

    abbrev pub press_keys :
        List (Answers × KeyEvent)
        → List StoredConnectionProfile
        → ProfileForm
        → Option (ProfileForm × FormAction)
    press_keys [] profiles f = some (f, continue)
    press_keys ((answers, key) ∷ keys) profiles f =
        after_key (λ g. press_keys keys profiles g)
          (handle_form_key ops validate answers key profiles f)

    handled-Ends :
        (quits : Bool) (n : TextInput) (done out : ProfileForm × FormAction)
        → Ends n done
        → (if quits then none else some done) ≡ some out
        → Ends n out
    handled-Ends true n done out e h = absurd (cc)
    handled-Ends false n done out e h = let same : done ≡ out = cc in rw (← same) e

    after_key-Ends :
        (rest : ProfileForm → Option (ProfileForm × FormAction)) (n : TextInput)
        (o : Option (ProfileForm × FormAction)) (out : ProfileForm × FormAction)
        → ((g : ProfileForm × FormAction) → o ≡ some g → Ends n g)
        → ((g : ProfileForm) → IsLocked n g → rest g ≡ some out → Ends n out)
        → after_key rest o ≡ some out
        → Ends n out
    after_key-Ends rest n none out e k h = absurd (cc)
    after_key-Ends rest n (some (f, continue)) out e k h = k f (e (f, continue) refl) h
    after_key-Ends rest n (some (f, back)) out e k h =
        let same : ◌≡◌ {A = ProfileForm × FormAction} (f, back) out = cc in
        rw (← same) (e (f, back) refl)
    after_key-Ends rest n (some (f, finish r)) out e k h =
        let same : ◌≡◌ {A = ProfileForm × FormAction} (f, finish r) out = cc in
        rw (← same) (e (f, finish r) refl)

    handle_form_key-Ends :
        (answers : Answers) (key : KeyEvent) (profiles : List StoredConnectionProfile)
        (n : TextInput) (f : ProfileForm) (out : ProfileForm × FormAction)
        → IsLocked n f
        → handle_form_key ops validate answers key profiles f ≡ some out
        → Ends n out
    unfolding handle_form_key
    handle_form_key-Ends answers key profiles n f out v h =
        handled-Ends (is_quit key) n _ out
          (form_key-Ends answers key.code key.shift key.control profiles n f v) h

    -- Whatever keys are pressed in the form of a saved profile, its name stays as it was, it stays
    -- in URL mode, and if the form ends with a profile, that has the very name of the saved one.
    pub press_keys-Ends :
        (keys : List (Answers × KeyEvent)) (profiles : List StoredConnectionProfile) (n : TextInput)
        (f : ProfileForm) (out : ProfileForm × FormAction)
        → IsLocked n f
        → press_keys keys profiles f ≡ some out
        → Ends n out
    press_keys-Ends [] profiles n f out v h =
        let same : ◌≡◌ {A = ProfileForm × FormAction} (f, continue) out = cc in rw (← same) v
    press_keys-Ends ((answers, key) ∷ keys) profiles n f out v h =
        after_key-Ends (λ g. press_keys keys profiles g) n
          (handle_form_key ops validate answers key profiles f) out
          (λ g. handle_form_key-Ends answers key profiles n f g v)
          (λ g w. press_keys-Ends keys profiles n g out w) h
