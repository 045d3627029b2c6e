-- ===== src/StartMenu/Fields.antt =====
-- Moving through the fields of the form, and switching its mode
-- (crates/app/src/bootstrap/start_menu/form.rs).
use poqi.Prelude.{
  Option, some, none, if◌then◌else◌, ◌≡◌, refl, ap, inl, inr, Bool, true, false, not, List, [], ◌∷◌,
  arith, if_true, if_false, Bool-cases, get_elem?, length, ◌&&◌, ◌||◌,
}
use poqi.TextInput.Utf8.{Line}
use poqi.StartMenu.Field.{is_empty, trim, input_new}
use poqi.StartMenu.Form.{
  uri_of_mode, connection_uri, empty_url, build_structured_url, CreationField, ConnectionMode, url,
  structured, ProfileForm, fields_of, eq_field, step_index, position_or_zero, or_field, move_field,
  UrlOps, switch_mode, toggle_mode, structured_uri, keep_uri, is_url, FormError, locked_mode,
  clear_url, Result, ok, err, mode_field,
}

abbrev pub is_among : CreationField → List CreationField → Bool
is_among a [] = false
is_among a (x ∷ xs) = eq_field x a || is_among a xs

-- The field that `move_field` makes active.
abbrev next_field : Bool → ConnectionMode → CreationField → CreationField
next_field backwards mode active =
    or_field
      (get_elem? (fields_of mode) (
        step_index backwards (position_or_zero active 0 (fields_of mode))
          (length (fields_of mode))))
      active

next_field-back :
    (b : Bool) (mode : ConnectionMode) (active : CreationField)
    → is_among active (fields_of mode) ≡ true
    → next_field (not b) mode (next_field b mode active) ≡ active
next_field-back true url CreationField.name_field h = refl
next_field-back _ _ _ h = ground arith

-- In a form whose active field is one of those shown, a step to the next field and one back, or
-- the other way round, change nothing.
pub move_field-back :
    (b : Bool) (f : ProfileForm)
    → is_among f.active_field (fields_of f.mode) ≡ true
    → move_field (not b) (move_field b f) ≡ f
unfolding move_field
move_field-back b f h =
    ap (λ (a : CreationField). record f { active_field = a })
      (next_field-back b f.mode f.active_field h)

module _ (ops : UrlOps) where
  -- The form behind a switch of the mode, by what it was before.
  pub data Switched (f : ProfileForm) : ProfileForm → Type 0 where
    stays_saved : f.name_locked ≡ true → Switched f (record f { error = some locked_mode })
    stays_url :
        f.name_locked ≡ false
        → f.mode ≡ url
        → is_empty (trim f.uri.value) ≡ false
        → Switched f (record f { error = some clear_url })
    to_fields :
        f.name_locked ≡ false
        → f.mode ≡ url
        → is_empty (trim f.uri.value) ≡ true
        → Switched f (record f { mode = structured; active_field = mode_field; error = none })
    to_built_url :
        (uri : Line)
        → f.name_locked ≡ false
        → f.mode ≡ structured
        → structured_uri ops f ≡ ok uri
        → Switched f (record f {
          uri = record { value = uri; cursor = length uri };
          mode = url;
          active_field = mode_field;
          error = none;
        })
    to_old_url :
        (e : FormError)
        → f.name_locked ≡ false
        → f.mode ≡ structured
        → structured_uri ops f ≡ err e
        → Switched f (record f { mode = url; active_field = mode_field; error = none })

  from_fields-Switched :
      (f : ProfileForm) (built : Result Line)
      → f.name_locked ≡ false
      → f.mode ≡ structured
      → structured_uri ops f ≡ built
      → Switched f (record f {
        uri = keep_uri built f.uri;
        mode = url;
        active_field = mode_field;
        error = none;
      })
  unfolding input_new
  from_fields-Switched f (ok uri) h k e = to_built_url uri h k e
  from_fields-Switched f (err problem) h k e = to_old_url problem h k e

  unlocked-Switched :
      (m : ConnectionMode) (blank : Bool) (f : ProfileForm)
      → f.name_locked ≡ false
      → f.mode ≡ m
      → is_empty (trim f.uri.value) ≡ blank
      → Switched f (
          if is_url m && not blank
          then record f { error = some clear_url }
          else switch_mode ops m f)
  unlocked-Switched url true f h k e = to_fields h k e
  unlocked-Switched url false f h k e = stays_url h k e
  unlocked-Switched structured true f h k e = from_fields-Switched f (structured_uri ops f) h k refl
  unlocked-Switched structured false f h k e =
      from_fields-Switched f (structured_uri ops f) h k refl

  toggle_mode_locked :
      (f : ProfileForm)
      → f.name_locked ≡ true
      → toggle_mode ops f ≡ record f { error = some locked_mode }
  unfolding toggle_mode
  toggle_mode_locked f h = if_true f.name_locked _ _ h

  toggle_mode_unlocked :
      (f : ProfileForm)
      → f.name_locked ≡ false
      → toggle_mode ops f ≡ (
          if is_url f.mode && not (is_empty (trim f.uri.value))
          then record f { error = some clear_url }
          else switch_mode ops f.mode f)
  unfolding toggle_mode
  toggle_mode_unlocked f h = if_false f.name_locked _ _ h

  -- A connection URL of the form before and one of it then: no URL gets lost.
  pub data Keeps : Result Line → Result Line → Type 0 where
    had_none : {e : FormError} {r : Result Line} → Keeps (err e) r
    same : {uri : Line} → Keeps (ok uri) (ok uri)
    trimmed : {uri : Line} → Keeps (ok uri) (ok (trim uri))
    was_blank : {uri : Line} {r : Result Line} → is_empty (trim uri) ≡ true → Keeps (ok uri) r

  uri_of_mode_error :
      (m : ConnectionMode) (f : ProfileForm) (e : Option FormError)
      → uri_of_mode ops m (record f { error = e }) ≡ uri_of_mode ops m f
  unfolding structured_uri build_structured_url
  uri_of_mode_error url f e = refl
  uri_of_mode_error structured f e = refl

  Keeps-refl : (r : Result Line) → Keeps r r
  Keeps-refl (ok uri) = same
  Keeps-refl (err e) = had_none

  connection_uri_error :
      (f : ProfileForm) (e : Option FormError)
      → Keeps (connection_uri ops f) (connection_uri ops (record f { error = e }))
  unfolding connection_uri
  connection_uri_error f e =
      rw (uri_of_mode_error f.mode f e) (Keeps-refl (uri_of_mode ops f.mode f))

  trimmed-Keeps :
      (uri : Line) (blank : Bool)
      → is_empty (trim uri) ≡ blank
      → Keeps (ok uri) (if blank then err empty_url else ok (trim uri))
  trimmed-Keeps uri true h = was_blank h
  trimmed-Keeps uri false h = trimmed

  Switched-Keeps :
      (f g : ProfileForm) → Switched f g → Keeps (connection_uri ops f) (connection_uri ops g)
  unfolding connection_uri
  Switched-Keeps f _ (stays_saved _) = connection_uri_error f (some locked_mode)
  Switched-Keeps f _ (stays_url _ _ _) = connection_uri_error f (some clear_url)
  Switched-Keeps f _ (to_fields h k e) = rw (k, e) had_none
  Switched-Keeps f _ (to_built_url uri h k e) = rw (k, e) (trimmed-Keeps uri _ refl)
  Switched-Keeps f _ (to_old_url problem h k e) = rw (k, e) had_none

  toggle_mode_lem : (f : ProfileForm) → Switched f (toggle_mode ops f)
  toggle_mode_lem f = elim (Bool-cases f.name_locked) [
    | inl y ↦ rw (toggle_mode_locked f y) (stays_saved y)
    | inr n ↦
        rw (toggle_mode_unlocked f n)
          (unlocked-Switched f.mode (is_empty (trim f.uri.value)) f n refl refl)
  ]

  -- Switching the mode changes nothing but these: the form of a saved profile, and one in URL mode
  -- whose URL is not blank, get an error and stay in their mode. Otherwise the mode is the other
  -- one, its field active and the error gone; and on the way to URL mode the URL becomes what
  -- `structured_uri` builds, with the cursor behind it, if it builds one, and else stays as it was.
  -- And the connection URL that the form had before, if it had one and that is not blank, is the
  -- one that it has then, maybe without the white space around it.
  pub toggle_mode-Switched :
      (f : ProfileForm)
      → Switched f (toggle_mode ops f)
        × Keeps (connection_uri ops f) (connection_uri ops (toggle_mode ops f))
  toggle_mode-Switched f =
      let switched = toggle_mode_lem f in (switched, Switched-Keeps f (toggle_mode ops f) switched)
