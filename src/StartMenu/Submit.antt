-- ===== src/StartMenu/Submit.antt =====
-- What a form is submitted for, and what switching its mode keeps
-- (crates/app/src/bootstrap/start_menu/form.rs).
use poqi.Prelude.{
  ◌≡◌, ◌≢◌, refl, ap, ◌∙◌, inl, inr, Bool, true, false, ◌&&◌, ◌||◌, not, Option, none, List, [],
  ◌∷◌, arith, if_false, Option-cases, eq_text, eq_text_refl,
}
use poqi.TextInput.Utf8.{Line}
use poqi.StartMenu.Field.{is_empty, trim}
use poqi.StartMenu.Form.{
  ProfileForm, FormError, Result, ok, err, ◌>>=◌, ◌>>◌, refuse_if, empty_name, name_taken, UrlOps,
  StoredConnectionProfile, ProfileSelectionResult, create_new, taken, submitted_name, valid_uri,
  connection_uri, submit,
}

-- No saved profile has the name.
abbrev pub NotTaken : Line → List StoredConnectionProfile → Type 0
NotTaken name [] = Unit {0}
NotTaken name (p ∷ ps) = (p.name ≢ name) × NotTaken name ps

not_taken :
    (name : Line) (ps : List StoredConnectionProfile) → taken name ps ≡ false → NotTaken name ps
not_taken name [] h = tt
not_taken name (p ∷ ps) h = (
  λ e. cc (
    ap (λ (x : Line). eq_text x name) e ∙ eq_text_refl name,
    first_false (eq_text p.name name) (taken name ps) h,
  ),
  not_taken name ps (rest_false (eq_text p.name name) (taken name ps) h),
)
  where
    first_false : (a b : Bool) → (a || b) ≡ false → a ≡ false
    first_false true b h = cc
    first_false false b h = refl

    rest_false : (a b : Bool) → (a || b) ≡ false → b ≡ false
    rest_false true b h = cc
    rest_false false b h = h

module _ (ops : UrlOps) (validate : Line → Option Line) where
  -- What has passed when a form is submitted.
  pub record Passed (profiles : List StoredConnectionProfile) (f : ProfileForm)
      (r : ProfileSelectionResult) : Type 0 where
    pub uri : Line
    pub result : r ≡ create_new (submitted_name f) uri f
    pub named : is_empty (submitted_name f) ≡ false
    pub fresh : (not f.name_locked && taken (submitted_name f) profiles) ≡ false
    pub connects : connection_uri ops f ≡ ok uri
    pub valid : validate uri ≡ none

  valid_uri-ok : (uri : Line) → valid_uri validate uri ≡ ok tt → validate uri ≡ none
  valid_uri-ok uri h = elim (Option-cases (validate uri)) [
    | inl n ↦ n
    | inr (m, e) ↦ absurd (ground (arith, h, e))
  ]

  step_passed :
      {A B : Type 0} (step : Result A) (rest : A → Result B) (end : B)
      → (step >>= rest) ≡ ok end
      → (mid : A) × (step ≡ ok mid) × (rest mid ≡ ok end)
  step_passed (err problem) rest end h = absurd (cc)
  step_passed (ok value) rest end h = (value, refl, h)

  check_passed :
      {B : Type 0} (check : Result (Unit {0})) (rest : Result B) (end : B)
      → (check >> rest) ≡ ok end
      → (check ≡ ok tt) × (rest ≡ ok end)
  check_passed (err problem) rest end h = absurd (cc)
  check_passed (ok tt) rest end h = (refl, h)

  refuse_if-ok : (b : Bool) (e : FormError) (u : Unit {0}) → refuse_if b e ≡ ok u → b ≡ false
  refuse_if-ok true e u h = cc
  refuse_if-ok false e u h = refl

  pub submit-Passed :
      (profiles : List StoredConnectionProfile) (f : ProfileForm) (r : ProfileSelectionResult)
      → submit ops validate profiles f ≡ ok r
      → Passed profiles f r
  unfolding submit
  submit-Passed profiles f r h =
      let (e1, h1) = check_passed (refuse_if (is_empty (submitted_name f)) empty_name) _ _ h in
      let (e2, h2) =
        check_passed
          (refuse_if (not f.name_locked && taken (submitted_name f) profiles)
            (name_taken (submitted_name f)))
          _ _ h1 in
      let (uri, e3, h3) = step_passed (connection_uri ops f) _ _ h2 in
      let (e4, h4) = check_passed (valid_uri validate uri) _ _ h3 in
      record {
        uri = uri;
        result = cc;
        named = refuse_if-ok _ _ _ e1;
        fresh = refuse_if-ok _ _ _ e2;
        connects = e3;
        valid = valid_uri-ok uri e4;
      }

  -- A form that is submitted for a new profile has a name that is not empty and that no saved
  -- profile has, and its connection URL, which is the one that the result holds, was accepted by
  -- the check of the database.
  pub submit-Fresh :
      (profiles : List StoredConnectionProfile) (f : ProfileForm) (r : ProfileSelectionResult)
      → f.name_locked ≡ false
      → submit ops validate profiles f ≡ ok r
      → (uri : Line) × (r ≡ create_new (trim f.name.value) uri f)
        × (is_empty (trim f.name.value) ≡ false)
        × NotTaken (trim f.name.value) profiles
        × (connection_uri ops f ≡ ok uri)
        × (validate uri ≡ none)
  submit-Fresh profiles f r unlocked h =
      let p = submit-Passed profiles f r h in
      let name : submitted_name f ≡ trim f.name.value = if_false f.name_locked _ _ unlocked in
      (
        p.uri,
        rw (← name) p.result,
        rw (← name) p.named,
        rw (← name) (not_taken (submitted_name f) profiles (ground (arith, p.fresh, unlocked))),
        p.connects,
        p.valid,
      )
