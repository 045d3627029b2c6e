-- ===== src/Cancellation/Safety.antt =====
-- What holds of every schedule of operations and cancellations.
use poqi.Prelude.{
  ℕ, ◌<◌, ◌≡◌, ◌≢◌, refl, Bool, true, false, ◌||◌, Option, none, some, List, [], ◌∷◌, ◌==◌, arith,
  ◌⊎◌, inl, inr, Option-cases,
}
use poqi.Cancellation.Registry.{OperationStatus, begin, cancel_current, retire, activate}
use poqi.Cancellation.System.{
  Phase, absent, acquiring, failed, refused, running, ended, System, Event, start, acquire_error,
  acquire, finish, cancel, init, on_acquire, on_finish, on_error, on_cancel, step, run,
  if_acquiring, if_running,
}

abbrev pub logged : ℕ → List ℕ → Bool
logged a [] = false
logged a (b ∷ bs) = (a == b) || logged a bs

-- The operation runs, or has ended with its client discarded.
abbrev pub IsTainted : Phase → Type 0
IsTainted p = (p ≡ running) ⊎ (p ≡ ended true)

module _ {Token : Type 0} where
  abbrev has_token : Option Token → Bool
  has_token none = false
  has_token (some t) = true

  -- What the status of an operation is in each phase.
  abbrev Coherent : Phase → OperationStatus Token → Type 0
  Coherent absent st = Unit {0}
  Coherent acquiring st = (st.retired ≡ false) × (has_token st.token ≡ false)
  Coherent failed st = (st.retired ≡ true) × (has_token st.token ≡ false)
  Coherent refused st = (st.retired ≡ true) × (has_token st.token ≡ false)
  Coherent running st = (st.retired ≡ false) × (has_token st.token ≡ true)
  Coherent (ended d) st = (st.retired ≡ true) × (st.canceled ≡ d)

  abbrev pub status_of : System Token → ℕ → OperationStatus Token
  status_of s a = (s.registry.store a).status

  pub record IsValid (s : System Token) : Type 0 where
    pub coherent : (a : ℕ) → Coherent (s.phase a) (status_of s a)
    pub known : (a : ℕ) → a < s.registry.count → s.phase a ≢ absent
    pub active :
        (a : ℕ)
        → s.registry.active ≡ some a
        → (a < s.registry.count) × ((status_of s a).retired ≡ false)
    pub requests :
        (a : ℕ)
        → logged a s.sent ≡ true
        → (a < s.registry.count)
          × ((status_of s a).canceled ≡ true)
          × (has_token (status_of s a).token ≡ true)

  pub init-IsValid : IsValid init
  init-IsValid = record {
    coherent = λ a. tt;
    known = λ a h. absurd (omega arith);
    active = λ a e. cc;
    requests = λ a e. cc;
  }

  start-IsValid : (s : System Token) → IsValid s → IsValid (step start s)
  unfolding step begin
  start-IsValid s v = record {
    coherent = λ a. ground (arith, v.coherent a);
    known = λ a h. ground (arith, v.known a);
    active = λ a e. ground (arith, v.active a);
    requests = λ a e. ground (arith, v.requests a);
  }

  on_error-IsValid :
      (b : ℕ) (s : System Token) → IsValid s → s.phase b ≡ acquiring → IsValid (on_error b s)
  unfolding on_error retire
  on_error-IsValid b s v p = record {
    coherent = λ a. ground (arith, v.coherent a, v.coherent b);
    known = λ a h. ground (arith, v.known a);
    active = λ a e. ground (arith, v.active a);
    requests = λ a e. ground (arith, v.requests a);
  }

  on_finish-IsValid :
      (b : ℕ) (s : System Token) → IsValid s → s.phase b ≡ running → IsValid (on_finish b s)
  unfolding on_finish retire
  on_finish-IsValid b s v p = record {
    coherent = λ a. ground (arith, v.coherent a, v.coherent b);
    known = λ a h. ground (arith, v.known a);
    active = λ a e. ground (arith, v.active a);
    requests = λ a e. ground (arith, v.requests a);
  }

  on_acquire-IsValid :
      (b : ℕ) (t : Token) (s : System Token)
      → IsValid s
      → s.phase b ≡ acquiring
      → IsValid (on_acquire b t s)
  unfolding on_acquire retire activate
  on_acquire-IsValid b t s v p = record {
    coherent = λ a. ground (arith, v.coherent a, v.coherent b);
    known = λ a h. ground (arith, v.known a);
    active = λ a e. ground (arith, v.active a);
    requests = λ a e. ground (arith, v.requests a);
  }

  on_cancel-IsValid : (s : System Token) → IsValid s → IsValid (on_cancel s)
  unfolding on_cancel cancel_current
  on_cancel-IsValid s v = elim (Option-cases s.registry.active) [
    | inl e ↦ rw (e, cancel_current) v
    | inr (b, e) ↦ record {
      coherent = λ a. ground (arith, v.coherent a, v.coherent b, v.active b);
      known = λ a h. ground (arith, v.known a, v.active b);
      active = λ a e'. ground (arith, v.active a, v.active b);
      requests = λ a e'. ground (arith, v.requests a, v.active b);
    }
  ]

  pub if_acquiring-cases :
      (P : System Token → Type 0) (p : Phase) (x y : System Token)
      → (p ≡ acquiring → P x)
      → P y
      → P (if_acquiring p x y)
  if_acquiring-cases P acquiring x y f h = f refl
  if_acquiring-cases P _ x y f h = h

  pub if_running-cases :
      (P : System Token → Type 0) (p : Phase) (x y : System Token)
      → (p ≡ running → P x)
      → P y
      → P (if_running p x y)
  if_running-cases P running x y f h = f refl
  if_running-cases P _ x y f h = h

  pub step-IsValid : (e : Event Token) (s : System Token) → IsValid s → IsValid (step e s)
  unfolding step
  step-IsValid start s v = start-IsValid s v
  step-IsValid (acquire_error b) s v =
      if_acquiring-cases IsValid (s.phase b) _ s (on_error-IsValid b s v) v
  step-IsValid (acquire b t) s v =
      if_acquiring-cases IsValid (s.phase b) _ s (on_acquire-IsValid b t s v) v
  step-IsValid (finish b) s v = if_running-cases IsValid (s.phase b) _ s (on_finish-IsValid b s v) v
  step-IsValid cancel s v = on_cancel-IsValid s v

  pub run-IsValid : (es : List (Event Token)) (s : System Token) → IsValid s → IsValid (run es s)
  unfolding run
  run-IsValid [] s v = v
  run-IsValid (e ∷ es) s v = run-IsValid es (step e s) (step-IsValid e s v)

  IsTainted-of :
      (p : Phase) (st : OperationStatus Token)
      → Coherent p st
      → p ≢ absent
      → st.canceled ≡ true
      → has_token st.token ≡ true
      → IsTainted p
  IsTainted-of p st c k d t = ground arith

  IsTainted-of_logged :
      (s : System Token) (a : ℕ) → IsValid s → logged a s.sent ≡ true → IsTainted (s.phase a)
  IsTainted-of_logged s a v h =
      let (lt, c, t) = v.requests a h in
      IsTainted-of (s.phase a) (status_of s a) (v.coherent a) (v.known a lt) c t

  -- In every schedule, an operation for which a cancel request was sent is one that runs, or that
  -- has ended with its client discarded: no client that a request can still reach goes back to
  -- the pool.
  pub logged-IsTainted :
      (es : List (Event Token)) (a : ℕ)
      → logged a (run es init).sent ≡ true
      → IsTainted ((run es init).phase a)
  logged-IsTainted es a h = IsTainted-of_logged (run es init) a (run-IsValid es init init-IsValid) h
