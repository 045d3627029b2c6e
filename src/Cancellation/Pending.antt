-- ===== src/Cancellation/Pending.antt =====
-- A cancellation that comes before the operation has its client.
use poqi.Prelude.{ℕ, ◌<◌, ◌≡◌, true, List, [], ◌∷◌, arith, ◌⊎◌, inl, inr, Option-cases}
use poqi.Cancellation.Registry.{OperationStatus, pending, begin, cancel_current, retire, activate}
use poqi.Cancellation.System.{
  Phase, acquiring, failed, refused, System, Event, start, acquire_error, acquire, finish, cancel,
  init, on_acquire, on_finish, on_error, on_cancel, step, run,
}
use poqi.Cancellation.Safety.{
  status_of, IsValid, init-IsValid, run-IsValid, if_acquiring-cases, if_running-cases,
}

-- The operation waits, or was given up before it began.
abbrev pub NotStarted : Phase → Type 0
NotStarted p = (p ≡ acquiring) ⊎ (p ≡ failed) ⊎ (p ≡ refused)

module _ {Token : Type 0} where
  -- The operation has not got its client, and has been canceled.
  abbrev IsDoomed : Phase → OperationStatus Token → Type 0
  IsDoomed acquiring st = st.canceled ≡ true
  IsDoomed failed st = Unit {0}
  IsDoomed refused st = Unit {0}
  IsDoomed _ st = ⊥

  record Doomed (s : System Token) (a : ℕ) : Type 0 where
    below : a < s.registry.count
    doomed : IsDoomed (s.phase a) (status_of s a)

  step-Doomed : (e : Event Token) (s : System Token) (a : ℕ) → Doomed s a → Doomed (step e s) a
  unfolding step begin on_error on_acquire on_finish on_cancel cancel_current retire activate
  step-Doomed start s a d = ground arith
  step-Doomed (acquire_error b) s a d =
      if_acquiring-cases (λ x. Doomed x a) (s.phase b) _ s (λ e. ground arith) d
  step-Doomed (acquire b t) s a d =
      if_acquiring-cases (λ x. Doomed x a) (s.phase b) _ s (λ e. ground arith) d
  step-Doomed (finish b) s a d =
      if_running-cases (λ x. Doomed x a) (s.phase b) _ s (λ e. ground arith) d
  step-Doomed cancel s a d = ground arith

  run-Doomed :
      (es : List (Event Token)) (s : System Token) (a : ℕ) → Doomed s a → Doomed (run es s) a
  unfolding run
  run-Doomed [] s a d = d
  run-Doomed (e ∷ es) s a d = run-Doomed es (step e s) a (step-Doomed e s a d)

  NotStarted-of : (p : Phase) (st : OperationStatus Token) → IsDoomed p st → NotStarted p
  NotStarted-of p st d = ground arith

  Doomed-cancel :
      (s : System Token) (a : ℕ)
      → IsValid s
      → (cancel_current s.registry).1 ≡ pending a
      → Doomed (step cancel s) a
  unfolding step on_cancel cancel_current
  Doomed-cancel s a v e = elim (Option-cases s.registry.active) [
    | inl n ↦ ground arith
    | inr (b, n) ↦
        let known = v.known b in
        let act = v.active b n in let c = v.coherent b in ground (arith, v.known b act.0)
  ]

  -- If `cancel_current` answers, anywhere in a schedule, that the active operation is still without
  -- a client, then whatever happens afterwards that operation never runs.
  pub pending-NotStarted :
      (earlier later : List (Event Token)) (a : ℕ)
      → (cancel_current (run earlier init).registry).1 ≡ pending a
      → NotStarted ((run later (step cancel (run earlier init))).phase a)
  pending-NotStarted earlier later a e =
      let s = run earlier init in
      let d =
        run-Doomed later (step cancel s) a
          (Doomed-cancel s a (run-IsValid earlier init init-IsValid) e) in
      NotStarted-of _ _ d.doomed
