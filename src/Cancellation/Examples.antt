-- ===== src/Cancellation/Examples.antt =====
-- Schedules of operations and cancellations.
use poqi.Prelude.{ℕ, ◌≡◌, refl, true, List, [], ◌∷◌}
use poqi.Cancellation.Registry.{pending, activate, begin, cancel_current}
use poqi.Cancellation.System.{Event, start, acquire, finish, cancel, init, step, run}
use poqi.Cancellation.Safety.{logged, IsTainted, logged-IsTainted}
use poqi.Cancellation.Pending.{NotStarted, pending-NotStarted}

-- An operation is canceled while it runs, and ends.
abbrev canceled_run : List (Event ℕ)
canceled_run = start ∷ acquire 0 7 ∷ cancel ∷ finish 0 ∷ []

canceled_run-logged : logged 0 (run canceled_run init).sent ≡ true
unfolding run step activate begin cancel_current
canceled_run-logged = refl

logged-IsTainted_example : IsTainted ((run canceled_run init).phase 0)
logged-IsTainted_example = logged-IsTainted canceled_run 0 canceled_run-logged

abbrev waiting : List (Event ℕ)
waiting = start ∷ []

abbrev afterwards : List (Event ℕ)
afterwards = acquire 0 7 ∷ finish 0 ∷ []

started : (cancel_current (run waiting init).registry).1 ≡ pending 0
unfolding run step begin cancel_current
started = refl

-- An operation is canceled while it waits for its client.
pending-NotStarted_example : NotStarted ((run afterwards (step cancel (run waiting init))).phase 0)
pending-NotStarted_example = pending-NotStarted waiting afterwards 0 started
