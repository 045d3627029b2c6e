-- ===== src/Cancellation/System.antt =====
-- The operations that go through `Database::with_client` (crates/db/src/database.rs) and the drop
-- of `PooledClient` (crates/db/src/client.rs), as steps that any number of tasks take in any order.
use poqi.Prelude.{ℕ, Bool, List, [], ◌∷◌, if◌then◌else◌}
use poqi.Cancellation.Registry.{
  Registry, update, registry_default, begin, Cancel, unavailable, pending, send, cancel_current,
  retire, activate,
}

-- How far the operation at an address has come.
pub data Phase : Type 0 where
  -- not begun
  absent : Phase
  -- begun, and waiting for a client of the pool
  acquiring : Phase
  -- no client was to be had
  failed : Phase
  -- `DatabaseError::OperationCanceled`: a client came, and its operation was not started
  refused : Phase
  -- the operation runs with its client
  running : Phase
  -- ended; the flag says whether the client was discarded instead of going back to the pool
  ended : Bool → Phase

-- The log `sent` holds the operations for which a cancel request was sent to the server.
pub record System (Token : Type 0) : Type 0 where
  pub registry : Registry Token
  pub phase : ℕ → Phase
  pub sent : List ℕ

pub data Event (Token : Type 0) : Type 0 where
  -- `with_client` begins
  start : Event Token
  -- the connection or the pool gives no client
  acquire_error : ℕ → Event Token
  -- the pool gives a client with this cancel token
  acquire : ℕ → Token → Event Token
  -- the operation's future ends or is dropped, and the client with it
  finish : ℕ → Event Token
  -- `cancel_current`
  cancel : Event Token

module _ {Token : Type 0} where
  abbrev pub init : System Token
  init = record { registry = registry_default; phase = λ a. absent; sent = [] }

  abbrev with_phase : System Token → ℕ → Phase → Registry Token → System Token
  with_phase s a p r = record s { registry = r; phase = update s.phase a p }

  -- A failed `activate` is followed by `retire`, and by the guard's own on its drop.
  unfoldable pub on_acquire : ℕ → Token → System Token → System Token
  on_acquire a t s =
      let (r, activated) = activate a t s.registry in
      if activated
      then with_phase s a running r
      else with_phase s a refused (retire a (retire a r).0).0

  -- The drop of the client retires first, and the guard once more on its own drop.
  unfoldable pub on_finish : ℕ → System Token → System Token
  on_finish a s =
      let (r, canceled) = retire a s.registry in with_phase s a (ended canceled) (retire a r).0

  unfoldable pub on_error : ℕ → System Token → System Token
  on_error a s = with_phase s a failed (retire a s.registry).0

  log_request : Cancel Token → List ℕ → List ℕ
  log_request unavailable log = log
  log_request (pending a) log = log
  log_request (send a t) log = a ∷ log

  unfoldable pub on_cancel : System Token → System Token
  unfolding log_request
  on_cancel s =
      let (r, outcome) = cancel_current s.registry in
      record s { registry = r; sent = log_request outcome s.sent }

  abbrev pub if_acquiring : Phase → System Token → System Token → System Token
  if_acquiring acquiring x y = x
  if_acquiring _ x y = y

  abbrev pub if_running : Phase → System Token → System Token → System Token
  if_running running x y = x
  if_running _ x y = y

  -- An event that does not fit the phase of its operation does nothing.
  unfoldable pub step : Event Token → System Token → System Token
  unfolding on_acquire on_finish on_error on_cancel
  step start s = with_phase s s.registry.count acquiring (begin s.registry)
  step (acquire_error a) s = if_acquiring (s.phase a) (on_error a s) s
  step (acquire a t) s = if_acquiring (s.phase a) (on_acquire a t s) s
  step (finish a) s = if_running (s.phase a) (on_finish a s) s
  step cancel s = on_cancel s

  -- A schedule of the tasks.
  unfoldable pub run : List (Event Token) → System Token → System Token
  run [] s = s
  run (e ∷ es) s = run es (step e s)
