-- ===== src/Cancellation/Registry.antt =====
-- `CancellationRegistry` and `CancellationGuard` (crates/db/src/cancellation.rs). The states that
-- the registry and the guards share by `Arc` live in a store of operations by address. Each method
-- holds the locks that it needs from its first read to its last write, so it is one step. The
-- database's cancel token, with its TLS choice, is a parameter.
use poqi.Prelude.{
  ℕ, suc, ◌+◌, ◌%◌, ◌^◌, Bool, true, false, ◌||◌, Option, none, some, ◌==◌, if◌then◌else◌,
}

pub record OperationStatus (Token : Type 0) : Type 0 where
  pub canceled : Bool
  pub retired : Bool
  pub token : Option Token

pub record OperationState (Token : Type 0) : Type 0 where
  pub generation : ℕ
  pub status : OperationStatus Token

-- Addresses up to `count` are allocated; `active` is the address of the registry's state.
pub record Registry (Token : Type 0) : Type 0 where
  pub next_generation : ℕ
  pub active : Option ℕ
  pub count : ℕ
  pub store : ℕ → OperationState Token

abbrev pub update {ℓ} : {A : Type ℓ} → (ℕ → A) → ℕ → A → ℕ → A
update f a v b = if b == a then v else f b

-- What `cancel_current` goes on to do once it has let go of its locks.
pub data Cancel (Token : Type 0) : Type 0 where
  -- `Ok(false)`
  unavailable : Cancel Token
  -- `Ok(true)`, with no request sent
  pending : ℕ → Cancel Token
  -- a request sent with the token, and `Ok(true)` or the error of sending it
  send : ℕ → Token → Cancel Token

module _ {Token : Type 0} where
  abbrev fresh_status : OperationStatus Token
  fresh_status = record { canceled = false; retired = false; token = none }

  -- `CancellationRegistry::default`
  abbrev pub registry_default : Registry Token
  registry_default = record {
    next_generation = 1;
    active = none;
    count = 0;
    store = λ a. record { generation = 0; status = fresh_status };
  }

  -- The new state is at the address `count`. `fetch_add` wraps around.
  unfoldable pub begin : Registry Token → Registry Token
  begin r = record {
    next_generation = (r.next_generation + 1) % 2 ^ 64;
    active = some r.count;
    count = suc r.count;
    store =
        update r.store r.count (record { generation = r.next_generation; status = fresh_status });
  }

  abbrev set_status : Registry Token → ℕ → OperationStatus Token → Registry Token
  set_status r a st = record r { store = update r.store a (record (r.store a) { status = st }) }

  request : ℕ → Option Token → Cancel Token
  request a none = pending a
  request a (some t) = send a t

  unfoldable cancel_at : ℕ → Registry Token → Registry Token × Cancel Token
  unfolding request
  cancel_at a r =
      let st = (r.store a).status in
      if st.retired
      then (r, unavailable)
      else (set_status r a (record st { canceled = true }), request a st.token)

  unfoldable pub cancel_current : Registry Token → Registry Token × Cancel Token
  unfolding cancel_at
  cancel_current r = elim r.active [ none ↦ (r, unavailable) | some a ↦ cancel_at a r ]

  abbrev same_generation : Registry Token → Option ℕ → ℕ → Bool
  same_generation r none a = false
  same_generation r (some b) a = (r.store b).generation == (r.store a).generation

  -- `retire` of the state at `a`: whether it had been canceled.
  unfoldable pub retire : ℕ → Registry Token → Registry Token × Bool
  retire a r =
      let st = (r.store a).status in
      let r' = set_status r a (record st { retired = true }) in
      (record r' { active = if same_generation r r.active a then none else r.active }, st.canceled)

  unfoldable pub activate : ℕ → Token → Registry Token → Registry Token × Bool
  activate a t r =
      let st = (r.store a).status in
      if st.retired || st.canceled
      then (r, false)
      else (set_status r a (record st { token = some t }), true)
