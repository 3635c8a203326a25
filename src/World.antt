-- ===== src/World.antt =====
-- The state that the service acts on: the database's tables, the collectors, and the requests sent
-- to the Stellar network. A Go function that does I/O and returns an error is an action on it.
pub mod Keeps
pub mod Sends
pub mod Ensures
pub mod Growth
pub mod Returns
pub mod Adds
pub mod Preserves
use tx_submitter.Base.{ℕ, suc, List, ◌∷◌, none, some}
use tx_submitter.Base.Int.{ℤ}
use tx_submitter.State.{Transaction, Transition, ChannelAccount}
use tx_submitter.Errors.{Error, Result, ok, err, map_error}
use tx_submitter.Metrics.{Metrics}
use tx_submitter.External.{Env, Envelope, FeeBump}

-- The tables; `next_transition` is the value of the sequence behind transitions.id.
pub record Db : Type 0 where
  pub transactions : List Transaction
  pub transitions : List Transition
  pub accounts : List ChannelAccount
  pub next_transition : ℕ

-- What was sent to Horizon for inclusion, and the pauses in between.
pub data Event : Type 0 where
  sent : Envelope → Event
  sent_fee_bump : FeeBump → Event
  slept : ℤ → Event

-- `trace` is newest first; `calls` counts the calls that the environment has answered.
pub record World : Type 0 where
  pub db : Db
  pub metrics : Metrics
  pub trace : List Event
  pub calls : ℕ

abbrev pub Action {ℓ} : Type ℓ → Type ℓ
Action A = World → Result A × World

module _ {ℓ} {A : Type ℓ} where
  abbrev pub pure : A → Action A
  pure a w = (ok a, w)

  abbrev pub fail : Error → Action A
  fail e w = (err e, w)

  -- `if err != nil { return fmt.Errorf("prefix: %w", err) }`
  abbrev pub annotate : (Error → Error) → Action A → Action A
  annotate f m w = let (r, w') = m w in (map_error f r, w')

  -- `v, err := m()`, with the error kept as a value.
  abbrev pub attempt : Action A → Action (Result A)
  attempt m w = let (r, w') = m w in (ok r, w')

  -- `_ = m()`
  abbrev pub ignore : Action A → Action (Unit {0})
  ignore m w = let (r, w') = m w in (ok tt, w')

  -- An answer that does not depend on the state.
  abbrev pub lift : Result A → Action A
  lift r w = (r, w)

infixl 5 ◌>>=◌ ◌>>◌
abbrev pub ◌>>=◌ {ℓ κ} : {A : Type ℓ} {B : Type κ} → Action A → (A → Action B) → Action B
◌>>=◌ m f w = let (r, w') = m w in elim r [ ok a ↦ f a w' | err e ↦ (err e, w') ]

abbrev pub ◌>>◌ {κ} : {A : Type 0} {B : Type κ} → Action A → Action B → Action B
m >> k = m >>= λ _. k

-- `v, err := m(); if err != nil { on_err }; on_ok`
unfoldable pub try_else {ℓ κ} :
    {A : Type ℓ} {B : Type κ} → Action A → (Error → Action B) → (A → Action B) → Action B
try_else m on_err on_ok w = let (r, w') = m w in elim r [ ok a ↦ on_ok a w' | err x ↦ on_err x w' ]

abbrev pub gets {ℓ} : {A : Type ℓ} → (World → A) → Action A
gets f w = (ok (f w), w)

abbrev pub modify_db : (Db → Db) → Action (Unit {0})
modify_db f w = (ok tt, record w { db = f w.db })

abbrev pub measure : (Metrics → Metrics) → Action (Unit {0})
measure f w = (ok tt, record w { metrics = f w.metrics })

abbrev pub emit : Event → Action (Unit {0})
emit e w = (ok tt, record w { trace = e ∷ w.trace })

-- A question to the environment, which it answers by the number of the call.
abbrev pub ask {ℓ} : {A : Type ℓ} → (ℕ → Result A) → Action A
ask f w = (f w.calls, record w { calls = suc w.calls })

-- One call of the database driver: it ends with the driver's error and no effect, or it runs the
-- statement on the tables at the number of the call.
abbrev pub statement {ℓ} : {A : Type ℓ} → Env → (ℕ → Db → Result A × Db) → Action A
statement e run w =
    let n = w.calls in
    elim (e.db_fault n) [
      | some text ↦ (err (Error.external text), record w { calls = suc n })
      | none ↦ let (r, db') = run n w.db in (r, record w { db = db'; calls = suc n })
    ]

-- `defer tx.Rollback(ctx)`: what a transaction did that ends with an error is undone.
abbrev pub rollback_on_error {ℓ} : {A : Type ℓ} → Action A → Action A
rollback_on_error m w =
    let (r, w') = m w in elim r [ ok a ↦ (ok a, w') | err e ↦ (err e, record w' { db = w.db }) ]
