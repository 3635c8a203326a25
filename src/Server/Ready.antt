-- ===== src/Server/Ready.antt =====
-- What `main` guarantees of the tables when it starts the engine.
use tx_submitter.Base.{
  length-order_by, ℕ, zero, suc, ◌*◌, ◌≤◌, ◌≡◌, refl, sym, ap, ◌∙◌, subst, true, none, some, List,
  [], ◌∷◌, arith, All-update_where, any, where_, length, find_where, count,
}
use tx_submitter.Base.Int.{pos}
use tx_submitter.Base.Text.{Text, codes}
use tx_submitter.State.{Status, Transaction, ChannelAccount}
use tx_submitter.Errors.{ok, wrap}
use tx_submitter.External.{Env}
use tx_submitter.World.{Db, World, Action, ◌>>◌, lift, annotate, ignore, measure}
use tx_submitter.World.Keeps.{Keeps-run, keeps_rules}
use tx_submitter.World.Ensures
use tx_submitter.World.Ensures.{Ensures}
use tx_submitter.Config.{Config}
use tx_submitter.Store.{has_id, is_pending}
use tx_submitter.Store.Consistency.{IsConsistent}
use tx_submitter.Store.Accounts.{
  is_locked, unlock, listed_accounts, unlock_all_channel_accounts, list_channel_accounts,
}
use tx_submitter.Store.Exclusion.{All-Unit}
use tx_submitter.Pool
use tx_submitter.Pool.Provision.{new_provisioner, ensure_pool_size, sync_sequences}
use tx_submitter.Pool.Secrets.{new_env_secret_source, channel_account_secrets}
use tx_submitter.Metrics.{set_active_channels}
use tx_submitter.Submitter.Builder.{new_builder}
use tx_submitter.Retry.{new_policy, Floats}
use tx_submitter.Submitter.Locks.{NoneLocked}
use tx_submitter.Submitter.Draining.{HasActive}
use tx_submitter.Submitter.Signing.{Engine, new_engine}
use tx_submitter.Submitter.{start}
use tx_submitter.Submitter.Lifecycle.{At}
use tx_submitter.Submitter.Payable.{AllPayable, AllUsable}
use tx_submitter.Submitter.Delivery.{IsHealthy}
use tx_submitter.Submitter.Backlog.{ticks, start_confirms}
use tx_submitter.Submitter.Invariants.{accounts-IsConsistent}
use tx_submitter.Server.Keeping.{start_up-Keeps}
use tx_submitter.Server.{
  base_fee, backoff_base, connected, bootstrap_channel_pool, start_up, not_empty,
}

-- Nothing is said of the tables.
abbrev Anything : Db → Type 0
Anything db = Unit

any_step : {A : Type 0} (m : Action A) → Ensures Anything m (λ _. Anything) Anything
any_step m =
    Ensures.Ensures-cases Anything m (λ _. Anything) Anything (λ w a h got. tt) (λ w x h got. tt)

active_listed :
    (cas : List ChannelAccount) (n : ℕ)
    → length (where_ (λ ca. ca.is_active) cas) ≡ suc n
    → any (λ ca. ca.is_active) cas ≡ true
active_listed [] n h = ground arith
active_listed (ca ∷ cas) n h = ground (arith, active_listed cas n)

module _ (e : Env) where
  -- `ResetLocks` that goes through leaves no account locked.
  reset_locks_frees : Ensures Anything (Pool.reset_locks e) (λ _. NoneLocked) Anything
  unfolding Pool.reset_locks unlock_all_channel_accounts
  reset_locks_frees =
      Ensures.Ensures-statement Anything e _ (λ _. NoneLocked) Anything (λ db h. tt)
        λ n db h.
          All-update_where (λ ca. Unit {0}) (λ ca. ca.locked_at ≡ none) (is_locked e) unlock
            db.accounts (λ ca u hit. refl) (λ ca u miss. ground arith) (All-Unit db.accounts)

  -- What the size of the pool counts.
  abbrev IsCounted : ℕ → Db → Type 0
  IsCounted size db = NoneLocked db × (size ≡ length (listed_accounts e true db))

  pool_size_counts : Ensures NoneLocked (Pool.pool_size e) IsCounted Anything
  unfolding Pool.pool_size list_channel_accounts
  pool_size_counts =
      Ensures.Ensures-bind NoneLocked (λ cas db. NoneLocked db × (cas ≡ listed_accounts e true db))
        IsCounted Anything _ _
        (Ensures.Ensures-statement NoneLocked e _ _ Anything (λ db h. tt) (λ n db h. (h, refl)))
        λ cas.
          Ensures.Ensures-pure _ (length cas) IsCounted Anything
            λ db (free, same). (free, ap length same)

  bootstrap_counts :
      (cfg : Config) → Ensures Anything (bootstrap_channel_pool e cfg) IsCounted Anything
  unfolding bootstrap_channel_pool
  bootstrap_counts cfg =
      Ensures.Ensures-bind Anything (λ _. Anything) IsCounted Anything
        (annotate (wrap (codes "loading channel account secrets")) (
          lift
            (channel_account_secrets e (new_env_secret_source (codes "CHANNEL_ACCOUNT_SECRETS")))))
        _ (any_step _)
        λ secrets.
          Ensures.Ensures-then Anything Anything IsCounted Anything
            (annotate (wrap (codes "seeding channel account pool")) (Pool.init_pool e secrets)) _
            (any_step _)
            (Ensures.Ensures-bind Anything (λ _. Anything) IsCounted Anything
              (annotate (wrap (codes "creating channel account provisioner"))
                (lift (new_provisioner e cfg.network_passphrase cfg.distribution_account_secret)))
              _ (any_step _)
              λ provisioner.
                Ensures.Ensures-then Anything Anything IsCounted Anything
                  (ignore (
                    ensure_pool_size e provisioner cfg.num_channel_accounts
                      cfg.channel_account_starting_balance))
                  _ (any_step _)
                  (Ensures.Ensures-then Anything Anything IsCounted Anything
                    (ignore (sync_sequences e)) _ (any_step _)
                    (Ensures.Ensures-then Anything NoneLocked IsCounted Anything _ _
                      (Ensures.Ensures-annotate Anything
                        (wrap (codes "resetting channel account locks")) _ _ Anything
                        reset_locks_frees)
                      (Ensures.Ensures-annotate NoneLocked
                        (wrap (codes "checking channel account pool size")) _ IsCounted Anything
                        pool_size_counts))))

  -- What is left of the count once it is not zero.
  abbrev Prepared : Db → Type 0
  Prepared db = NoneLocked db × HasActive db

  size_active : (size : ℕ) (db : Db) → IsCounted (suc size) db → Prepared db
  size_active size db (free, same) = (
    free,
    active_listed db.accounts size (
        sym (length-order_by (λ ca. ca.created_at) (where_ (λ ca. ca.is_active) db.accounts))
        ∙ sym same),
  )

  checked_size : (size : ℕ) → Ensures (IsCounted size) (not_empty size) (λ _. Prepared) Anything
  checked_size zero =
      Ensures.Ensures-cases (IsCounted zero) (not_empty zero) _ Anything
        (λ w a h got. absurd (ground arith)) (λ w x h got. tt)
  checked_size (suc size) =
      Ensures.Ensures-pure (IsCounted (suc size)) tt _ Anything (size_active size)

  module _ (F : Floats) (cfg : Config) where
    -- What follows the checks: it does not touch the tables.
    abbrev launch : ℕ → Action (Engine F)
    launch size = do
      measure (set_active_channels size)
      lift (
          new_engine F e (new_builder cfg.network_passphrase base_fee cfg.max_base_fee)
            (new_policy F cfg.retry_max_attempts base_fee cfg.max_base_fee (F.of_int (pos 2))
              backoff_base cfg.horizon_url)
            cfg.network_passphrase cfg.distribution_account_secret cfg.max_base_fee
            cfg.queue_polling_interval)

    launch_keeps : (size : ℕ) → Ensures Prepared (launch size) (λ _. Prepared) Anything
    launch_keeps size =
        Ensures.Ensures-weaken Prepared Prepared (launch size) (λ _. Prepared) (λ _. Prepared)
          Prepared Anything (λ db h. h) (λ a db h. h) (λ db h. tt)
          (Ensures.Ensures-Keeps Prepared (launch size) (search keeps_rules depth 8))

    start_up_prepares : Ensures Anything (start_up F e cfg) (λ _. Prepared) Anything
    unfolding start_up
    start_up_prepares =
        Ensures.Ensures-then Anything Anything (λ _. Prepared) Anything
          (lift (connected (e.connect cfg.database_url))) _ (any_step _)
          (Ensures.Ensures-bind Anything IsCounted (λ _. Prepared) Anything _ _
            (bootstrap_counts cfg)
            λ size.
              Ensures.Ensures-then (IsCounted size) Prepared (λ _. Prepared) Anything _ _
                (checked_size size) (launch_keeps size))

module _ (F : Floats) (e : Env) (cfg : Config) where
  -- If `main` starts an engine, no channel account is locked and at least one is active, whatever
  -- locks were there and whatever the environment answers.
  pub start_up_ready :
      (w : World) (g : Engine F)
      → (start_up F e cfg w).0 ≡ ok g
      → NoneLocked (start_up F e cfg w).1.db × HasActive (start_up F e cfg w).1.db
  start_up_ready w g got =
      Ensures.Ensures-ok Anything (start_up F e cfg) (λ _. Prepared e) Anything
        (start_up_prepares e F cfg) w g tt got

module _ (F : Floats) (e : Env) (cfg : Config) where
  -- The transactions and their history are what they were.
  abbrev SameBook : Db → Db → Type 0
  SameBook before db =
      (db.transactions ≡ before.transactions) × (db.transitions ≡ before.transitions)

  -- Where nothing outside fails, keys that parse also sign, and Horizon reports what it accepts as
  -- successful within the polls: if `main` starts an engine on consistent tables of which at most
  -- 10 n rows are pending, whatever locks an earlier process has left, the keys of the channel
  -- accounts that are then in the table parse, and each pending payment is one that the SDK takes
  -- and builds and Horizon accepts, then after n ticks each row that was pending is confirmed.
  pub start_up-confirms :
      (n : ℕ) (id : Text) (t : Transaction) (w : World) (g : Engine F)
      → IsHealthy F e g
      → IsConsistent w.db
      → AllPayable F e g w.db
      → AllUsable F e g (start_up F e cfg w).1.db
      → count is_pending w.db.transactions ≤ 10 * n
      → find_where (has_id id) w.db.transactions ≡ some t
      → t.status ≡ Status.pending
      → (start_up F e cfg w).0 ≡ ok g
      → At id Status.confirmed (start F e g (ticks n) (start_up F e cfg w).1).1.db
  start_up-confirms n id t w g h consistent pay usable few found waits got =
      let prepared = start_up_ready F e cfg w g got in
      let (same, _) =
        Keeps-run (SameBook w.db) _ (start_up-Keeps (SameBook w.db) e (λ cas db h. h) F cfg) w
          (refl, refl) in
      start_confirms F e g h id n (start_up F e cfg w).1 t
        (Keeps-run (AllPayable F e g) _ (start_up-Keeps (AllPayable F e g) e (λ cas db p. p) F cfg)
          w pay)
        (
          Keeps-run IsConsistent _ (start_up-Keeps IsConsistent e accounts-IsConsistent F cfg) w
              consistent,
          prepared.0,
          prepared.1,
          usable,
        )
        (subst (λ ts. count is_pending ts ≤ 10 * n) (sym same) few)
        (ap (λ ts. find_where (has_id id) ts) same ∙ found) waits
