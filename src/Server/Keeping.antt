-- ===== src/Server/Keeping.antt =====
-- What the start-up keeps of the tables: it writes channel accounts only.
use tx_submitter.Base.{ℕ, zero, suc, ◌≡◌, sym, subst, List, [], ◌∷◌, arith}
use tx_submitter.Base.Int.{ℤ, pos, negsuc}
use tx_submitter.Base.Text.{Text}
use tx_submitter.Errors.{Result, ok, err}
use tx_submitter.External.{Env}
use tx_submitter.World.{Db}
use tx_submitter.World.Keeps.{Keeps, Keeps-statement, Keeps-pure, Keeps-fail, keeps_rules}
use tx_submitter.Config.{Config}
use tx_submitter.Store.Accounts.{
  upsert_account, create_channel_account, unlock_all_channel_accounts, list_channel_accounts,
}
use tx_submitter.Pool
use tx_submitter.Pool.{AccountInfo}
use tx_submitter.Pool.Provision.{
  Provisioner, generate_keys, provision_some, provision_accounts, add_provisioned, ensure_pool_size,
  sync_account, sync_accounts, sync_sequences,
}
use tx_submitter.Retry.{Floats}
use tx_submitter.Submitter.Invariants.{IgnoresAccounts, set_seq-Keeps}
use tx_submitter.Server.{not_empty, bootstrap_channel_pool, start_up}

module _ (P : Db → Type 0) (e : Env) (on : IgnoresAccounts P) where
  upsert_account-db :
      (sk k : Text) (n : ℕ) (db : Db)
      → (upsert_account e sk k n db).1
        ≡ record db { accounts = (upsert_account e sk k n db).1.accounts }
  upsert_account-db sk k n db = ground arith

  create-Keeps : (sk : Text) → Keeps P (create_channel_account e sk)
  unfolding create_channel_account
  create-Keeps sk =
      search
        (
          keeps_rules,
          λ (k : Text).
              Keeps-statement P e (upsert_account e sk k)
                λ n db h. subst P (sym (upsert_account-db sk k n db)) (on _ db h),
        )
        depth 8

  init_pool-Keeps : (sks : List Text) → Keeps P (Pool.init_pool e sks)
  unfolding Pool.init_pool Pool.add_account
  init_pool-Keeps [] = Keeps-pure P tt
  init_pool-Keeps (sk ∷ sks) = search (keeps_rules, create-Keeps, init_pool-Keeps sks) depth 8

  pool_size-Keeps : Keeps P (Pool.pool_size e)
  unfolding Pool.pool_size list_channel_accounts
  pool_size-Keeps = search keeps_rules depth 8

  reset_locks-Keeps : Keeps P (Pool.reset_locks e)
  unfolding Pool.reset_locks unlock_all_channel_accounts
  reset_locks-Keeps = Keeps-statement P e _ λ n db h. on _ db h

  generate_keys-Keeps : (rounds i : ℕ) → Keeps P (generate_keys e rounds i)
  unfolding generate_keys
  generate_keys-Keeps zero i = Keeps-pure P []
  generate_keys-Keeps (suc rounds) i =
      search (keeps_rules, generate_keys-Keeps rounds (suc i)) depth 8

  provision-Keeps : (p : Provisioner) (z : ℤ) (b : Text) → Keeps P (provision_accounts e p z b)
  unfolding provision_accounts provision_some
  provision-Keeps p (pos zero) b = Keeps-pure P []
  provision-Keeps p (pos (suc n)) b = search (keeps_rules, generate_keys-Keeps) depth 12
  provision-Keeps p (negsuc n) b = Keeps-pure P []

  add_provisioned-Keeps : (sks : List Text) → Keeps P (add_provisioned e sks)
  unfolding add_provisioned Pool.add_account
  add_provisioned-Keeps [] = Keeps-pure P tt
  add_provisioned-Keeps (sk ∷ sks) =
      search (keeps_rules, create-Keeps, add_provisioned-Keeps sks) depth 8

  ensure-Keeps : (p : Provisioner) (z : ℤ) (b : Text) → Keeps P (ensure_pool_size e p z b)
  unfolding ensure_pool_size
  ensure-Keeps p z b =
      search (keeps_rules, pool_size-Keeps, provision-Keeps, add_provisioned-Keeps) depth 10

  sync_account-Keeps : (acct : AccountInfo) (r : Result ℤ) → Keeps P (sync_account e acct r)
  unfolding sync_account Pool.refresh_sequence
  sync_account-Keeps acct (err _) = Keeps-pure P tt
  sync_account-Keeps acct (ok z) = search (keeps_rules, set_seq-Keeps P e on)

  sync_accounts-Keeps : (accounts : List AccountInfo) → Keeps P (sync_accounts e accounts)
  unfolding sync_accounts
  sync_accounts-Keeps [] = Keeps-pure P tt
  sync_accounts-Keeps (acct ∷ accounts) =
      search (keeps_rules, sync_account-Keeps, sync_accounts-Keeps accounts) depth 8

  sync-Keeps : Keeps P (sync_sequences e)
  unfolding sync_sequences Pool.list_active list_channel_accounts
  sync-Keeps = search (keeps_rules, sync_accounts-Keeps) depth 10

  bootstrap-Keeps : (cfg : Config) → Keeps P (bootstrap_channel_pool e cfg)
  unfolding bootstrap_channel_pool
  bootstrap-Keeps cfg =
      search
        (keeps_rules, init_pool-Keeps, ensure-Keeps, sync-Keeps, reset_locks-Keeps, pool_size-Keeps)
        depth 14

  not_empty-Keeps : (size : ℕ) → Keeps P (not_empty size)
  not_empty-Keeps zero = Keeps-fail P (Unit {0}) _
  not_empty-Keeps (suc size) = Keeps-pure P tt

  pub start_up-Keeps : (F : Floats) (cfg : Config) → Keeps P (start_up F e cfg)
  unfolding start_up
  start_up-Keeps F cfg = search (keeps_rules, bootstrap-Keeps, not_empty-Keeps) depth 12
