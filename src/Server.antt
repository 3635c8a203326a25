-- ===== src/Server.antt =====
-- cmd/server/main.go: from the configuration to a running engine. What follows is Server/Process;
-- `os.Exit(1)` is an error.
pub mod Keeping
pub mod Ready
pub mod Service
pub mod Migrated
pub mod Process
pub mod Books
pub mod Audit
use tx_submitter.Base.{ℕ, zero, suc, Option, none, some}
use tx_submitter.Base.Int.{ℤ, pos}
use tx_submitter.Base.Text.{Text, codes}
use tx_submitter.Errors.{wrap, external, Result, ok, err}
use tx_submitter.External.{Env}
use tx_submitter.Metrics.{set_active_channels}
use tx_submitter.World.{Action, ◌>>=◌, ◌>>◌, pure, fail, annotate, ignore, lift, measure}
use tx_submitter.Config.{Config}
use tx_submitter.Retry.{Floats, new_policy}
use tx_submitter.Pool
use tx_submitter.Pool.Provision.{new_provisioner, ensure_pool_size, sync_sequences}
use tx_submitter.Pool.Secrets.{new_env_secret_source, channel_account_secrets}
use tx_submitter.Submitter.Builder.{new_builder}
use tx_submitter.Submitter.Signing.{Engine, new_engine}

-- The base fee in stroops, and ten seconds in nanoseconds.
abbrev pub base_fee : ℤ
base_fee = pos 100

abbrev pub backoff_base : ℤ
backoff_base = pos 10_000_000_000

unfoldable pub bootstrap_channel_pool : Env → Config → Action ℕ
bootstrap_channel_pool e cfg = do
  secrets ←
      annotate (wrap (codes "loading channel account secrets"))
        (lift (channel_account_secrets e (new_env_secret_source (codes "CHANNEL_ACCOUNT_SECRETS"))))
  annotate (wrap (codes "seeding channel account pool")) (Pool.init_pool e secrets)
  provisioner ←
      annotate (wrap (codes "creating channel account provisioner"))
        (lift (new_provisioner e cfg.network_passphrase cfg.distribution_account_secret))
  ignore
      (ensure_pool_size e provisioner cfg.num_channel_accounts cfg.channel_account_starting_balance)
  ignore (sync_sequences e)
  annotate (wrap (codes "resetting channel account locks")) (Pool.reset_locks e)
  annotate (wrap (codes "checking channel account pool size")) (Pool.pool_size e)

abbrev pub connected : Option Text → Result (Unit {0})
connected none = ok tt
connected (some text) = err (external text)

abbrev pub not_empty : ℕ → Action (Unit {0})
not_empty zero = fail (external (codes "channel account pool is empty"))
not_empty (suc n) = pure tt

-- `main` up to the engine that it starts.
unfoldable pub start_up : (F : Floats) → Env → Config → Action (Engine F)
unfolding bootstrap_channel_pool
start_up F e cfg = do
  lift (connected (e.connect cfg.database_url))
  let policy =
      new_policy F cfg.retry_max_attempts base_fee cfg.max_base_fee (F.of_int (pos 2)) backoff_base
        cfg.horizon_url
  pool_size ← bootstrap_channel_pool e cfg
  not_empty pool_size
  measure (set_active_channels pool_size)
  lift (
      new_engine F e (new_builder cfg.network_passphrase base_fee cfg.max_base_fee) policy
        cfg.network_passphrase cfg.distribution_account_secret cfg.max_base_fee
        cfg.queue_polling_interval)
