-- ===== src/Tests/Whole.antt =====
-- Examples on the service as a whole: start-up, requests and ticks together.
use tx_submitter.Base.{◌≡◌, ◌≢◌, refl, arith, List, [], ◌∷◌, ◌↔◌, All}
use tx_submitter.Base.Int.{pos}
use tx_submitter.Base.Text.{Text, text_eq, codes, trim_space, split, decimal, digits_from}
use tx_submitter.State.{Status, status_eq}
use tx_submitter.Errors.{ok}
use tx_submitter.External.{Env}
use tx_submitter.World.{World}
use tx_submitter.Store.{history_of}
use tx_submitter.Store.Consistency.{IsConsistent, replay}
use tx_submitter.Config.{load_int, load_int64, loaded, Config}
use tx_submitter.Config.Integers.{load_int-decimal}
use tx_submitter.Pool.Secrets.{new_env_secret_source, channel_account_secrets}
use tx_submitter.Pool.Secrets.Seeds.{seeds, IsValid, channel_account_secrets_iff}
use tx_submitter.Api.{Body, TransitionResponse, router, transaction_response}
use tx_submitter.Api.Answers.{transaction_shows}
use tx_submitter.Submitter.{start}
use tx_submitter.Submitter.Backlog.{ticks}
use tx_submitter.Server.{start_up}
use tx_submitter.Pool.{
  init_pool, add_account, reset_locks, pool_size, list_active, refresh_sequence,
}
use tx_submitter.Pool.Provision.{new_provisioner, sync_sequences, ensure_pool_size}
use tx_submitter.Store.Accounts.{
  create_channel_account, unlock_all_channel_accounts, list_channel_accounts,
  update_channel_account_seq,
}
use tx_submitter.Server.Ready.{start_up_ready, start_up-confirms}
use tx_submitter.Submitter.Delivery.{IsHealthy}
use tx_submitter.Submitter.Outcomes.{first_answer}
use tx_submitter.Submitter.Builder.{new_builder}
use tx_submitter.Submitter.Signing.{Engine, new_engine}
use tx_submitter.Submitter.Lifecycle.{At}
use tx_submitter.Submitter.Locks.{NoneLocked}
use tx_submitter.Submitter.Draining.{HasActive}
use tx_submitter.Retry.{new_policy}
use tx_submitter.Server.Service.{get_request, waiting_confirmed}
use tx_submitter.Server.Process.{main, requested, engine_ticked, interrupted, main-IsConsistent}
use tx_submitter.Tests.{migrated, whole_floats, environment, payment, world, engine, submission}
use tx_submitter.Tests.Together.{
  environment-IsHealthy, lone_IsConsistent, world-AllPayable, world-Idle,
}
use tx_submitter.Submitter.Payable.{AllPayable, AllUsable}
use tx_submitter.Server.Migrated.{ids, main_takes_none}

-- Every variable is set to a text.
abbrev pub setting : Text → Env
setting value = record environment { getenv = λ key. value }

load_int-decimal_example :
    (load_int (setting (codes "120")) (codes "HTTP_PORT") (pos 8080) ≡ loaded (pos 120))
    × (load_int64 (setting (codes "120")) (codes "HTTP_PORT") (pos 8080) ≡ loaded (pos 120))
unfolding decimal digits_from
load_int-decimal_example =
    load_int-decimal (setting (codes "120")) (codes "HTTP_PORT") (pos 8080) 120 (omega arith) refl

channel_account_secrets_example :
    (channel_account_secrets (setting (codes " SC,SD ")) (new_env_secret_source (codes "SECRETS"))
      ≡ ok (codes "SC" ∷ codes "SD" ∷ []))
    ↔ (((codes "SC" ∷ codes "SD" ∷ []) ≡ seeds (codes " SC,SD "))
        × ((codes "SC" ∷ codes "SD" ∷ []) ≢ [])
        × All (IsValid (setting (codes " SC,SD "))) (codes "SC" ∷ codes "SD" ∷ []))
channel_account_secrets_example =
    channel_account_secrets_iff (setting (codes " SC,SD ")) (codes "SECRETS")
      (codes "SC" ∷ codes "SD" ∷ [])

main_example :
    IsConsistent
      (main whole_floats
        (setting (codes "7"))
        (requested submission ∷ engine_ticked ∷ interrupted ∷ [])
        world).1.db
main_example =
    main-IsConsistent whole_floats (setting (codes "7"))
      (requested submission ∷ engine_ticked ∷ interrupted ∷ []) world lone_IsConsistent

transaction_shows_example :
    (router environment (get_request (codes "t1")) world).0
    ≡ ok (record {
      code = 200;
      body =
          Body.submit_json (
            transaction_response environment payment
              (history_of environment (codes "t1") world.db));
    })
unfolding text_eq
transaction_shows_example =
    transaction_shows environment (codes "t1") (get_request (codes "t1")) payment world (λ n. refl)
      (refl, (refl, tt)) (λ gone. ground arith) refl refl refl

waiting_confirmed_example :
    (transitions : List TransitionResponse) × ((router environment
        (get_request (codes "t1"))
        (start whole_floats environment engine (ticks 1) world).1).0
      ≡ ok (record {
        code = 200;
        body =
            Body.submit_json
              (record { id = codes "t1"; status = codes "confirmed"; transitions = transitions });
      }))
unfolding text_eq status_eq
waiting_confirmed_example =
    waiting_confirmed whole_floats environment engine environment-IsHealthy 1 (codes "t1") payment
      world (refl, (refl, tt)) (λ gone. ground arith) world-AllPayable world-Idle (omega arith) refl
      refl

main_takes_none_example :
    ids
      (main whole_floats
        (record migrated { getenv = λ key. codes "7" })
        (requested submission ∷ engine_ticked ∷ interrupted ∷ [])
        world).1.db
    ≡ ids world.db
main_takes_none_example =
    main_takes_none whole_floats (record migrated { getenv = λ key. codes "7" })
      (requested submission ∷ engine_ticked ∷ interrupted ∷ []) world refl

abbrev one_secret : Env
one_secret = setting (codes "S")

abbrev settings : Config
settings = record {
  horizon_url = codes "H";
  network_passphrase = codes "test";
  distribution_account_secret = codes "SD";
  num_channel_accounts = pos 0;
  channel_account_starting_balance = codes "2";
  database_url = codes "P";
  max_base_fee = pos 300;
  retry_max_attempts = pos 3;
  queue_polling_interval = pos 6;
  http_port = pos 8080;
  metrics_port = pos 9002;
  log_level = codes "INFO";
}

abbrev started : Engine whole_floats
started = record {
  builder = new_builder (codes "test") (pos 100) (pos 300);
  retry_policy =
      new_policy whole_floats (pos 3) (pos 100) (pos 300) (pos 2) (pos 10_000_000_000) (codes "H");
  network_pass = codes "test";
  distribution = codes "SD";
  distribution_kp = record { address = codes "SD"; seed = codes "SD" };
  max_base_fee = pos 300;
  poll_interval = pos 6;
}

started-IsHealthy : IsHealthy whole_floats one_secret started
unfolding first_answer
started-IsHealthy = record {
  up = λ n. refl;
  signs = λ s kp t parsed. refl;
  included = λ n m t hid got. refl;
}

-- Before the first channel account.
abbrev unprepared : World
unprepared = record world { db = record world.db { accounts = [] } }

reads_secret :
    channel_account_secrets one_secret (new_env_secret_source (codes "CHANNEL_ACCOUNT_SECRETS"))
    ≡ ok (codes "S" ∷ [])
unfolding channel_account_secrets text_eq trim_space split
reads_secret = refl

starts : (start_up whole_floats one_secret settings unprepared).0 ≡ ok started
unfolding start_up text_eq init_pool add_account create_channel_account new_provisioner reset_locks
    unlock_all_channel_accounts pool_size list_channel_accounts sync_sequences list_active
    ensure_pool_size refresh_sequence update_channel_account_seq new_engine
starts = rw reads_secret refl

start_up_ready_example :
    NoneLocked (start_up whole_floats one_secret settings unprepared).1.db
    × HasActive (start_up whole_floats one_secret settings unprepared).1.db
start_up_ready_example = start_up_ready whole_floats one_secret settings unprepared started starts

unprepared_IsConsistent : IsConsistent unprepared.db
unfolding replay
unprepared_IsConsistent = record { replayed = (refl, tt); referred = tt; distinct = (refl, tt) }

unprepared-AllPayable : AllPayable whole_floats one_secret started unprepared.db
unprepared-AllPayable = (
  λ waits. record {
    destination = refl;
    source = refl;
    builds = λ ca max_ledger usable. refl;
    accepted = λ ca t w n built. refl;
  },
  tt,
)

prepared-AllUsable :
    AllUsable whole_floats one_secret started
      (start_up whole_floats one_secret settings unprepared).1.db
unfolding start_up text_eq init_pool add_account create_channel_account new_provisioner reset_locks
    unlock_all_channel_accounts pool_size list_channel_accounts sync_sequences list_active
    ensure_pool_size refresh_sequence update_channel_account_seq new_engine
prepared-AllUsable = rw reads_secret ((refl, refl), tt)

start_up-confirms_example :
    At
      (codes "t1")
      Status.confirmed
      (start whole_floats one_secret started
        (ticks 1)
        (start_up whole_floats one_secret settings unprepared).1).1.db
unfolding text_eq status_eq
start_up-confirms_example =
    start_up-confirms whole_floats one_secret settings 1 (codes "t1") payment unprepared started
      started-IsHealthy unprepared_IsConsistent unprepared-AllPayable prepared-AllUsable
      (omega arith) refl refl starts
