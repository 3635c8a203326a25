-- ===== src/Server/Process.antt =====
-- cmd/server/main.go: `main` from its first line to its last. What the goroutines do is a list of
-- occurrences: each request and each tick goes through before the next.
use tx_submitter.Base.{ℕ, suc, List, [], ◌∷◌, ◌++◌}
use tx_submitter.Base.Int.{ℤ, pos, negsuc}
use tx_submitter.Base.Text.{Text, codes, decimal}
use tx_submitter.Errors.{Error, external}
use tx_submitter.External.{Env}
use tx_submitter.World.{Db, World, Action, ◌>>=◌, ◌>>◌, pure, fail}
use tx_submitter.World.Keeps.{Keeps, Keeps-run, Keeps-fail, Keeps-pure, keeps_rules}
use tx_submitter.Config.{Config, Loaded, load, loaded, panicked, Panic, not_set, not_integer}
use tx_submitter.Api.{Request, Response, router}
use tx_submitter.Api.Requests.{router-Keeps}
use tx_submitter.Store.Consistency.{IsConsistent}
use tx_submitter.Retry.{Floats}
use tx_submitter.Submitter.{tick}
use tx_submitter.Submitter.Signing.{Engine}
use tx_submitter.Submitter.Keeping.{StoreKeeps, tick-Keeps}
use tx_submitter.Submitter.Invariants.{
  IgnoresAccounts, accounts-IsConsistent, acquire-Keeps, release-Keeps, set_seq-Keeps,
}
use tx_submitter.Store.{create_transaction}
use tx_submitter.Store.Histories.{
  create_transaction-IsConsistent, update_status-IsConsistent, mark_channel_used-IsConsistent,
}
use tx_submitter.State.{NewTransactionParams}
use tx_submitter.Server.{start_up}
use tx_submitter.Server.Keeping.{start_up-Keeps}

-- `http.Server`, with its timeouts in nanoseconds.
pub record HttpServer : Type 0 where
  pub addr : Text
  pub read_timeout : ℕ
  pub write_timeout : ℕ
  pub idle_timeout : ℕ

-- `%d`
abbrev print_int : ℤ → Text
print_int (pos n) = decimal n
print_int (negsuc n) = codes "-" ++ decimal (suc n)

abbrev pub http_server : Config → HttpServer
http_server cfg = record {
  addr = codes ":" ++ print_int cfg.http_port;
  read_timeout = 15_000_000_000;
  write_timeout = 15_000_000_000;
  idle_timeout = 60_000_000_000;
}

abbrev pub metrics_server : Config → HttpServer
metrics_server cfg = record {
  addr = codes ":" ++ print_int cfg.metrics_port;
  read_timeout = 5_000_000_000;
  write_timeout = 5_000_000_000;
  idle_timeout = 120_000_000_000;
}

-- A request at the HTTP server, a tick of the engine's ticker, and the signal that ends the context.
pub data Occurrence : Type 0 where
  requested : Request → Occurrence
  engine_ticked interrupted : Occurrence

-- `%q` of a name.
abbrev quoted : Text → Text
quoted key = b'"' ∷ key ++ (b'"' ∷ [])

module _ (F : Floats) (e : Env) where
  -- From the engine's start to the end of the shutdown, with the answers to the requests. After the
  -- signal `Start` returns and the HTTP server is shut down.
  unfoldable pub serve : Engine F → List Occurrence → Action (List Response)
  serve g [] = pure []
  serve g (requested r ∷ later) = do
    response ← router e r
    responses ← serve g later
    pure (response ∷ responses)
  serve g (engine_ticked ∷ later) = do tick F e g; serve g later
  serve g (interrupted ∷ later) = pure []

  -- The text that `config.Load` panics with, but for the error of strconv; it ends `main` too.
  abbrev panic_error : Panic → Error
  panic_error (not_set key) =
      external (codes "required env var " ++ quoted key ++ codes " is not set")
  panic_error (not_integer key) =
      external (codes "env var " ++ quoted key ++ codes " must be an integer")

  unfoldable pub run_with : Loaded Config → List Occurrence → Action (List Response)
  unfolding serve
  run_with (panicked p) occurrences = fail (panic_error p)
  run_with (loaded cfg) occurrences = do g ← start_up F e cfg; serve g occurrences

  unfoldable pub main : List Occurrence → Action (List Response)
  unfolding run_with
  main occurrences = run_with (load e) occurrences

  module _ (P : Db → Type 0) (on : IgnoresAccounts P) (kept : (tx_id : Text) → StoreKeeps P e tx_id)
      (creates : (p : NewTransactionParams) → Keeps P (create_transaction e p)) where
    serve-Keeps : (g : Engine F) (os : List Occurrence) → Keeps P (serve g os)
    unfolding serve
    serve-Keeps g [] = Keeps-pure P []
    serve-Keeps g (requested r ∷ later) =
        search (keeps_rules, router-Keeps P e creates r, serve-Keeps g later) depth 8
    serve-Keeps g (engine_ticked ∷ later) =
        search
          (
            keeps_rules,
            tick-Keeps P e kept (acquire-Keeps P e on) (release-Keeps P e on) F g,
            serve-Keeps g later,
          )
          depth 8
    serve-Keeps g (interrupted ∷ later) = Keeps-pure P []

    run_with-Keeps : (cfg : Loaded Config) (os : List Occurrence) → Keeps P (run_with cfg os)
    unfolding run_with
    run_with-Keeps (panicked p) os = Keeps-fail P (List Response) _
    run_with-Keeps (loaded cfg) os =
        search (keeps_rules, start_up-Keeps P e on F cfg, serve-Keeps) depth 8

    -- `main` keeps what the store's operations keep.
    pub main-Keeps : (os : List Occurrence) → Keeps P (main os)
    unfolding main
    main-Keeps os = run_with-Keeps (load e) os

  -- If the tables are consistent when `main` is called, they are consistent after any sequence of
  -- requests and ticks, one after the other, and the signal that ends it, whatever the
  -- configuration and the environment answer.
  pub main-IsConsistent :
      (occurrences : List Occurrence) (w : World)
      → IsConsistent w.db
      → IsConsistent (main occurrences w).1.db
  main-IsConsistent occurrences = Keeps-run IsConsistent (main occurrences) (
      main-Keeps IsConsistent accounts-IsConsistent
        (λ tx_id. record {
          update = λ new _ detail hid. update_status-IsConsistent e tx_id new detail hid;
          mark = λ channel. mark_channel_used-IsConsistent e tx_id channel;
          set_seq = set_seq-Keeps IsConsistent e accounts-IsConsistent;
        })
        (create_transaction-IsConsistent e) occurrences)
