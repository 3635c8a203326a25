-- ===== src/Server/Audit.antt =====
-- What the engine sends while the service runs, against the table.
use tx_submitter.Base.{◌≡◌, ◌++◌, List, [], ◌∷◌, All, refl, some, find_where}
use tx_submitter.State.{Transaction}
use tx_submitter.External.{Env}
use tx_submitter.World.{World, Event}
use tx_submitter.World.Keeps.{Keeps-run}
use tx_submitter.World.Adds.{Adds-run}
use tx_submitter.World.Preserves.{
  Preserves, Preserves-intro, Preserves-run, Preserves-pure, Preserves-bind, Preserves-then,
}
use tx_submitter.Store.{has_id}
use tx_submitter.Store.Consistency.{IsConsistent}
use tx_submitter.Store.Ledger.{ledger, ◌⟹*◌, stay}
use tx_submitter.Store.Ledger.Refinement.{CameFrom, create_transaction-CameFrom}
use tx_submitter.Retry.{Floats}
use tx_submitter.Api.{Request, router}
use tx_submitter.Api.Requests.{router-Keeps, router-IsConsistent}
use tx_submitter.Api.Quiet.{router-Adds}
use tx_submitter.Submitter.{tick}
use tx_submitter.Submitter.Signing.{Engine}
use tx_submitter.Submitter.Contents.{KeepsContents, IsFor}
use tx_submitter.Submitter.Accounting.{Accounted, Accounts-later, Sound, tick-Sound}
use tx_submitter.Server.Process.{Occurrence, serve, requested, engine_ticked, interrupted}

module _ (F : Floats) (e : Env) (g : Engine F) (k : KeepsContents e) where
  module _ (old : List Event) where
    Audited : World → Type 0
    Audited = Sound F e g k old

    router-run : (r : Request) (w : World) → ledger w.db ⟹* ledger (router e r w).1.db
    router-run r w =
        Keeps-run (CameFrom (ledger w.db)) (router e r)
          (router-Keeps (CameFrom (ledger w.db)) e (create_transaction-CameFrom e (ledger w.db)) r)
          w (stay (ledger w.db))

    router-Audited : (r : Request) → Preserves Audited (router e r)
    unfolding Audited
    router-Audited r = Preserves-intro Audited (router e r) λ w (c, booked).
        let w' = (router e r w).1 in
        (
          router-IsConsistent e r w c,
          Accounts-later e g.builder old w w' (router-run r w)
              (Adds-run (Accounted e g.builder w'.db) (router e r)
                (router-Adds (Accounted e g.builder w'.db) e r) w)
              booked,
        )

    tick-Audited : Preserves Audited (tick F e g)
    unfolding Audited
    tick-Audited = tick-Sound F e g k old

    serve-Audited : (os : List Occurrence) → Preserves Audited (serve F e g os)
    unfolding serve
    serve-Audited [] = Preserves-pure Audited []
    serve-Audited (requested r ∷ later) =
        Preserves-bind Audited (router e r) _ (router-Audited r) λ response.
          Preserves-bind Audited (serve F e g later) _ (serve-Audited later)
            λ responses. Preserves-pure Audited (response ∷ responses)
    serve-Audited (engine_ticked ∷ later) =
        Preserves-then Audited (tick F e g) (serve F e g later) tick-Audited (serve-Audited later)
    serve-Audited (interrupted ∷ later) = Preserves-pure Audited []

  -- If the SDK builds what it is given and a signature leaves it as it is, then from consistent
  -- tables, over any sequence of requests and ticks from the engine's start on and whatever the
  -- environment answers, everything that is sent to Horizon belongs to a row that is in the table
  -- at the end: it is a transaction with one operation, a payment to that row's destination, of its
  -- amount as decimal text and in its asset, with a base fee of at most the builder's maximum and a
  -- time bound of 300 seconds, or it is a fee bump around such a transaction.
  pub serve_accounted :
      (occurrences : List Occurrence) (w : World)
      → IsConsistent w.db
      → (new : List Event) × ((serve F e g occurrences w).1.trace ≡ new ++ w.trace)
        × All
            (λ v.
              (t : Transaction) × (find_where
                  (has_id t.id)
                  (serve F e g occurrences w).1.db.transactions
                ≡ some t)
              × IsFor e g.builder t v)
            new
  unfolding Audited
  serve_accounted occurrences w c =
      (Preserves-run (Audited w.trace) (serve F e g occurrences) (serve-Audited w.trace occurrences)
        w (c, ([], refl, tt))).1
