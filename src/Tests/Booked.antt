-- ===== src/Tests/Booked.antt =====
-- Examples on the ledger, on payments sent once and twice, on writers that overlap, on what is sent and
-- on the pool.
use tx_submitter.Base.{
  if◌then◌else◌, map, All, find_where, ◌≡◌, ◌≤◌, ◌+◌, refl, arith, none, some, [], ◌∷◌, ◌++◌, List,
  count,
}
use tx_submitter.Base.Int.{pos, ◌-ℤ◌}
use tx_submitter.Base.Text.{text_eq, codes}
use tx_submitter.State.{Status, status_eq, Transaction, Transition}
use tx_submitter.Errors.{ok}
use tx_submitter.World.{World, Event}
use tx_submitter.World.Sends.{sends}
use tx_submitter.Store.{has_id, is_pending, read_status, write_status, create_transaction}
use tx_submitter.Store.Consistency.{IsConsistent}
use tx_submitter.Store.Ledger.{ledger, ◌⟹*◌}
use tx_submitter.Store.Ledger.Permanence.{SamePayment}
use tx_submitter.Store.Writers.{Turn, Turns, Holds, writers-IsConsistent}
use tx_submitter.Pool.{pool_size, add_account, list_active, refresh_sequence}
use tx_submitter.Store.Accounts.{
  update_channel_account_seq, list_channel_accounts, create_channel_account,
}
use tx_submitter.Pool.Provision.{ensure_pool_size, sync_sequences}
use tx_submitter.Pool.Provision.Size.{IsFresh, active, ensure_pool_size_reaches}
use tx_submitter.Submitter.{submit_process, start, ticked, done}
use tx_submitter.Submitter.Lifecycle.{At}
use tx_submitter.Submitter.Again.{submit_process_twice}
use tx_submitter.Submitter.Once.{start_once}
use tx_submitter.Server.Process.{serve, main, requested, engine_ticked, interrupted}
use tx_submitter.Pool.Provision.Sequences.{in_use, synced, sync_sequences_lem}
use tx_submitter.Submitter.Signing.{payment_params, fee_bump_params}
use tx_submitter.Submitter.Builder.{build, payment_transaction}
use tx_submitter.External.{Envelope, FeeBump}
use tx_submitter.Submitter.Contents.{KeepsContents, IsFor}
use tx_submitter.Server.Audit.{serve_accounted}
use tx_submitter.Server.Books.{main-ledger, main-keeps_payment}
use tx_submitter.Store.{list_pending, pending_row}
use tx_submitter.Store.Reads.{list_pending_lem}
use tx_submitter.Submitter.Fees.{build-le-max_base_fee}
use tx_submitter.Base.Int.{◌≤ℤ◌}
use tx_submitter.Base.{length}
use tx_submitter.State.{status_eq}
use tx_submitter.Tests.{
  finished, channel, whole_floats, environment, builder, payment, order, world, engine, submission,
}
use tx_submitter.Tests.Together.{
  payment-IsPayable, world-AllPayable, world-Idle, environment-IsHealthy, lone_IsConsistent,
}
use tx_submitter.Tests.Whole.{setting}

main-ledger_example :
    ledger world.db
    ⟹* ledger
        (main whole_floats
          (setting (codes "7"))
          (requested submission ∷ engine_ticked ∷ interrupted ∷ [])
          world).1.db
main-ledger_example =
    main-ledger whole_floats (setting (codes "7"))
      (requested submission ∷ engine_ticked ∷ interrupted ∷ []) world

main-keeps_payment_example :
    ((t' : Transaction) × ((ledger
            (main whole_floats (setting (codes "7")) (engine_ticked ∷ []) world).1.db).by_id
          (codes "t1")
        ≡ some t')
      × SamePayment payment t')
    × ((more : List Transition) × ((ledger
              (main whole_floats (setting (codes "7")) (engine_ticked ∷ []) world).1.db).history
            (codes "t1")
          ≡ (ledger world.db).history (codes "t1") ++ more))
unfolding text_eq
main-keeps_payment_example =
    main-keeps_payment whole_floats (setting (codes "7")) (engine_ticked ∷ []) world (codes "t1")
      payment refl

abbrev paid_once : World
paid_once = (submit_process whole_floats environment engine payment world).1

submit_process_twice_example :
    ((submit_process whole_floats environment engine payment world).0 ≡ ok tt)
    × At (codes "t1") Status.confirmed paid_once.db
    × ((submit_process whole_floats environment engine payment paid_once).0 ≡ ok tt)
    × At
        (codes "t1")
        Status.confirmed
        (submit_process whole_floats environment engine payment paid_once).1.db
    × (2 + sends world.trace
        ≤ sends (submit_process whole_floats environment engine payment paid_once).1.trace)
unfolding text_eq
submit_process_twice_example =
    submit_process_twice whole_floats environment engine engine environment-IsHealthy
      environment-IsHealthy payment payment Status.pending world refl payment-IsPayable
      payment-IsPayable world-Idle (payment, refl, refl)

start_once_example :
    sends (start whole_floats environment engine (ticked ∷ done ∷ []) world).1.trace
      + count is_pending
          (start whole_floats environment engine (ticked ∷ done ∷ []) world).1.db.transactions
    ≡ sends world.trace + count is_pending world.db.transactions
start_once_example =
    start_once whole_floats environment engine environment-IsHealthy (ticked ∷ done ∷ []) world
      world-AllPayable world-Idle

-- A payment is taken in between the two halves of an update.
abbrev looked : World
looked = (read_status environment (codes "t1") world).1

abbrev taken : World
taken = (create_transaction environment order looked).1

abbrev written : World
written = (write_status environment (codes "t1") Status.pending Status.failed [] none taken).1

overlapped : Turns environment world (record { world = written; held = none })
unfolding read_status text_eq
overlapped =
    Turns.later
      (Turns.later (Turns.later Turns.at_rest (Turn.read (codes "t1") Status.pending refl refl))
        (Turn.create order))
      (Turn.write (codes "t1") Status.pending Status.failed [] none refl refl)

writers-IsConsistent_example : IsConsistent written.db × Holds none written.db
writers-IsConsistent_example = writers-IsConsistent environment world overlapped lone_IsConsistent

abbrev no_accounts : World
no_accounts = record world { db = record world.db { accounts = [] } }

keys-IsFresh : IsFresh environment no_accounts.db
keys-IsFresh = record {
  parses = λ n kp drawn. ground arith;
  apart = λ n m a b drawn drawn' same. ground arith;
  unused = λ n kp drawn. refl;
}

ensure_pool_size_example :
    active
      (ensure_pool_size environment
        (record { network_pass = codes "test"; distribution_kp = engine.distribution_kp })
        (pos 3)
        (codes "2")
        no_accounts).1.db.accounts
    ≡ 3
unfolding ensure_pool_size pool_size list_channel_accounts add_account create_channel_account
    text_eq ◌-ℤ◌
ensure_pool_size_example =
    ensure_pool_size_reaches environment
      (record { network_pass = codes "test"; distribution_kp = engine.distribution_kp }) (pos 3)
      (codes "2") no_accounts keys-IsFresh refl

environment-KeepsContents : KeepsContents environment
environment-KeepsContents = record {
  builds = λ p t h. ground arith;
  signs = λ pass kp t t' h. ground arith;
  bumps = λ p f h. ground arith;
  signs_bump = λ pass kp f f' h. ground arith;
}

serve_accounted_example :
    (new : List Event) × ((serve whole_floats environment engine
        (requested submission ∷ engine_ticked ∷ [])
        world).1.trace
      ≡ new ++ [])
    × All
        (λ v.
          (t : Transaction) × (find_where
              (has_id t.id)
              (serve whole_floats environment engine
                (requested submission ∷ engine_ticked ∷ [])
                world).1.db.transactions
            ≡ some t)
          × IsFor environment builder t v)
        new
serve_accounted_example =
    serve_accounted whole_floats environment engine environment-KeepsContents
      (requested submission ∷ engine_ticked ∷ []) world lone_IsConsistent

sync_sequences_example :
    (sync_sequences environment world).1.db.accounts
    ≡ map
        (λ ca. if in_use world.db.accounts ca.public_key then synced (λ key. ok (pos 7)) ca else ca)
        world.db.accounts
unfolding sync_sequences list_active list_channel_accounts refresh_sequence
    update_channel_account_seq text_eq
sync_sequences_example =
    sync_sequences_lem environment (λ key. ok (pos 7)) (λ n key. refl) world refl

abbrev inner : Envelope
inner = record {
  params = payment_transaction builder (payment_params environment payment channel 1240 (pos 300));
  signers = codes "SC" ∷ [];
}

abbrev bumped : FeeBump
bumped = record {
  params = fee_bump_params whole_floats environment engine inner (pos 300);
  signers = codes "GD" ∷ [];
}

list_pending_example :
    (length (pending_row payment ∷ []) ≤ 10)
    × All (λ t. t.status ≡ Status.pending) (pending_row payment ∷ [])
unfolding list_pending status_eq
list_pending_example = list_pending_lem environment 10 finished (pending_row payment ∷ []) refl

abbrev unsigned : Envelope
unsigned = record inner { signers = [] }

builds_inner :
    build environment builder (payment_params environment payment channel 1240 (pos 300))
    ≡ ok unsigned
unfolding build
builds_inner = refl

build-le-max_base_fee_example : unsigned.params.base_fee ≤ℤ builder.max_base_fee
build-le-max_base_fee_example =
    build-le-max_base_fee environment environment-KeepsContents.builds builder
      (payment_params environment payment channel 1240 (pos 300)) unsigned builds_inner
