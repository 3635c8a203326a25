-- ===== src/Tests/Together.antt =====
-- Examples on callers that run at the same time, and on the life of a payment.
use tx_submitter.Base.{◌≡◌, ◌≢◌, refl, arith, none, some, [], ◌∷◌, find_where, if◌then◌else◌, ◌==ℕ◌}
use tx_submitter.Base.Text.{text_eq, codes}
use tx_submitter.State.{Status, status_eq, Transaction}
use tx_submitter.Errors.{Error, ok, err, wrap, external}
use tx_submitter.Base.Int.{pos}
use tx_submitter.Store.{has_id, read_status, write_status, mark_channel_used, update_status}
use tx_submitter.Store.Accounts.{acquire_channel_account, least_used}
use tx_submitter.Store.Consistency.{IsConsistent, replay}
use tx_submitter.Store.Races.{update_status_race}
use tx_submitter.Pool.Sessions.{System, Session, Step, Reach, next_seq}
use tx_submitter.Pool.Sessions.Exclusive.{holding_exclusive}
use tx_submitter.Pool.Sessions.Runs.{acquire-Reach}
use tx_submitter.Submitter.{with_channel, start, ticked, done}
use tx_submitter.Submitter.Lifecycle.{◌⟶*◌, At}
use tx_submitter.Submitter.Outcomes.{first_answer}
use tx_submitter.Submitter.Unrecorded.{accepted_unrecorded}
use tx_submitter.External.{Env, Envelope}
use tx_submitter.Submitter.Builder.{payment_transaction, build}
use tx_submitter.Submitter.Signing.{
  payment_params, build_signed_payment, submit, sign_as_source, ledger_bound,
}
use tx_submitter.Retry.{current_fee}
use tx_submitter.Submitter.Refused.{start_refused}
use tx_submitter.Submitter.Queue.{start_moves, start_untouched}
use tx_submitter.Submitter.Delivery.{IsHealthy, IsPayable}
use tx_submitter.Submitter.Payable.{AllPayable}
use tx_submitter.Submitter.Draining.{Idle}
use tx_submitter.World.{World, Event}
use tx_submitter.Tests.{
  whole_floats, environment, payment, channel, next_channel, world, engine, builder,
}

pub environment-IsHealthy : IsHealthy whole_floats environment engine
unfolding first_answer
environment-IsHealthy = record {
  up = λ n. refl;
  signs = λ s kp t parsed. refl;
  included = λ n m t hid got. refl;
}

pub payment-IsPayable : IsPayable whole_floats environment engine payment
payment-IsPayable = record {
  destination = refl;
  source = refl;
  builds = λ ca max_ledger usable. refl;
  accepted = λ ca t w n built. refl;
}

pub world-AllPayable : AllPayable whole_floats environment engine world.db
world-AllPayable = ((λ waits. payment-IsPayable), tt)

pub lone_IsConsistent : IsConsistent world.db
unfolding replay
lone_IsConsistent = record { replayed = (refl, tt); referred = tt; distinct = (refl, tt) }

pub world-Idle : Idle whole_floats environment engine world.db
world-Idle = (lone_IsConsistent, (refl, (refl, tt)), refl, ((refl, refl), ((refl, refl), tt)))

start_moves_example :
    (t' : Transaction) × (find_where
        (has_id (codes "t1"))
        (start whole_floats environment engine (ticked ∷ done ∷ []) world).1.db.transactions
      ≡ some t')
    × (Status.pending ⟶* t'.status)
unfolding text_eq
start_moves_example =
    start_moves whole_floats environment engine (codes "t1") (ticked ∷ done ∷ []) world payment
      lone_IsConsistent refl

-- One failed payment, with its history.
abbrev settled : World
settled = record world {
  db = record world.db {
    transactions = record payment { status = Status.failed } ∷ [];
    transitions =
        record {
          id = 1;
          transaction_id = codes "t1";
          from_status = some Status.pending;
          to_status = Status.failed;
          detail = none;
          attempted_at = 2;
        }
        ∷ [];
    next_transition = 2;
  };
}

settled_IsConsistent : IsConsistent settled.db
unfolding replay text_eq status_eq
settled_IsConsistent = record {
  replayed = (refl, tt);
  referred = (refl, tt);
  distinct = (refl, tt);
}

start_untouched_example :
    find_where
      (has_id (codes "t1"))
      (start whole_floats environment engine (ticked ∷ []) settled).1.db.transactions
    ≡ some (record payment { status = Status.failed })
unfolding text_eq
start_untouched_example =
    start_untouched whole_floats environment engine (codes "t1") (ticked ∷ []) settled
      (record payment { status = Status.failed }) settled_IsConsistent refl (λ h. ground arith)

abbrev both_read : World
both_read = (read_status environment (codes "t1") (read_status environment (codes "t1") world).1).1

abbrev written_twice : World
written_twice =
    (write_status environment (codes "t1") Status.pending Status.submitted [] none
      (write_status environment (codes "t1") Status.pending Status.failed [] none both_read).1).1

update_status_race_example :
    ((read_status environment (codes "t1") world).0 ≡ ok Status.pending)
    × ((read_status environment (codes "t1") (read_status environment (codes "t1") world).1).0
        ≡ ok Status.pending)
    × ((write_status environment (codes "t1") Status.pending Status.failed [] none both_read).0
        ≡ ok tt)
    × ((write_status environment
          (codes "t1")
          Status.pending
          Status.submitted
          []
          none
          (write_status environment
            (codes "t1")
            Status.pending
            Status.failed
            []
            none
            both_read).1).0
        ≡ ok tt)
    × ¬ IsConsistent written_twice.db
unfolding text_eq
update_status_race_example =
    update_status_race environment (λ n. refl) (codes "t1") world Status.failed Status.submitted []
      [] none none payment refl refl refl

abbrev nobody : System
nobody = record { db = world.db; row_locks = []; session = λ i. Session.idle }

-- Two callers have acquired, one after the other.
both_hold :
    (t : System) × Reach environment world.db t
    × (t.session 0 ≡ Session.holding (next_seq channel))
    × (t.session 1 ≡ Session.holding (next_seq next_channel))
unfolding text_eq least_used
both_hold = (
  _,
  Reach.later
      (Reach.later
        (Reach.later (Reach.later Reach.nobody_yet (Step.select 0 channel refl refl))
          (Step.commit 0 1 channel refl))
        (Step.select 1 next_channel refl refl))
      (Step.commit 1 2 next_channel refl),
  refl,
  refl,
)

holding_exclusive_example : codes "C" ≢ codes "C2"
holding_exclusive_example =
    holding_exclusive environment world.db both_hold.0 0 1 (next_seq channel)
      (next_seq next_channel) both_hold.1 both_hold.2 both_hold.3 (λ same. omega arith)

acquire-Reach_example :
    (t : System) × Reach environment world.db t
    × (t.db ≡ (acquire_channel_account environment world).1.db)
    × (t.session 0 ≡ Session.holding (next_seq channel))
unfolding acquire_channel_account least_used
acquire-Reach_example =
    acquire-Reach environment world.db nobody world 0 (next_seq channel) Reach.nobody_yet refl refl
      refl refl

-- The database fails at the fourth call.
abbrev failing : Env
failing = record environment { db_fault = λ n. if n ==ℕ 3 then some (codes "down") else none }

abbrev sent_payment : Envelope
sent_payment = record {
  params = payment_transaction builder (payment_params failing payment channel 1240 (pos 100));
  signers = codes "S" ∷ codes "SC" ∷ [];
}

abbrev unread : Error
unread = wrap (codes "getting current status") (external (codes "down"))

accepted_unrecorded_example :
    ((with_channel whole_floats failing engine payment channel world).0
      ≡ err (wrap (codes "updating status to submitted") unread))
    × ((with_channel whole_floats failing engine payment channel world).1.trace
        ≡ Event.sent sent_payment ∷ [])
    × At
        (codes "t1")
        Status.pending
        (with_channel whole_floats failing engine payment channel world).1.db
unfolding text_eq mark_channel_used build_signed_payment submit update_status build sign_as_source
    current_fee ledger_bound
accepted_unrecorded_example =
    accepted_unrecorded whole_floats failing engine payment channel world sent_payment
      (codes "hash") unread (payment, refl, refl) refl refl refl refl

-- No text is an address.
abbrev strict : Env
strict = record environment { parse_address = λ _. err (external (codes "no address")) }

start_refused_example :
    At
      (codes "t1")
      Status.pending
      (start whole_floats strict engine (ticked ∷ ticked ∷ done ∷ []) world).1.db
unfolding text_eq
start_refused_example =
    start_refused whole_floats strict engine (codes "t1") (ticked ∷ ticked ∷ done ∷ []) world
      payment lone_IsConsistent refl refl refl
