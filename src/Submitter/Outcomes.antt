-- ===== src/Submitter/Outcomes.antt =====
-- How the polling ends, and how a submission that Horizon accepts ends.
use tx_submitter.Base.{
  ℕ, zero, suc, ◌<◌, ◌≡◌, ◌≢◌, refl, Bool, true, false, Option, none, some, ◌∷◌, arith, find_where,
}
use tx_submitter.Base.Int.{pos}
use tx_submitter.Base.Text.{Text, codes}
use tx_submitter.State.{Status, Transaction, is_terminal}
use tx_submitter.Errors.{Result, ok, err}
use tx_submitter.External.{Env}
use tx_submitter.World.{World, Event}
use tx_submitter.Store.{has_id, update_status}
use tx_submitter.Store.Updates.{update_status_ok, status_written}
use tx_submitter.Submitter.Polling.{
  poll_pause, max_polls, give_up, confirm, poll_loop, poll_for_confirmation,
}

module _ (e : Env) (horizon_id : Text) where
  -- The first answer of Horizon among the next `rounds`, if the calls are numbered from n.
  unfoldable pub first_answer : ℕ → ℕ → Option Bool
  first_answer zero n = none
  first_answer (suc rounds) n =
      let later = first_answer rounds (suc n) in
      elim (e.transaction_detail n horizon_id) [ err _ ↦ later | ok b ↦ some b ]

  -- The world after `waits` polls.
  unfoldable pub polled : ℕ → World → World
  polled zero w = w
  polled (suc waits) w =
      polled waits
        (record w { trace = Event.slept (pos poll_pause) ∷ w.trace; calls = suc w.calls })

  -- How many polls are made, if Horizon answers among the next `rounds`.
  pub polls : ℕ → ℕ → ℕ
  polls zero n = 0
  polls (suc rounds) n =
      let later = polls rounds (suc n) in
      elim (e.transaction_detail n horizon_id) [ err _ ↦ suc later | ok b ↦ 1 ]

  polls-le : (rounds n : ℕ) → polls rounds n < suc rounds
  unfolding polls
  polls-le zero n = omega arith
  polls-le (suc rounds) n = ground (arith, polls-le rounds (suc n))

  -- What polling does after the first answer.
  abbrev pub conclude : Text → Option Bool → World → Result (Unit {0}) × World
  conclude tx_id none w = give_up e tx_id (codes "polling timed out — transaction not confirmed") w
  conclude tx_id (some true) w = confirm e tx_id horizon_id w
  conclude tx_id (some false) w = give_up e tx_id (codes "transaction failed") w

  poll_loop_lem :
      (rounds : ℕ) (tx_id : Text) (w : World)
      → poll_loop e rounds tx_id horizon_id w
        ≡ conclude tx_id (first_answer rounds w.calls) (polled (polls rounds w.calls) w)
  unfolding poll_loop first_answer polled polls
  poll_loop_lem zero tx_id w = refl
  poll_loop_lem (suc rounds) tx_id w = ground (
    arith,
    poll_loop_lem rounds tx_id
        (record w { trace = Event.slept (pos poll_pause) ∷ w.trace; calls = suc w.calls }),
  )

  pub polled-db : (waits : ℕ) (w : World) → (polled waits w).db ≡ w.db
  unfolding polled
  polled-db zero w = refl
  polled-db (suc waits) w = polled-db waits _

  -- `pollForConfirmation` makes at most 30 polls and ends: with `confirm` if the first answer of
  -- Horizon is that the transaction is successful, with the failure of the transaction if the first
  -- answer is that it is not, and with the timeout if there is no answer.
  pub poll_for_confirmation_lem :
      (tx_id : Text) (w : World)
      → (waits : ℕ) × (waits < suc max_polls)
        × (poll_for_confirmation e tx_id horizon_id w
            ≡ conclude tx_id (first_answer max_polls w.calls) (polled waits w))
  unfolding poll_for_confirmation
  poll_for_confirmation_lem tx_id w =
      (polls max_polls w.calls, polls-le max_polls w.calls, poll_loop_lem max_polls tx_id w)

  give_up-err : (tx_id msg : Text) (w : World) → (give_up e tx_id msg w).0 ≢ ok tt
  unfolding give_up
  give_up-err tx_id msg w h = ground arith

  confirm-ok :
      (tx_id : Text) (w : World)
      → (confirm e tx_id horizon_id w).0 ≡ ok tt
      → (update_status e tx_id Status.confirmed (codes "confirmed on chain") (some horizon_id) w).0
        ≡ ok tt
  unfolding confirm
  confirm-ok tx_id w h = ground arith

  -- The row is written as confirmed, from a status that is not terminal.
  abbrev pub Confirms : Text → World → World → Type 0
  Confirms tx_id w w' =
      (t : Transaction) × (find_where (has_id tx_id) w.db.transactions ≡ some t)
      × (is_terminal t.status ≡ false)
      × (w'.db
          ≡ status_written e tx_id Status.confirmed (codes "confirmed on chain") (some horizon_id) w
              t.status)

  confirm-Confirms :
      (tx_id : Text) (w : World)
      → (confirm e tx_id horizon_id w).0 ≡ ok tt
      → Confirms tx_id w (confirm e tx_id horizon_id w).1
  unfolding confirm
  confirm-Confirms tx_id w h =
      update_status_ok e tx_id Status.confirmed (codes "confirmed on chain") (some horizon_id) w
        (confirm-ok tx_id w h)

  conclude-ok :
      (tx_id : Text) (answer : Option Bool) (w : World)
      → (conclude tx_id answer w).0 ≡ ok tt
      → (answer ≡ some true) × Confirms tx_id w (conclude tx_id answer w).1
  conclude-ok tx_id none w h = absurd (give_up-err tx_id _ w h)
  conclude-ok tx_id (some true) w h = (refl, confirm-Confirms tx_id w h)
  conclude-ok tx_id (some false) w h = absurd (give_up-err tx_id _ w h)

  -- If `pollForConfirmation` returns nil, the first answer that Horizon gave within the 30 polls is
  -- that the transaction is successful, the row was not in a terminal status, and it is written as
  -- confirmed with its history row.
  pub poll_for_confirmation-ok :
      (tx_id : Text) (w : World)
      → (poll_for_confirmation e tx_id horizon_id w).0 ≡ ok tt
      → (waits : ℕ) × (first_answer max_polls w.calls ≡ some true)
        × Confirms tx_id (polled waits w) (poll_for_confirmation e tx_id horizon_id w).1
  poll_for_confirmation-ok tx_id w h =
      let (waits, _, path) = poll_for_confirmation_lem tx_id w in
      let done =
        conclude-ok tx_id (first_answer max_polls w.calls) (polled waits w) (rw (← path) h) in
      (waits, done.0, rw path done.1)
