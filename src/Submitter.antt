-- ===== src/Submitter.antt =====
-- internal/submitter/engine.go: one payment from the queue to its end, and the loop over the queue.
-- A tick of the loop is a call of `tick`; logging is left out.
pub mod Builder
pub mod Signing
pub mod Retries
pub mod Polling
pub mod Keeping
pub mod Invariants
pub mod Locks
pub mod Outcomes
pub mod Fees
pub mod Sends
pub mod Paying
pub mod Again
pub mod Once
pub mod Contents
pub mod Sending
pub mod Fidelity
pub mod Accounting
pub mod Lifecycle
pub mod Stages
pub mod Progress
pub mod Queue
pub mod Unrecorded
pub mod Delivery
pub mod Confirmation
pub mod Draining
pub mod Frame
pub mod Listing
pub mod Payable
pub mod Bumps
pub mod Refused
pub mod Backlog
use tx_submitter.Base.{ℕ, ◌-◌, Bool, List, [], ◌∷◌, length}
use tx_submitter.Base.Int.{pos}
use tx_submitter.Base.Text.{Text, codes}
use tx_submitter.State.{Status, Transaction, ChannelAccount}
use tx_submitter.Errors.{wrap, Result, ok, err}
use tx_submitter.External.{Env}
use tx_submitter.Metrics.{observe_submit_latency, increment_submission, set_pending}
use tx_submitter.World.{
  World, Action, ◌>>=◌, ◌>>◌, pure, annotate, attempt, ignore, try_else, lift, gets, measure,
}
use tx_submitter.Store.{update_status, mark_channel_used, list_pending}
use tx_submitter.Retry.{Floats, current_fee}
use tx_submitter.Pool
use Signing.{Engine, build_signed_payment, submit}
use Retries.{handle_submission_error}
use Polling.{poll_for_confirmation}
use tx_submitter.Base.{some}

abbrev pub failed_outcome : Text
failed_outcome = codes "failed"

-- The value of `outcome` when `SubmitProcess` returns.
abbrev pub outcome_of : Result Text → Text
outcome_of (ok outcome) = outcome
outcome_of (err _) = failed_outcome

abbrev pub without_value {ℓ} : {A : Type ℓ} → Result A → Result (Unit {0})
without_value (ok _) = ok tt
without_value (err e) = err e

-- What the `select` of `Start` receives next.
pub data Signal : Type 0 where
  ticked done : Signal

module _ (F : Floats) (e : Env) (g : Engine F) where
  -- `SubmitProcess` after the channel account is acquired. It returns `outcome`, which an error
  -- leaves at "failed".
  unfoldable pub with_channel : Transaction → ChannelAccount → Action Text
  unfolding try_else
  with_channel tx ca = do
    annotate (wrap (codes "marking channel used")) (mark_channel_used e tx.id ca.public_key)
    star_tx ←
        annotate (wrap (codes "building transaction"))
          (build_signed_payment F e g tx ca (current_fee F g.retry_policy (pos 0)))
    try_else (submit e star_tx)
        (λ er. handle_submission_error F e g tx ca er >> pure (codes "submitted"))
        λ horizon_id. do
          annotate (wrap (codes "updating status to submitted")) (
              update_status e tx.id Status.submitted (codes "submitted to horizon")
                (some horizon_id))
          poll_for_confirmation e tx.id horizon_id
          pure (codes "confirmed")

  -- `SubmitProcess` but for its metrics.
  unfoldable pub process : Transaction → Action Text
  unfolding with_channel
  process tx = do
    ca ← annotate (wrap (codes "acquiring channel account")) (Pool.acquire e)
    result ← attempt (with_channel tx ca)
    ignore (Pool.release e ca.public_key)
    lift result

  unfoldable pub submit_process : Transaction → Action (Unit {0})
  unfolding process
  submit_process tx = do
    start ← gets (λ w. e.now w.calls)
    result ← attempt (process tx)
    end ← gets (λ w. e.now w.calls)
    measure (observe_submit_latency (end - start) (outcome_of result))
    measure (increment_submission (outcome_of result))
    lift (without_value result)

  -- The loop over the pending transactions of one tick.
  unfoldable pub process_all : List Transaction → Action (Unit {0})
  unfolding submit_process
  process_all [] = pure tt
  process_all (tx ∷ pending) = do ignore (submit_process tx); process_all pending

  -- A tick of the ticker.
  unfoldable pub tick : Action (Unit {0})
  unfolding process_all try_else
  tick =
      try_else (list_pending e 10) (λ _. pure tt)
        λ pending. do measure (set_pending (length pending)); process_all pending

  -- `Start` over the signals that it receives; it returns at `done`.
  unfoldable pub start : List Signal → Action (Unit {0})
  unfolding tick
  start [] = pure tt
  start (ticked ∷ signals) = do tick; start signals
  start (done ∷ signals) = pure tt
