-- ===== src/Submitter/Polling.antt =====
-- internal/submitter/engine.go: waiting for a submitted transaction to be included.
use tx_submitter.Base.{ℕ, zero, suc, some, if◌then◌else◌}
use tx_submitter.Base.Int.{pos}
use tx_submitter.Base.Text.{Text, codes}
use tx_submitter.State.{Status}
use tx_submitter.Errors.{wrap, external}
use tx_submitter.External.{Env}
use tx_submitter.World.{Action, Event, ◌>>◌, fail, annotate, try_else, ask, emit}
use tx_submitter.Store.{update_status}
use tx_submitter.Submitter.Retries.{mark_failed}

-- Two seconds, in nanoseconds.
abbrev pub poll_pause : ℕ
poll_pause = 2_000_000_000

abbrev pub max_polls : ℕ
max_polls = 30

module _ (e : Env) where
  -- `markFailed` and an error of the same text.
  unfoldable pub give_up : Text → Text → Action (Unit {0})
  give_up tx_id err_msg = do mark_failed e tx_id err_msg; fail (external err_msg)

  unfoldable pub confirm : Text → Text → Action (Unit {0})
  confirm tx_id horizon_id =
      annotate (wrap (codes "updating to confirmed"))
        (update_status e tx_id Status.confirmed (codes "confirmed on chain") (some horizon_id))

  unfoldable pub poll_loop : ℕ → Text → Text → Action (Unit {0})
  unfolding try_else
  poll_loop zero tx_id horizon_id =
      give_up tx_id (codes "polling timed out — transaction not confirmed")
  poll_loop (suc rounds) tx_id horizon_id = do
    emit (Event.slept (pos poll_pause))
    try_else (ask λ n. e.transaction_detail n horizon_id) (λ _. poll_loop rounds tx_id horizon_id)
        λ successful.
          if successful
          then confirm tx_id horizon_id
          else give_up tx_id (codes "transaction failed")

  unfoldable pub poll_for_confirmation : Text → Text → Action (Unit {0})
  unfolding poll_loop
  poll_for_confirmation tx_id horizon_id = poll_loop max_polls tx_id horizon_id
