-- ===== src/Submitter/Retries.antt =====
-- internal/submitter/engine.go: what follows a refused submission. One pass of the loop is
-- `retry_once`; the loop recurs on the attempts left.
use tx_submitter.Base.{ℕ, zero, suc, ◌-◌, Bool, not, none, some, ◌++◌, if◌then◌else◌}
use tx_submitter.Base.Int.{ℤ, pos, pos_part, ltb_ℤ, add64}
use tx_submitter.Base.Text.{Text, codes, contains, decimal}
use tx_submitter.State.{Status, Transaction, ChannelAccount}
use tx_submitter.Errors.{Error, wrap, error_text, Result, err}
use tx_submitter.External.{Env}
use tx_submitter.Metrics.{increment_dead_letters}
use tx_submitter.World.{
  Action, Event, ◌>>=◌, ◌>>◌, pure, fail, annotate, attempt, ignore, try_else, lift, ask, emit,
  measure,
}
use tx_submitter.Store.{update_status}
use tx_submitter.Retry.{Floats, current_fee, backoff, should_retry}
use tx_submitter.Pool
use tx_submitter.Submitter.Signing.{
  Engine, build_signed_payment, build_fee_bump, submit, submit_fee_bump,
}

unfoldable pub is_bad_sequence_error : Error → Bool
is_bad_sequence_error er = contains (error_text er) (codes "tx_bad_seq")

-- How a pass of the loop ends: `continue` with an account and an error, or `return`.
pub data Pass : Type 0 where
  continue : ChannelAccount → Error → Pass
  return : Result (Unit {0}) → Pass

unfoldable pub after_pass : (ChannelAccount → Error → Action (Unit {0})) → Pass → Action (Unit {0})
after_pass loop (continue ca er) = loop ca er
after_pass loop (return result) = lift result

abbrev pub fee_cap : ℤ → ℤ → ℤ
fee_cap max_base_fee fee = if ltb_ℤ max_base_fee fee then max_base_fee else fee

module _ (e : Env) where
  unfoldable pub mark_failed : Text → Text → Action (Unit {0})
  mark_failed tx_id err_msg = ignore (update_status e tx_id Status.failed err_msg none)

  unfoldable pub mark_dead_letter : Text → Text → Action (Unit {0})
  mark_dead_letter tx_id reason = do
    ignore (update_status e tx_id Status.dead_letter reason none)
    measure increment_dead_letters

  unfoldable pub resync_channel_sequence : ChannelAccount → Action ℤ
  resync_channel_sequence ca = do
    sequence ←
        annotate (wrap (codes "fetching on-chain sequence for " ++ ca.public_key))
          (ask λ n. e.account_detail n ca.public_key)
    annotate (wrap (codes "persisting resynced sequence for " ++ ca.public_key))
        (Pool.refresh_sequence e ca.public_key (add64 sequence (pos 1)))
    pure (add64 sequence (pos 1))

  -- `time.Sleep(backoff)` if it is positive.
  unfoldable pub pause : ℤ → Action (Unit {0})
  pause duration = if ltb_ℤ (pos 0) duration then emit (Event.slept duration) else pure tt

  -- `return e.store.UpdateStatus(… StatusSubmitted …)`
  unfoldable pub record_submitted : Transaction → Text → Text → Action Pass
  record_submitted tx detail horizon_id = do
    recorded ← attempt (update_status e tx.id Status.submitted detail (some horizon_id))
    pure (return recorded)

module _ (F : Floats) (e : Env) (g : Engine F) where
  -- With the resynced sequence in the account.
  unfoldable pub resubmit : ℕ → Transaction → ChannelAccount → Action Pass
  unfolding try_else
  resubmit n tx ca =
      try_else (build_signed_payment F e g tx ca (current_fee F g.retry_policy (pos n)))
        (λ build_err. pure (continue ca build_err))
        λ star_tx.
          try_else (submit e star_tx) (λ submit_err. pure (continue ca submit_err))
            λ horizon_id.
              record_submitted e tx
                (codes "resubmitted with resynced sequence at attempt " ++ decimal n) horizon_id

  unfoldable pub resync_and_resubmit : ℕ → Transaction → ChannelAccount → Action Pass
  unfolding try_else
  resync_and_resubmit n tx ca =
      try_else (resync_channel_sequence e ca) (λ sync_err. pure (continue ca sync_err))
        λ new_seq. resubmit n tx (record ca { current_seq = new_seq })

  unfoldable pub bump_fee : ℕ → Transaction → ChannelAccount → Action Pass
  unfolding try_else
  bump_fee n tx ca =
      try_else
        (build_fee_bump F e g tx ca (fee_cap g.max_base_fee (current_fee F g.retry_policy (pos n))))
        (λ bump_err. pure (continue ca bump_err))
        λ fee_bump_tx.
          try_else (submit_fee_bump e fee_bump_tx) (λ submit_err. pure (continue ca submit_err))
            λ horizon_id.
              record_submitted e tx (codes "fee-bumped at attempt " ++ decimal n) horizon_id

  -- The pass with attempt number n, from 1.
  unfoldable pub retry_once : ℕ → Transaction → ChannelAccount → Error → Action Pass
  retry_once n tx ca er =
      if not (should_retry F g.retry_policy (some er) (pos (n - 1)))
      then (do
        mark_failed e tx.id (codes "terminal error: " ++ error_text er)
        pure (return (err (wrap (codes "terminal error for tx " ++ tx.id) er))))
      else (do
        pause e (backoff F g.retry_policy (pos n))
        if is_bad_sequence_error er then resync_and_resubmit n tx ca else bump_fee n tx ca)

  -- The loop from attempt n on, with `rounds` passes left.
  unfoldable pub retry_loop : ℕ → ℕ → Transaction → ChannelAccount → Error → Action (Unit {0})
  unfolding after_pass
  retry_loop zero n tx ca er = do
    mark_dead_letter e tx.id (codes "max retries exceeded: " ++ error_text er)
    fail (wrap (codes "max retries exceeded for tx " ++ tx.id) er)
  retry_loop (suc rounds) n tx ca er = do
    pass ← retry_once n tx ca er
    after_pass (λ ca' er'. retry_loop rounds (suc n) tx ca' er') pass

  -- A `maxAttempts` below 1 leaves no pass.
  unfoldable pub handle_submission_error : Transaction → ChannelAccount → Error → Action (Unit {0})
  unfolding retry_loop
  handle_submission_error tx ca er = retry_loop (pos_part g.retry_policy.max_attempts) 1 tx ca er
