-- ===== src/Submitter/Sends.antt =====
-- How many transactions are sent to Horizon for one payment.
use tx_submitter.Base.{ℕ, zero, suc, ◌+◌, ◌≤◌, ◌≡◌, arith, Option}
use tx_submitter.Base.Int.{ℤ, pos_part}
use tx_submitter.Base.Text.{Text, text_eq}
use tx_submitter.State.{Status, Transaction, ChannelAccount}
use tx_submitter.Errors.{Error}
use tx_submitter.External.{Env, Envelope, FeeBump}
use tx_submitter.World.{World, Action}
use tx_submitter.World.Sends.{
  sends, AtMost, quiet, sends_rules, AtMost-before, AtMost-bind, AtMost-gets, AtMost-le,
  AtMost-lift, AtMost-one_try, AtMost-run, AtMost-try_else,
}
use tx_submitter.Store.{update_status, mark_channel_used}
use tx_submitter.Store.Accounts.{
  acquire_channel_account, release_channel_account, update_channel_account_seq,
}
use tx_submitter.Retry.{Floats}
use tx_submitter.Pool
use tx_submitter.Submitter.{with_channel, process, submit_process}
use tx_submitter.Submitter.Signing.{
  Engine, build_signed_payment, build_fee_bump, current_ledger_bound, submit, submit_fee_bump,
}
use tx_submitter.Submitter.Polling.{give_up, confirm, poll_loop, poll_for_confirmation}
use tx_submitter.Submitter.Retries.{
  mark_failed, mark_dead_letter, resync_channel_sequence, pause, record_submitted, resubmit,
  resync_and_resubmit, bump_fee, retry_once, retry_loop, after_pass, Pass, handle_submission_error,
  continue, return,
}

module _ (e : Env) where
  pub update_status-trace :
      (tx_id : Text) (new : Status) (detail : Text) (hid : Option Text) (w : World)
      → (update_status e tx_id new detail hid w).1.trace ≡ w.trace
  unfolding update_status
  update_status-trace tx_id new detail hid w = ground arith

  pub acquire-trace : (w : World) → (Pool.acquire e w).1.trace ≡ w.trace
  unfolding Pool.acquire acquire_channel_account
  acquire-trace w = ground arith

  pub release-trace : (k : Text) (w : World) → (Pool.release e k w).1.trace ≡ w.trace
  unfolding Pool.release release_channel_account
  release-trace k w = ground arith

  pub mark_channel_used-trace :
      (tx_id k : Text) (w : World) → (mark_channel_used e tx_id k w).1.trace ≡ w.trace
  unfolding mark_channel_used
  mark_channel_used-trace tx_id k w = ground arith

  pub resync-trace :
      (ca : ChannelAccount) (w : World) → (resync_channel_sequence e ca w).1.trace ≡ w.trace
  unfolding resync_channel_sequence Pool.refresh_sequence update_channel_account_seq
  resync-trace ca w = ground arith

  pub record_submitted-trace :
      (tx : Transaction) (detail hid : Text) (w : World)
      → (record_submitted e tx detail hid w).1.trace ≡ w.trace
  unfolding record_submitted
  record_submitted-trace tx detail hid w = update_status-trace tx.id _ detail _ w

  pub mark_failed-trace :
      (tx_id msg : Text) (w : World) → (mark_failed e tx_id msg w).1.trace ≡ w.trace
  unfolding mark_failed
  mark_failed-trace tx_id msg w = update_status-trace tx_id _ msg _ w

  pub mark_dead_letter-trace :
      (tx_id msg : Text) (w : World) → (mark_dead_letter e tx_id msg w).1.trace ≡ w.trace
  unfolding mark_dead_letter
  mark_dead_letter-trace tx_id msg w = update_status-trace tx_id _ msg _ w

  module _ (F : Floats) (g : Engine F) (tx : Transaction) (ca : ChannelAccount) where
    pub build_signed_payment-trace :
        (fee : ℤ) (w : World) → (build_signed_payment F e g tx ca fee w).1.trace ≡ w.trace
    unfolding build_signed_payment current_ledger_bound
    build_signed_payment-trace fee w = ground arith

    pub build_fee_bump-trace :
        (fee : ℤ) (w : World) → (build_fee_bump F e g tx ca fee w).1.trace ≡ w.trace
    unfolding build_fee_bump current_ledger_bound
    build_fee_bump-trace fee w = ground arith

  pub submit-AtMost : (t : Envelope) → AtMost 1 (submit e t)
  unfolding submit sends AtMost
  submit-AtMost t w = omega arith

  submit_fee_bump-AtMost : (t : FeeBump) → AtMost 1 (submit_fee_bump e t)
  unfolding submit_fee_bump sends AtMost
  submit_fee_bump-AtMost t w = omega arith

  pause-AtMost : (d : ℤ) → AtMost 0 (pause e d)
  unfolding pause
  pause-AtMost d = search sends_rules

  pub acquire-AtMost : AtMost 0 (Pool.acquire e)
  acquire-AtMost = quiet 0 _ acquire-trace

  pub release-AtMost : (k : Text) → AtMost 0 (Pool.release e k)
  release-AtMost k = quiet 0 _ (release-trace k)

  pub update_status-AtMost :
      (tx_id : Text) (new : Status) (detail : Text) (hid : Option Text)
      → AtMost 0 (update_status e tx_id new detail hid)
  update_status-AtMost tx_id new detail hid = quiet 0 _ (update_status-trace tx_id new detail hid)

  mark_failed-AtMost : (tx_id msg : Text) → AtMost 0 (mark_failed e tx_id msg)
  mark_failed-AtMost tx_id msg = quiet 0 _ (mark_failed-trace tx_id msg)

  pub poll_loop-AtMost : (rounds : ℕ) (tx_id hid : Text) → AtMost 0 (poll_loop e rounds tx_id hid)
  unfolding poll_loop give_up confirm
  poll_loop-AtMost zero tx_id hid = search (sends_rules, mark_failed-AtMost) depth 8
  poll_loop-AtMost (suc rounds) tx_id hid =
      search
        (sends_rules, mark_failed-AtMost, update_status-AtMost, poll_loop-AtMost rounds tx_id hid)
        depth 9

module _ (F : Floats) (e : Env) (g : Engine F) (tx : Transaction) where
  record_submitted-AtMost : (detail hid : Text) → AtMost 0 (record_submitted e tx detail hid)
  record_submitted-AtMost detail hid = quiet 0 _ (record_submitted-trace e tx detail hid)

  pub build_signed_payment-AtMost :
      (ca : ChannelAccount) (fee : ℤ) → AtMost 0 (build_signed_payment F e g tx ca fee)
  build_signed_payment-AtMost ca fee = quiet 0 _ (build_signed_payment-trace e F g tx ca fee)

  build_fee_bump-AtMost :
      (ca : ChannelAccount) (fee : ℤ) → AtMost 0 (build_fee_bump F e g tx ca fee)
  build_fee_bump-AtMost ca fee = quiet 0 _ (build_fee_bump-trace e F g tx ca fee)

  resync-AtMost : (ca : ChannelAccount) → AtMost 0 (resync_channel_sequence e ca)
  resync-AtMost ca = quiet 0 _ (resync-trace e ca)

  mark_dead_letter-AtMost : (msg : Text) → AtMost 0 (mark_dead_letter e tx.id msg)
  mark_dead_letter-AtMost msg = quiet 0 _ (mark_dead_letter-trace e tx.id msg)

  pub mark_channel_used-AtMost : (k : Text) → AtMost 0 (mark_channel_used e tx.id k)
  mark_channel_used-AtMost k = quiet 0 _ (mark_channel_used-trace e tx.id k)

  resubmit-AtMost : (n : ℕ) (ca : ChannelAccount) → AtMost 1 (resubmit F e g n tx ca)
  unfolding resubmit
  resubmit-AtMost n ca =
      search
        (
          sends_rules, AtMost-one_try, build_signed_payment-AtMost, submit-AtMost,
          record_submitted-AtMost,
        )
        depth 9

  resync_and_resubmit-AtMost :
      (n : ℕ) (ca : ChannelAccount) → AtMost 1 (resync_and_resubmit F e g n tx ca)
  unfolding resync_and_resubmit
  resync_and_resubmit-AtMost n ca = search (sends_rules, resync-AtMost, resubmit-AtMost) depth 9

  bump_fee-AtMost : (n : ℕ) (ca : ChannelAccount) → AtMost 1 (bump_fee F e g n tx ca)
  unfolding bump_fee
  bump_fee-AtMost n ca =
      search
        (
          sends_rules, AtMost-one_try, build_fee_bump-AtMost, submit_fee_bump-AtMost,
          record_submitted-AtMost,
        )
        depth 9

  retry_once-AtMost :
      (n : ℕ) (ca : ChannelAccount) (er : Error) → AtMost 1 (retry_once F e g n tx ca er)
  unfolding retry_once
  retry_once-AtMost n ca er =
      search
        (sends_rules, mark_failed-AtMost, pause-AtMost, resync_and_resubmit-AtMost, bump_fee-AtMost)
        depth 9

  after_pass-AtMost :
      (k : ℕ) (loop : ChannelAccount → Error → Action (Unit {0})) (pass : Pass)
      → ((ca : ChannelAccount) (er : Error) → AtMost k (loop ca er))
      → AtMost k (after_pass loop pass)
  unfolding after_pass
  after_pass-AtMost k loop (continue ca er) h = h ca er
  after_pass-AtMost k loop (return result) h = AtMost-lift k result

  retry_loop-AtMost :
      (rounds n : ℕ) (ca : ChannelAccount) (er : Error)
      → AtMost rounds (retry_loop F e g rounds n tx ca er)
  unfolding retry_loop
  retry_loop-AtMost zero n ca er = search (sends_rules, mark_dead_letter-AtMost)
  retry_loop-AtMost (suc rounds) n ca er = AtMost-le (1 + rounds) (suc rounds) _ (omega arith) (
      AtMost-bind 1 rounds _ _ (retry_once-AtMost n ca er)
        λ pass. after_pass-AtMost rounds _ pass λ ca' er'. retry_loop-AtMost rounds (suc n) ca' er')

  abbrev attempts : ℕ
  attempts = pos_part g.retry_policy.max_attempts

  handle_submission_error-AtMost :
      (ca : ChannelAccount) (er : Error) → AtMost attempts (handle_submission_error F e g tx ca er)
  unfolding handle_submission_error
  handle_submission_error-AtMost ca er = retry_loop-AtMost attempts 1 ca er

  with_channel-AtMost : (ca : ChannelAccount) → AtMost (1 + attempts) (with_channel F e g tx ca)
  unfolding with_channel poll_for_confirmation
  with_channel-AtMost ca =
      search
        (
          sends_rules, AtMost-before, AtMost-try_else, mark_channel_used-AtMost,
          build_signed_payment-AtMost, submit-AtMost, handle_submission_error-AtMost,
          update_status-AtMost, poll_loop-AtMost,
        )
        depth 12

  process-AtMost : AtMost (1 + attempts) (process F e g tx)
  unfolding process
  process-AtMost =
      search (sends_rules, AtMost-before, acquire-AtMost, release-AtMost, with_channel-AtMost) depth
        12

  submit_process-AtMost : AtMost (1 + attempts) (submit_process F e g tx)
  unfolding submit_process
  submit_process-AtMost = search (sends_rules, AtMost-before, AtMost-gets, process-AtMost) depth 12

  -- One call of `SubmitProcess` sends at most 1 + n transactions and fee bumps to Horizon, where n
  -- is the policy's number of attempts, or 0 if that is negative, whatever the environment answers.
  pub submit_process-sends :
      (w : World)
      → sends (submit_process F e g tx w).1.trace
        ≤ 1 + pos_part g.retry_policy.max_attempts + sends w.trace
  submit_process-sends = AtMost-run (1 + attempts) (submit_process F e g tx) submit_process-AtMost
