-- ===== src/Submitter/Sending.antt =====
-- What `SubmitProcess` adds to what was sent, given what is known of the transactions that it builds.
use tx_submitter.Base.{ℕ, zero, suc, Option, some, ◌++◌}
use tx_submitter.Base.Int.{ℤ, pos}
use tx_submitter.Base.Text.{Text, codes, decimal}
use tx_submitter.State.{Status, Transaction, ChannelAccount}
use tx_submitter.Errors.{wrap, Error}
use tx_submitter.External.{Env, Envelope, FeeBump}
use tx_submitter.World.{
  Event, sent, sent_fee_bump, slept, Action, ◌>>◌, pure, annotate, try_else, emit,
}
use tx_submitter.World.Adds.{
  Gives, Gives-annotate, Adds, Adds-still, Adds-lift, Adds-annotate, Adds-given, Adds-try_given,
  Adds-then, Adds-ask, Adds-emit, adds_rules,
}
use tx_submitter.Store.{update_status, mark_channel_used}
use tx_submitter.Retry.{Floats, current_fee}
use tx_submitter.Pool
use tx_submitter.Submitter.{with_channel, process, submit_process}
use tx_submitter.Submitter.Signing.{
  Engine, submit, submit_fee_bump, build_signed_payment, build_fee_bump,
}
use tx_submitter.Submitter.Polling.{give_up, confirm, poll_loop, poll_for_confirmation}
use tx_submitter.Submitter.Retries.{
  resync_channel_sequence, record_submitted, mark_failed, mark_dead_letter, pause, resubmit,
  resync_and_resubmit, bump_fee, retry_once, retry_loop, after_pass, Pass, handle_submission_error,
  continue, return,
}
use tx_submitter.Submitter.Sends.{
  update_status-trace, acquire-trace, release-trace, mark_channel_used-trace, resync-trace,
  record_submitted-trace, mark_failed-trace, mark_dead_letter-trace, build_signed_payment-trace,
  build_fee_bump-trace,
}

-- The events that P speaks of, and what is known of the transactions that are built.
pub record Vouches (F : Floats) (e : Env) (g : Engine F) (tx : Transaction) (P : Event → Type 0)
    (Paying : Envelope → Type 0) (Bumping : FeeBump → Type 0) : Type 0 where
  pub pays : (t : Envelope) → Paying t → P (sent t)
  pub bumps : (f : FeeBump) → Bumping f → P (sent_fee_bump f)
  pub sleeps : (d : ℤ) → P (slept d)
  pub builds : (ca : ChannelAccount) (fee : ℤ) → Gives Paying (build_signed_payment F e g tx ca fee)
  pub builds_bump : (ca : ChannelAccount) (fee : ℤ) → Gives Bumping (build_fee_bump F e g tx ca fee)

module _ (F : Floats) (e : Env) (g : Engine F) (tx : Transaction) (Sent : Event → Type 0)
    (Paying : Envelope → Type 0) (Bumping : FeeBump → Type 0)
    (v : Vouches F e g tx Sent Paying Bumping) where
  submit-Adds : (t : Envelope) → Paying t → Adds Sent (submit e t)
  unfolding submit
  submit-Adds t h =
      Adds-then Sent _ _ (Adds-emit Sent (sent t) (v.pays t h))
        (Adds-ask Sent λ n. e.submit_transaction n t)

  submit_fee_bump-Adds : (f : FeeBump) → Bumping f → Adds Sent (submit_fee_bump e f)
  unfolding submit_fee_bump
  submit_fee_bump-Adds f h =
      Adds-then Sent _ _ (Adds-emit Sent (sent_fee_bump f) (v.bumps f h))
        (Adds-ask Sent λ n. e.submit_fee_bump n f)

  slept-Adds : (d : ℤ) → Adds Sent (emit (slept d))
  slept-Adds d = Adds-emit Sent (slept d) (v.sleeps d)

  pause-Adds : (d : ℤ) → Adds Sent (pause e d)
  unfolding pause
  pause-Adds d = search (adds_rules, slept-Adds)

  pub update_status-Adds :
      (new : Status) (detail : Text) (hid : Option Text)
      → Adds Sent (update_status e tx.id new detail hid)
  update_status-Adds new detail hid = Adds-still Sent _ (update_status-trace e tx.id new detail hid)

  mark_failed-Adds : (msg : Text) → Adds Sent (mark_failed e tx.id msg)
  mark_failed-Adds msg = Adds-still Sent _ (mark_failed-trace e tx.id msg)

  pub release-Adds : (key : Text) → Adds Sent (Pool.release e key)
  release-Adds key = Adds-still Sent _ (release-trace e key)

  pub acquire-Adds : Adds Sent (Pool.acquire e)
  acquire-Adds = Adds-still Sent _ (acquire-trace e)

  pub mark_channel_used-Adds : (key : Text) → Adds Sent (mark_channel_used e tx.id key)
  mark_channel_used-Adds key = Adds-still Sent _ (mark_channel_used-trace e tx.id key)

  record_submitted-Adds : (detail hid : Text) → Adds Sent (record_submitted e tx detail hid)
  record_submitted-Adds detail hid = Adds-still Sent _ (record_submitted-trace e tx detail hid)

  resync-Adds : (ca : ChannelAccount) → Adds Sent (resync_channel_sequence e ca)
  resync-Adds ca = Adds-still Sent _ (resync-trace e ca)

  mark_dead_letter-Adds : (msg : Text) → Adds Sent (mark_dead_letter e tx.id msg)
  mark_dead_letter-Adds msg = Adds-still Sent _ (mark_dead_letter-trace e tx.id msg)

  pub build_signed_payment-Adds :
      (ca : ChannelAccount) (fee : ℤ) → Adds Sent (build_signed_payment F e g tx ca fee)
  build_signed_payment-Adds ca fee = Adds-still Sent _ (build_signed_payment-trace e F g tx ca fee)

  build_fee_bump-Adds : (ca : ChannelAccount) (fee : ℤ) → Adds Sent (build_fee_bump F e g tx ca fee)
  build_fee_bump-Adds ca fee = Adds-still Sent _ (build_fee_bump-trace e F g tx ca fee)

  pub poll_loop-Adds : (rounds : ℕ) (hid : Text) → Adds Sent (poll_loop e rounds tx.id hid)
  unfolding poll_loop give_up confirm
  poll_loop-Adds zero hid = search (adds_rules, mark_failed-Adds) depth 8
  poll_loop-Adds (suc rounds) hid =
      search
        (adds_rules, slept-Adds, mark_failed-Adds, update_status-Adds, poll_loop-Adds rounds hid)
        depth 9

  -- After a retry is built.
  resent-Adds :
      (n : ℕ) (ca : ChannelAccount) (t : Envelope)
      → Paying t
      → Adds Sent (
          try_else
            (submit e t)
            (λ submit_err. pure (continue ca submit_err))
            λ horizon_id.
              record_submitted e tx
                (codes "resubmitted with resynced sequence at attempt " ++ decimal n)
                horizon_id)
  resent-Adds n ca t h = search (adds_rules, submit-Adds t h, record_submitted-Adds) depth 8

  resubmit-Adds : (n : ℕ) (ca : ChannelAccount) → Adds Sent (resubmit F e g n tx ca)
  unfolding resubmit
  resubmit-Adds n ca =
      Adds-try_given Sent (Paying) _ (λ build_err. pure (continue ca build_err)) _ (v.builds ca _)
        (build_signed_payment-Adds ca _) (λ x. search adds_rules) (resent-Adds n ca)

  resync_and_resubmit-Adds :
      (n : ℕ) (ca : ChannelAccount) → Adds Sent (resync_and_resubmit F e g n tx ca)
  unfolding resync_and_resubmit
  resync_and_resubmit-Adds n ca = search (adds_rules, resync-Adds, resubmit-Adds) depth 9

  bumped-Adds :
      (n : ℕ) (ca : ChannelAccount) (f : FeeBump)
      → Bumping f
      → Adds Sent (
          try_else
            (submit_fee_bump e f)
            (λ submit_err. pure (continue ca submit_err))
            λ horizon_id.
              record_submitted e tx (codes "fee-bumped at attempt " ++ decimal n) horizon_id)
  bumped-Adds n ca f h =
      search (adds_rules, submit_fee_bump-Adds f h, record_submitted-Adds) depth 8

  bump_fee-Adds : (n : ℕ) (ca : ChannelAccount) → Adds Sent (bump_fee F e g n tx ca)
  unfolding bump_fee
  bump_fee-Adds n ca =
      Adds-try_given Sent (Bumping) _ (λ bump_err. pure (continue ca bump_err)) _
        (v.builds_bump ca _) (build_fee_bump-Adds ca _) (λ x. search adds_rules) (bumped-Adds n ca)

  retry_once-Adds :
      (n : ℕ) (ca : ChannelAccount) (er : Error) → Adds Sent (retry_once F e g n tx ca er)
  unfolding retry_once
  retry_once-Adds n ca er =
      search (adds_rules, mark_failed-Adds, pause-Adds, resync_and_resubmit-Adds, bump_fee-Adds)
        depth 9

  after_pass-Adds :
      (loop : ChannelAccount → Error → Action (Unit {0})) (pass : Pass)
      → ((ca : ChannelAccount) (er : Error) → Adds Sent (loop ca er))
      → Adds Sent (after_pass loop pass)
  unfolding after_pass
  after_pass-Adds loop (continue ca er) h = h ca er
  after_pass-Adds loop (return result) h = Adds-lift Sent result

  retry_loop-Adds :
      (rounds n : ℕ) (ca : ChannelAccount) (er : Error)
      → Adds Sent (retry_loop F e g rounds n tx ca er)
  unfolding retry_loop
  retry_loop-Adds zero n ca er = search (adds_rules, mark_dead_letter-Adds)
  retry_loop-Adds (suc rounds) n ca er =
      search
        (
          adds_rules,
          retry_once-Adds,
          after_pass-Adds,
          λ (ca' : ChannelAccount) (er' : Error). retry_loop-Adds rounds (suc n) ca' er',
        )
        depth 9

  pub handle_submission_error-Adds :
      (ca : ChannelAccount) (er : Error) → Adds Sent (handle_submission_error F e g tx ca er)
  unfolding handle_submission_error
  handle_submission_error-Adds ca er = retry_loop-Adds _ 1 ca er

  -- After the payment is built.
  sending-Adds :
      (ca : ChannelAccount) (t : Envelope)
      → Paying t
      → Adds Sent (
          try_else
            (submit e t)
            (λ er. handle_submission_error F e g tx ca er >> pure (codes "submitted"))
            λ horizon_id. do
              annotate (wrap (codes "updating status to submitted")) (
                  update_status e tx.id Status.submitted
                    (codes "submitted to horizon")
                    (some horizon_id))
              poll_for_confirmation e tx.id horizon_id
              pure (codes "confirmed"))
  unfolding poll_for_confirmation
  sending-Adds ca t h =
      search
        (
          adds_rules,
          submit-Adds t h,
          handle_submission_error-Adds,
          update_status-Adds,
          poll_loop-Adds,
        )
        depth 9

  with_channel-Adds : (ca : ChannelAccount) → Adds Sent (with_channel F e g tx ca)
  unfolding with_channel
  with_channel-Adds ca =
      Adds-then Sent _ _ (Adds-annotate Sent _ _ (mark_channel_used-Adds ca.public_key)) (
        Adds-given Sent (Paying)
          (annotate (wrap (codes "building transaction"))
            (build_signed_payment F e g tx ca (current_fee F g.retry_policy (pos 0))))
          _ (Gives-annotate (Paying) _ _ (v.builds ca _))
          (Adds-annotate Sent _ _ (build_signed_payment-Adds ca _)) (sending-Adds ca))

  process-Adds : Adds Sent (process F e g tx)
  unfolding process
  process-Adds = search (adds_rules, acquire-Adds, release-Adds, with_channel-Adds) depth 12

  pub submit_process-Adds : Adds Sent (submit_process F e g tx)
  unfolding submit_process
  submit_process-Adds = search (adds_rules, process-Adds) depth 12
