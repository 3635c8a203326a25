-- ===== src/Submitter/Keeping.antt =====
-- What the engine keeps of the tables: whatever the store's operations keep that it calls.
use tx_submitter.Base.{◌≢◌, arith, ℕ, zero, suc, List, [], ◌∷◌, Option}
use tx_submitter.Base.Int.{ℤ}
use tx_submitter.Base.Text.{Text}
use tx_submitter.State.{Status, Transaction, ChannelAccount}
use tx_submitter.Errors.{Error}
use tx_submitter.External.{Env, Envelope, FeeBump}
use tx_submitter.World.{Db, Action}
use tx_submitter.World.Keeps.{Keeps, Keeps-lift, Keeps-pure, keeps_rules}
use tx_submitter.Store.{update_status, mark_channel_used, list_pending}
use tx_submitter.Store.Accounts.{
  acquire_channel_account, release_channel_account, update_channel_account_seq,
}
use tx_submitter.Pool
use tx_submitter.Retry.{Floats}
use tx_submitter.Submitter.Signing.{
  Engine, build_signed_payment, build_fee_bump, current_ledger_bound, submit, submit_fee_bump,
}
use tx_submitter.Submitter.Polling.{give_up, confirm, poll_loop, poll_for_confirmation}
use tx_submitter.Submitter.{
  with_channel, process, submit_process, process_all, tick, start, Signal, ticked, done,
}
use tx_submitter.Submitter.Retries.{
  mark_failed, mark_dead_letter, resync_channel_sequence, pause, record_submitted, resubmit,
  resync_and_resubmit, bump_fee, retry_once, retry_loop, after_pass, Pass, handle_submission_error,
  continue, return,
}

-- P is kept by the operations of the store that the engine calls for the transaction `tx_id` while
-- it has a channel account; it sets no status back to pending.
pub record StoreKeeps (P : Db → Type 0) (e : Env) (tx_id : Text) : Type 0 where
  pub update :
      (new : Status)
      → new ≢ Status.pending
      → (detail : Text) (hid : Option Text) → Keeps P (update_status e tx_id new detail hid)
  pub mark : (channel : Text) → Keeps P (mark_channel_used e tx_id channel)
  pub set_seq :
      (public_key : Text) (seq : ℤ) → Keeps P (update_channel_account_seq e public_key seq)

module _ {κ} (P : Db → Type κ) (e : Env) where
  current_ledger_bound-Keeps : Keeps P (current_ledger_bound e)
  unfolding current_ledger_bound
  current_ledger_bound-Keeps = search keeps_rules

  pub submit-Keeps : (t : Envelope) → Keeps P (submit e t)
  unfolding submit
  submit-Keeps t = search keeps_rules

  pub submit_fee_bump-Keeps : (t : FeeBump) → Keeps P (submit_fee_bump e t)
  unfolding submit_fee_bump
  submit_fee_bump-Keeps t = search keeps_rules

  pub pause-Keeps : (d : ℤ) → Keeps P (pause e d)
  unfolding pause
  pause-Keeps d = search keeps_rules

module _ {κ} (P : Db → Type κ) (F : Floats) (e : Env) (g : Engine F) (tx : Transaction) where
  pub build_signed_payment-Keeps :
      (ca : ChannelAccount) (fee : ℤ) → Keeps P (build_signed_payment F e g tx ca fee)
  unfolding build_signed_payment
  build_signed_payment-Keeps ca fee = search (keeps_rules, current_ledger_bound-Keeps) depth 12

  pub build_fee_bump-Keeps :
      (ca : ChannelAccount) (fee : ℤ) → Keeps P (build_fee_bump F e g tx ca fee)
  unfolding build_fee_bump
  build_fee_bump-Keeps ca fee = search (keeps_rules, current_ledger_bound-Keeps) depth 12

module _ (P : Db → Type 0) (e : Env) (tx : Transaction) (s : StoreKeeps P e tx.id) where
  to_failed :
      (detail : Text) (hid : Option Text) → Keeps P (update_status e tx.id Status.failed detail hid)
  to_failed = s.update Status.failed (λ same. ground arith)

  to_dead_letter :
      (detail : Text) (hid : Option Text)
      → Keeps P (update_status e tx.id Status.dead_letter detail hid)
  to_dead_letter = s.update Status.dead_letter (λ same. ground arith)

  to_submitted :
      (detail : Text) (hid : Option Text)
      → Keeps P (update_status e tx.id Status.submitted detail hid)
  to_submitted = s.update Status.submitted (λ same. ground arith)

  to_confirmed :
      (detail : Text) (hid : Option Text)
      → Keeps P (update_status e tx.id Status.confirmed detail hid)
  to_confirmed = s.update Status.confirmed (λ same. ground arith)

  mark_failed-Keeps : (msg : Text) → Keeps P (mark_failed e tx.id msg)
  unfolding mark_failed
  mark_failed-Keeps msg = search (keeps_rules, to_failed)

  mark_dead_letter-Keeps : (msg : Text) → Keeps P (mark_dead_letter e tx.id msg)
  unfolding mark_dead_letter
  mark_dead_letter-Keeps msg = search (keeps_rules, to_dead_letter)

  resync-Keeps : (ca : ChannelAccount) → Keeps P (resync_channel_sequence e ca)
  unfolding resync_channel_sequence Pool.refresh_sequence
  resync-Keeps ca = search (keeps_rules, s.set_seq) depth 8

  record_submitted-Keeps :
      (detail horizon_id : Text) → Keeps P (record_submitted e tx detail horizon_id)
  unfolding record_submitted
  record_submitted-Keeps detail horizon_id = search (keeps_rules, to_submitted) depth 8

  give_up-Keeps : (msg : Text) → Keeps P (give_up e tx.id msg)
  unfolding give_up
  give_up-Keeps msg = search (keeps_rules, mark_failed-Keeps) depth 8

  confirm-Keeps : (horizon_id : Text) → Keeps P (confirm e tx.id horizon_id)
  unfolding confirm
  confirm-Keeps horizon_id = search (keeps_rules, to_confirmed) depth 8

  poll_loop-Keeps : (rounds : ℕ) (horizon_id : Text) → Keeps P (poll_loop e rounds tx.id horizon_id)
  unfolding poll_loop
  poll_loop-Keeps zero horizon_id = give_up-Keeps _
  poll_loop-Keeps (suc rounds) horizon_id =
      search (keeps_rules, confirm-Keeps, give_up-Keeps, poll_loop-Keeps rounds horizon_id) depth 9

  after_pass-Keeps :
      (loop : ChannelAccount → Error → Action (Unit {0})) (pass : Pass)
      → ((ca : ChannelAccount) (er : Error) → Keeps P (loop ca er))
      → Keeps P (after_pass loop pass)
  unfolding after_pass
  after_pass-Keeps loop (continue ca er) k = k ca er
  after_pass-Keeps loop (return result) k = Keeps-lift P result

  module _ (F : Floats) (g : Engine F) where
    resubmit-Keeps : (n : ℕ) (ca : ChannelAccount) → Keeps P (resubmit F e g n tx ca)
    unfolding resubmit
    resubmit-Keeps n ca =
        search (keeps_rules, build_signed_payment-Keeps, submit-Keeps, record_submitted-Keeps) depth
          9

    resync_and_resubmit-Keeps :
        (n : ℕ) (ca : ChannelAccount) → Keeps P (resync_and_resubmit F e g n tx ca)
    unfolding resync_and_resubmit
    resync_and_resubmit-Keeps n ca = search (keeps_rules, resync-Keeps, resubmit-Keeps) depth 9

    bump_fee-Keeps : (n : ℕ) (ca : ChannelAccount) → Keeps P (bump_fee F e g n tx ca)
    unfolding bump_fee
    bump_fee-Keeps n ca =
        search (keeps_rules, build_fee_bump-Keeps, submit_fee_bump-Keeps, record_submitted-Keeps)
          depth 9

    retry_once-Keeps :
        (n : ℕ) (ca : ChannelAccount) (er : Error) → Keeps P (retry_once F e g n tx ca er)
    unfolding retry_once
    retry_once-Keeps n ca er =
        search
          (keeps_rules, mark_failed-Keeps, pause-Keeps, resync_and_resubmit-Keeps, bump_fee-Keeps)
          depth 9

    retry_loop-Keeps :
        (rounds n : ℕ) (ca : ChannelAccount) (er : Error)
        → Keeps P (retry_loop F e g rounds n tx ca er)
    unfolding retry_loop
    retry_loop-Keeps zero n ca er = search (keeps_rules, mark_dead_letter-Keeps)
    retry_loop-Keeps (suc rounds) n ca er =
        search
          (
            keeps_rules,
            retry_once-Keeps,
            after_pass-Keeps,
            λ (ca' : ChannelAccount) (er' : Error). retry_loop-Keeps rounds (suc n) ca' er',
          )
          depth 9

    handle_submission_error-Keeps :
        (ca : ChannelAccount) (er : Error) → Keeps P (handle_submission_error F e g tx ca er)
    unfolding handle_submission_error
    handle_submission_error-Keeps ca er = retry_loop-Keeps _ 1 ca er

    pub with_channel-Keeps : (ca : ChannelAccount) → Keeps P (with_channel F e g tx ca)
    unfolding with_channel poll_for_confirmation
    with_channel-Keeps ca =
        search
          (
            keeps_rules, to_submitted, s.mark, build_signed_payment-Keeps, submit-Keeps,
            handle_submission_error-Keeps, poll_loop-Keeps,
          )
          depth 12

    module _ (acquires : Keeps P (acquire_channel_account e))
        (releases : (public_key : Text) → Keeps P (release_channel_account e public_key)) where
      process-Keeps : Keeps P (process F e g tx)
      unfolding process Pool.acquire Pool.release
      process-Keeps = search (keeps_rules, with_channel-Keeps) depth 12

      -- `SubmitProcess` keeps what the store's operations keep.
      pub submit_process-Keeps : Keeps P (submit_process F e g tx)
      unfolding submit_process
      submit_process-Keeps = search (keeps_rules, process-Keeps) depth 12

module _ (P : Db → Type 0) (e : Env) (s : (tx_id : Text) → StoreKeeps P e tx_id)
    (acquires : Keeps P (acquire_channel_account e))
    (releases : (public_key : Text) → Keeps P (release_channel_account e public_key)) (F : Floats)
    (g : Engine F) where
  process_all-Keeps : (txs : List Transaction) → Keeps P (process_all F e g txs)
  unfolding process_all
  process_all-Keeps [] = Keeps-pure P tt
  process_all-Keeps (tx ∷ txs) =
      search
        (
          keeps_rules,
          submit_process-Keeps P e tx (s tx.id) F g acquires releases,
          process_all-Keeps txs,
        )
        depth 8

  pub tick-Keeps : Keeps P (tick F e g)
  unfolding tick list_pending
  tick-Keeps = search (keeps_rules, process_all-Keeps) depth 8

  -- So does the loop of `Start`, over any signals.
  pub start-Keeps : (signals : List Signal) → Keeps P (start F e g signals)
  unfolding start
  start-Keeps [] = Keeps-pure P tt
  start-Keeps (ticked ∷ signals) = search (keeps_rules, tick-Keeps, start-Keeps signals) depth 8
  start-Keeps (done ∷ signals) = Keeps-pure P tt
