-- ===== src/Submitter/Stages.antt =====
-- The stages of one payment in the engine, from pending along the edges of the lifecycle: the polling
-- and the retries.
use tx_submitter.Base.{ℕ, zero, suc, Option, none, ◌++◌}
use tx_submitter.Base.Int.{pos}
use tx_submitter.Base.Text.{Text, codes}
use tx_submitter.State.{Status, Transaction, ChannelAccount}
use tx_submitter.Errors.{Error, err, wrap}
use tx_submitter.External.{Env}
use tx_submitter.Metrics.{increment_dead_letters}
use tx_submitter.World.{Db, Action, pure, try_else, slept}
use tx_submitter.World.Keeps.{Keeps, Keeps-emit, Keeps-ask, Keeps-measure, keeps_rules}
use tx_submitter.World.Ensures.{
  Ensures, Ensures-Keeps, Ensures-weaken, Ensures-annotate, Ensures-attempt, Ensures-ignore,
  Ensures-pure, Ensures-if, Ensures-bind, Ensures-try_else, Ensures-fail, Ensures-then,
  Ensures-lift,
}
use tx_submitter.Store.{update_status}
use tx_submitter.Pool
use tx_submitter.Retry.{Floats}
use tx_submitter.Submitter.Signing.{Engine}
use tx_submitter.Submitter.Polling.{
  give_up, confirm, poll_loop, poll_for_confirmation, poll_pause, max_polls,
}
use tx_submitter.Submitter.Retries.{
  mark_failed, mark_dead_letter, resync_channel_sequence, record_submitted, resubmit,
  resync_and_resubmit, bump_fee, retry_once, retry_loop, after_pass, Pass, handle_submission_error,
  continue, return,
}
use tx_submitter.Submitter.Keeping.{
  build_signed_payment-Keeps, build_fee_bump-Keeps, submit-Keeps, submit_fee_bump-Keeps,
  pause-Keeps,
}
use tx_submitter.Submitter.Invariants.{set_seq-Keeps}
use tx_submitter.Submitter.Lifecycle
use tx_submitter.Submitter.Lifecycle.{
  ◌⟶◌, ◌⟶*◌, here, after, At, Reached, At-Reached, update_status-At, mark_channel_used-At, ⟶*-trans,
}

module _ (e : Env) (id : Text) where
  -- What is left behind when the engine is done with a pending transaction.
  abbrev pub Done : Db → Type 0
  Done = Reached id Status.pending

  pub done : (s : Status) → Status.pending ⟶* s → (db : Db) → At id s db → Done db
  done s path db h = At-Reached id Status.pending s db path h

  -- A step of the store for the transaction, whatever it returns.
  update_status-Done :
      (s new : Status) (detail : Text) (hid : Option Text)
      → Status.pending ⟶* s
      → s ⟶ new
      → Ensures (At id s) (update_status e id new detail hid) (λ _. Done) Done
  update_status-Done s new detail hid path st =
      Ensures-weaken (At id s) (At id s) _ (λ _. At id new) _ (At id s) _ (λ db h. h)
        (λ _. done new (⟶*-trans path (after st here))) (done s path)
        (update_status-At e id s new detail hid)

  mark_failed-Done :
      (s : Status) (msg : Text)
      → Status.pending ⟶* s
      → s ⟶ Status.failed
      → Ensures (At id s) (mark_failed e id msg) (λ _. Done) Done
  unfolding mark_failed
  mark_failed-Done s msg path st =
      Ensures-ignore (At id s) _ Done (update_status-Done s Status.failed msg none path st)

  -- An action that leaves the status alone, before anything is left behind.
  pub still :
      {A : Type 0} (s : Status) (m : Action A)
      → Status.pending ⟶* s
      → Keeps (At id s) m
      → Ensures (At id s) m (λ _. At id s) Done
  still s m path k =
      Ensures-weaken (At id s) (At id s) m (λ _. At id s) (λ _. At id s) (At id s) Done (λ db h. h)
        (λ a db h. h) (done s path) (Ensures-Keeps (At id s) m k)

  abbrev polled : Status.pending ⟶* Status.submitted
  polled = after Lifecycle.accept here

  give_up-Done : (msg : Text) → Ensures (At id Status.submitted) (give_up e id msg) (λ _. Done) Done
  unfolding give_up
  give_up-Done msg =
      Ensures-then (At id Status.submitted) Done _ Done _ _
        (mark_failed-Done Status.submitted msg polled Lifecycle.abandon) (Ensures-fail Done _ _ _)

  confirm-Done : (hid : Text) → Ensures (At id Status.submitted) (confirm e id hid) (λ _. Done) Done
  unfolding confirm
  confirm-Done hid =
      Ensures-annotate _ _ _ _ _
        (update_status-Done Status.submitted Status.confirmed _ _ polled Lifecycle.settle)

  poll_loop-Done :
      (rounds : ℕ) (hid : Text)
      → Ensures (At id Status.submitted) (poll_loop e rounds id hid) (λ _. Done) Done
  unfolding poll_loop
  poll_loop-Done zero hid = give_up-Done _
  poll_loop-Done (suc rounds) hid =
      Ensures-then (At id Status.submitted) (At id Status.submitted) _ Done _ _
        (still Status.submitted _ polled
          (Keeps-emit (At id Status.submitted) (slept (pos poll_pause))))
        (Ensures-try_else (At id Status.submitted) (λ _. At id Status.submitted)
          (At id Status.submitted) _ Done _ _ _
          (Ensures-Keeps (At id Status.submitted) _
            (Keeps-ask (At id Status.submitted) λ n. e.transaction_detail n hid))
          (λ x. poll_loop-Done rounds hid)
          λ successful.
            Ensures-if _ successful _ _ _ _ (confirm-Done hid)
              (give_up-Done (codes "transaction failed")))

module _ (F : Floats) (e : Env) (g : Engine F) (tx : Transaction) where
  abbrev pub Pending : Db → Type 0
  Pending = At tx.id Status.pending

  abbrev pub Left : Db → Type 0
  Left = Done e tx.id

  -- A pass that goes on has left the transaction pending.
  abbrev PassLeft : Pass → Db → Type 0
  PassLeft (continue _ _) = Pending
  PassLeft (return _) = Left

  record_submitted-Left :
      (detail hid : Text) → Ensures Pending (record_submitted e tx detail hid) PassLeft Left
  unfolding record_submitted
  record_submitted-Left detail hid =
      Ensures-bind Pending (λ _. Left) _ Left _ _
        (Ensures-attempt Pending _ Left
          (update_status-Done e tx.id Status.pending Status.submitted _ _ here Lifecycle.accept))
        λ recorded. Ensures-pure Left (return recorded) PassLeft Left (λ db h. h)

  -- An action that gives way to another pass if it fails.
  or_continue :
      {A : Type 0} (m : Action A) (ca : ChannelAccount) (k : A → Action Pass)
      → Keeps Pending m
      → ((a : A) → Ensures Pending (k a) PassLeft Left)
      → Ensures Pending (try_else m (λ er. pure (continue ca er)) k) PassLeft Left
  or_continue m ca k quiet hk =
      Ensures-try_else Pending (λ _. Pending) Pending PassLeft Left m _ k
        (Ensures-Keeps Pending m quiet)
        (λ er. Ensures-pure Pending (continue ca er) PassLeft Left (λ db h. h)) hk

  resubmit-Left :
      (n : ℕ) (ca : ChannelAccount) → Ensures Pending (resubmit F e g n tx ca) PassLeft Left
  unfolding resubmit
  resubmit-Left n ca =
      or_continue _ ca _ (build_signed_payment-Keeps Pending F e g tx ca _)
        λ t. or_continue _ ca _ (submit-Keeps Pending e t) λ hid. record_submitted-Left _ hid

  resync-Keeps : (ca : ChannelAccount) → Keeps Pending (resync_channel_sequence e ca)
  unfolding resync_channel_sequence Pool.refresh_sequence
  resync-Keeps ca = search (keeps_rules, set_seq-Keeps Pending e (λ cas db h. h)) depth 8

  resync_and_resubmit-Left :
      (n : ℕ) (ca : ChannelAccount)
      → Ensures Pending (resync_and_resubmit F e g n tx ca) PassLeft Left
  unfolding resync_and_resubmit
  resync_and_resubmit-Left n ca =
      or_continue _ ca _ (resync-Keeps ca) λ seq. resubmit-Left n (record ca { current_seq = seq })

  bump_fee-Left :
      (n : ℕ) (ca : ChannelAccount) → Ensures Pending (bump_fee F e g n tx ca) PassLeft Left
  unfolding bump_fee
  bump_fee-Left n ca =
      or_continue _ ca _ (build_fee_bump-Keeps Pending F e g tx ca _) λ t.
        or_continue _ ca _ (submit_fee_bump-Keeps Pending e t) λ hid. record_submitted-Left _ hid

  retry_once-Left :
      (n : ℕ) (ca : ChannelAccount) (er : Error)
      → Ensures Pending (retry_once F e g n tx ca er) PassLeft Left
  unfolding retry_once
  retry_once-Left n ca er =
      Ensures-if Pending _ _ _ PassLeft Left
        (Ensures-then Pending Left PassLeft Left _ _
          (mark_failed-Done e tx.id Status.pending _ here Lifecycle.refuse)
          (Ensures-pure Left (return (err (wrap (codes "terminal error for tx " ++ tx.id) er)))
            PassLeft Left (λ db h. h)))
        (Ensures-then Pending Pending PassLeft Left _ _
          (still e tx.id Status.pending _ here (pause-Keeps Pending e _))
          (Ensures-if Pending _ _ _ PassLeft Left (resync_and_resubmit-Left n ca)
            (bump_fee-Left n ca)))

  after_pass-Left :
      (loop : ChannelAccount → Error → Action (Unit {0}))
      → ((ca : ChannelAccount) (er : Error) → Ensures Pending (loop ca er) (λ _. Left) Left)
      → (pass : Pass) → Ensures (PassLeft pass) (after_pass loop pass) (λ _. Left) Left
  unfolding after_pass
  after_pass-Left loop h (continue ca er) = h ca er
  after_pass-Left loop h (return result) = Ensures-lift Left result

  retry_loop-Left :
      (rounds n : ℕ) (ca : ChannelAccount) (er : Error)
      → Ensures Pending (retry_loop F e g rounds n tx ca er) (λ _. Left) Left
  unfolding retry_loop mark_dead_letter
  retry_loop-Left zero n ca er =
      Ensures-then Pending Left _ Left _ _
        (Ensures-then Pending Left _ Left _ _
          (Ensures-ignore Pending _ Left (
            update_status-Done e tx.id Status.pending Status.dead_letter _ _ here
              Lifecycle.exhaust))
          (Ensures-Keeps Left _ (Keeps-measure Left increment_dead_letters)))
        (Ensures-fail Left _ _ _)
  retry_loop-Left (suc rounds) n ca er =
      Ensures-bind Pending PassLeft _ Left _ _ (retry_once-Left n ca er)
        (after_pass-Left _ λ ca' er'. retry_loop-Left rounds (suc n) ca' er')

  pub handle-Left :
      (ca : ChannelAccount) (er : Error)
      → Ensures Pending (handle_submission_error F e g tx ca er) (λ _. Left) Left
  unfolding handle_submission_error
  handle-Left ca er = retry_loop-Left _ 1 ca er

  pub poll-Left :
      (hid : Text)
      → Ensures (At tx.id Status.submitted) (poll_for_confirmation e tx.id hid) (λ _. Left) Left
  unfolding poll_for_confirmation
  poll-Left hid = poll_loop-Done e tx.id max_polls hid
