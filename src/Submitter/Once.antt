-- ===== src/Submitter/Once.antt =====
-- Where nothing outside fails, a payment that leaves the queue is sent once.
use tx_submitter.Base.{ℕ, ◌+◌, ◌≡◌, refl, ◌∙◌, ap, List, [], ◌∷◌, arith, count, All}
use tx_submitter.State.{Status, Transaction, ChannelAccount}
use tx_submitter.External.{Env, Envelope}
use tx_submitter.World.{World, ◌>>◌, pure, annotate}
use tx_submitter.World.Keeps.{Keeps-run}
use tx_submitter.World.Sends.{
  sends, AtMost, AtMost-before, AtMost-after, AtMost-after_got, AtMost-gets, AtMost-run,
  AtMost-sure_try, sends_rules,
}
use tx_submitter.Store.{mark_channel_used, is_pending, pending_rows, list_pending}
use tx_submitter.Retry.{Floats}
use tx_submitter.Submitter.{
  with_channel, process, submit_process, process_all, tick, start, Signal, ticked, done,
}
use tx_submitter.Submitter.Signing.{Engine, submit}
use tx_submitter.Submitter.Polling.{poll_for_confirmation}
use tx_submitter.Submitter.Lifecycle.{At}
use tx_submitter.Submitter.Sends.{
  submit-AtMost, acquire-AtMost, release-AtMost, update_status-AtMost, poll_loop-AtMost,
  build_signed_payment-AtMost, mark_channel_used-AtMost,
}
use tx_submitter.Submitter.Queue.{listed}
use tx_submitter.Submitter.Delivery.{IsHealthy, IsPayable, first_build, submit_ok}
use tx_submitter.Submitter.Payable.{AllPayable, pending_rows-IsPayable}
use tx_submitter.Submitter.Confirmation.{recorded, sending}
use tx_submitter.Submitter.Retries.{handle_submission_error}
use tx_submitter.Base.Text.{codes}
use tx_submitter.Errors.{wrap, Error, Result, ok, map_error}
use tx_submitter.Submitter.Draining.{Idle, submit_process_turn, submit_process-Idle}
use tx_submitter.Submitter.Listing.{Listed, pending_rows-Listed}
use tx_submitter.Submitter.Paying.{submit_process_pays}
use tx_submitter.Submitter.Again.{returned_nil}
use tx_submitter.Submitter.Backlog.{
  submit_process-count, still_waiting, tick-AllPayable, tick-Idle, tick-ok,
}

annotated_ok :
    {A : Type 0} (f : Error → Error) (r : Result A) (a : A) → map_error f r ≡ ok a → r ≡ ok a
annotated_ok f r a got = ground arith

module _ (F : Floats) (e : Env) (g : Engine F) (h : IsHealthy F e g) where
  module _ (tx : Transaction) (pays : IsPayable F e g tx) where
    sending-once :
        (ca : ChannelAccount) (t : Envelope) (w : World)
        → (first_build F e g tx ca w).0 ≡ ok t
        → AtMost 1 (sending F e g tx h pays Status.pending ca t)
    unfolding poll_for_confirmation
    sending-once ca t w built =
        AtMost-sure_try (submit e t)
          (λ er. handle_submission_error F e g tx ca er >> pure (codes "submitted"))
          (recorded F e g tx h pays Status.pending)
          (λ w'. submit_ok F e g h tx pays ca t w w' built) (submit-AtMost e t)
          λ hid. search (sends_rules, update_status-AtMost, poll_loop-AtMost) depth 12

    built_first :
        (ca : ChannelAccount)
        → AtMost 0 (annotate (wrap (codes "building transaction")) (first_build F e g tx ca))
    built_first ca = search (sends_rules, build_signed_payment-AtMost)

    marked_first :
        (ca : ChannelAccount)
        → AtMost 0 (
            annotate
              (wrap (codes "marking channel used"))
              (mark_channel_used e tx.id ca.public_key))
    marked_first ca = search (sends_rules, mark_channel_used-AtMost)

    with_channel-once : (ca : ChannelAccount) → AtMost 1 (with_channel F e g tx ca)
    unfolding with_channel
    with_channel-once ca = AtMost-after 1 _ _ (marked_first ca) λ _.
        AtMost-after_got 1 _ (sending F e g tx h pays Status.pending ca) (built_first ca)
          λ t w got. sending-once ca t w (annotated_ok _ _ t got)

    process-once : AtMost 1 (process F e g tx)
    unfolding process
    process-once =
        search (sends_rules, AtMost-before, acquire-AtMost, release-AtMost, with_channel-once) depth
          12

    submit_process-once : AtMost 1 (submit_process F e g tx)
    unfolding submit_process
    submit_process-once = search (sends_rules, AtMost-before, AtMost-gets, process-once) depth 12

  -- What has been sent, and what still waits.
  abbrev account : World → ℕ
  account w = sends w.trace + count is_pending w.db.transactions

  submit_process-account :
      (tx : Transaction) (w : World)
      → IsPayable F e g tx
      → Idle F e g w.db
      → At tx.id Status.pending w.db
      → account (submit_process F e g tx w).1 ≡ account w
  submit_process-account tx w pays idle there = omega (
    arith,
    submit_process-count F e g h tx w pays idle there,
    AtMost-run 1 _ (submit_process-once tx pays) w,
    submit_process_pays F e g tx w (
        returned_nil _
          (submit_process_turn F e g h tx.id Status.pending tx w refl pays idle there).0),
  )

  process_all-account :
      (txs : List Transaction) (w : World)
      → All (IsPayable F e g) txs
      → Idle F e g w.db
      → Listed txs w.db
      → account (process_all F e g txs w).1 ≡ account w
  unfolding process_all
  process_all-account [] w pay idle all = refl
  process_all-account (tx ∷ txs) w pay idle (once, (here, all)) =
      process_all-account txs (submit_process F e g tx w).1 pay.1
        (Keeps-run (Idle F e g) _ (submit_process-Idle F e g h.up tx) w idle)
        (
          (λ id. let one = once id in ground arith),
          still_waiting F e g h tx w txs (let one = once tx.id in ground arith) all,
        )
      ∙ submit_process-account tx w pay.0 idle here

  tick-listed :
      (w : World)
      → (tick F e g w).1 ≡ (process_all F e g (pending_rows e 10 w.db) (listed F e g [] w)).1
  unfolding tick list_pending
  tick-listed w = ground (arith, h.up w.calls)

  tick-account :
      (w : World) → AllPayable F e g w.db → Idle F e g w.db → account (tick F e g w).1 ≡ account w
  tick-account w pay idle =
      ap account (tick-listed w)
      ∙ process_all-account (pending_rows e 10 w.db) (listed F e g [] w)
          (pending_rows-IsPayable F e g 10 w.db pay) idle (pending_rows-Listed e w.db idle.0)

  start-next :
      (signals : List Signal) (w : World)
      → (start F e g (ticked ∷ signals) w).1 ≡ (start F e g signals (tick F e g w).1).1
  unfolding start
  start-next signals w = ground (arith, tick-ok F e g h w)

  -- Where nothing outside fails, keys that parse also sign, and Horizon reports what it accepts as
  -- successful within the polls: if the tables are consistent, no account is locked, one is active,
  -- and the keys of the channel accounts parse, each pending payment is one that the SDK takes and
  -- builds and Horizon accepts, then over any signals `Start` sends exactly as many transactions
  -- and fee bumps as rows stop being pending.
  pub start_once :
      (signals : List Signal) (w : World)
      → AllPayable F e g w.db
      → Idle F e g w.db
      → sends (start F e g signals w).1.trace
          + count is_pending (start F e g signals w).1.db.transactions
        ≡ sends w.trace + count is_pending w.db.transactions
  unfolding start
  start_once [] w pay idle = refl
  start_once (ticked ∷ signals) w pay idle =
      ap account (start-next signals w)
      ∙ start_once signals (tick F e g w).1
          (Keeps-run (AllPayable F e g) _ (tick-AllPayable F e g h) w pay)
          (Keeps-run (Idle F e g) _ (tick-Idle F e g h) w idle)
      ∙ tick-account w pay idle
  start_once (done ∷ signals) w pay idle = refl
