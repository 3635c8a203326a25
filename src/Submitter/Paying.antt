-- ===== src/Submitter/Paying.antt =====
-- If `SubmitProcess` returns nil, it has sent a transaction.
use tx_submitter.Base.{ℕ, ◌-◌, ◌+◌, ◌≤◌, ◌≡◌, refl, some, arith}
use tx_submitter.Base.Text.{Text, codes}
use tx_submitter.State.{Status, Transaction, ChannelAccount}
use tx_submitter.Errors.{wrap, Error, Result, ok}
use tx_submitter.External.{Env, Envelope, FeeBump}
use tx_submitter.Metrics.{observe_submit_latency, increment_submission}
use tx_submitter.World.{
  World, Event, Action, lift, ◌>>=◌, ◌>>◌, pure, annotate, ignore, gets, measure,
}
use tx_submitter.World.Sends.{sends}
use tx_submitter.World.Adds.{Adds, Adds-annotate, Adds-gets, Gives-any, adds_rules}
use tx_submitter.World.Growth.{
  AtLeast, Pays, AtLeast-Adds, AtLeast-try_else, Pays-run, Pays-intro, Pays-after, Pays-attempt,
}
use tx_submitter.Store.{update_status}
use tx_submitter.Retry.{Floats}
use tx_submitter.Pool
use tx_submitter.Submitter.{with_channel, process, submit_process, outcome_of, without_value}
use tx_submitter.Submitter.Signing.{Engine, submit}
use tx_submitter.Submitter.Polling.{poll_for_confirmation}
use tx_submitter.Submitter.Retries.{handle_submission_error}
use tx_submitter.Submitter.Sending.{
  Vouches, acquire-Adds, release-Adds, mark_channel_used-Adds, build_signed_payment-Adds,
  handle_submission_error-Adds, update_status-Adds, poll_loop-Adds,
}

submit-sends : (e : Env) (t : Envelope) → AtLeast 1 (submit e t)
unfolding submit sends AtLeast
submit-sends e t w = omega arith

module _ (F : Floats) (e : Env) (g : Engine F) (tx : Transaction) where
  -- Nothing is asked of the events.
  abbrev Any : Event → Type 0
  Any v = Unit

  abbrev Built : Envelope → Type 0
  Built t = Unit

  abbrev Bumped : FeeBump → Type 0
  Bumped f = Unit

  anything-Vouches : Vouches F e g tx Any Built Bumped
  anything-Vouches = record {
    pays = λ t h. tt;
    bumps = λ f h. tt;
    sleeps = λ d. tt;
    builds = λ ca fee. Gives-any _;
    builds_bump = λ ca fee. Gives-any _;
  }

  grows : {A : Type 0} (m : Action A) → Adds Any m → AtLeast 0 m
  grows m h = AtLeast-Adds Any m h

  retried-Adds :
      (ca : ChannelAccount) (er : Error)
      → Adds Any (handle_submission_error F e g tx ca er >> pure (codes "submitted"))
  retried-Adds ca er =
      search (adds_rules, handle_submission_error-Adds F e g tx Any Built Bumped anything-Vouches)

  recorded-Adds :
      (hid : Text)
      → Adds Any (do
        annotate
            (wrap (codes "updating status to submitted"))
            (update_status e tx.id Status.submitted (codes "submitted to horizon") (some hid))
        poll_for_confirmation e tx.id hid
        pure (codes "confirmed"))
  unfolding poll_for_confirmation
  recorded-Adds hid =
      search
        (
          adds_rules,
          update_status-Adds F e g tx Any Built Bumped anything-Vouches,
          poll_loop-Adds F e g tx Any Built Bumped anything-Vouches,
        )
        depth 9

  -- Once it is built, the transaction is sent.
  with_channel-Pays : (ca : ChannelAccount) → Pays (with_channel F e g tx ca)
  unfolding with_channel
  with_channel-Pays ca =
      Pays-after _ _
        (grows _ (
          Adds-annotate Any _ _
            (mark_channel_used-Adds F e g tx Any Built Bumped anything-Vouches ca.public_key)))
        λ _.
          Pays-after _ _
            (grows _ (
              Adds-annotate Any _ _
                (build_signed_payment-Adds F e g tx Any Built Bumped anything-Vouches ca _)))
            λ t. Pays-intro _ (
              AtLeast-try_else 1 (submit e t) _ _ (submit-sends e t)
                (λ er. grows _ (retried-Adds ca er)) (λ hid. grows _ (recorded-Adds hid)))

  released-Adds : (k : Text) (r : Result Text) → Adds Any (ignore (Pool.release e k) >> lift r)
  released-Adds k r = search (adds_rules, release-Adds F e g tx Any Built Bumped anything-Vouches)

  process-Pays : Pays (process F e g tx)
  unfolding process
  process-Pays =
      Pays-after _ _
        (grows _ (Adds-annotate Any _ _ (acquire-Adds F e g tx Any Built Bumped anything-Vouches)))
        λ ca.
          Pays-attempt _ _ (with_channel-Pays ca) (λ r. grows _ (released-Adds ca.public_key r))
            λ x w. refl

  reported-Adds :
      (begun : ℕ) (r : Result Text)
      → Adds Any (do
        end ← gets (λ w. e.now w.calls)
        measure (observe_submit_latency (end - begun) (outcome_of r))
        measure (increment_submission (outcome_of r))
        lift (without_value r))
  reported-Adds begun r = search adds_rules depth 9

  submit_process-Pays : Pays (submit_process F e g tx)
  unfolding submit_process
  submit_process-Pays =
      Pays-after _ _ (grows _ (Adds-gets Any (λ w. e.now w.calls)))
        λ begun. Pays-attempt _ _ process-Pays (λ r. grows _ (reported-Adds begun r)) λ x w. refl

  -- If `SubmitProcess` returns nil, it has sent at least one transaction to Horizon.
  pub submit_process_pays :
      (w : World)
      → (submit_process F e g tx w).0 ≡ ok tt
      → 1 + sends w.trace ≤ sends (submit_process F e g tx w).1.trace
  submit_process_pays w h = Pays-run _ submit_process-Pays w (rw h refl)
