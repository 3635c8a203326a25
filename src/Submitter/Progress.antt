-- ===== src/Submitter/Progress.antt =====
-- One payment in the engine: from pending along the edges of the lifecycle.
use tx_submitter.Base.{ℕ, ◌-◌}
use tx_submitter.Base.Text.{Text, codes}
use tx_submitter.State.{Status, Transaction, ChannelAccount}
use tx_submitter.Errors.{Result}
use tx_submitter.External.{Env}
use tx_submitter.Metrics.{observe_submit_latency, increment_submission}
use tx_submitter.World.{Db, ignore, lift, ◌>>=◌, ◌>>◌, gets, measure}
use tx_submitter.World.Keeps.{Keeps, Keeps-gets, keeps_rules}
use tx_submitter.World.Ensures.{
  Ensures, Ensures-Keeps, Ensures-weaken, Ensures-annotate, Ensures-attempt, Ensures-pure,
  Ensures-bind, Ensures-try_else, Ensures-then,
}
use tx_submitter.Pool
use tx_submitter.Retry.{Floats}
use tx_submitter.Submitter.{with_channel, process, submit_process, outcome_of, without_value}
use tx_submitter.Submitter.Signing.{Engine}
use tx_submitter.Submitter.Keeping.{build_signed_payment-Keeps, submit-Keeps}
use tx_submitter.Submitter.Invariants.{acquire-Keeps, release-Keeps}
use tx_submitter.Submitter.Lifecycle.{here, At, Reached, update_status-At, mark_channel_used-At}
use tx_submitter.Submitter.Stages.{done, still, handle-Left, poll-Left}

module _ (F : Floats) (e : Env) (g : Engine F) (tx : Transaction) where
  abbrev Pending : Db → Type 0
  Pending = At tx.id Status.pending

  -- What is left behind.
  abbrev Left : Db → Type 0
  Left = Reached tx.id Status.pending

  with_channel-Left :
      (ca : ChannelAccount) → Ensures Pending (with_channel F e g tx ca) (λ _. Left) Left
  unfolding with_channel
  with_channel-Left ca =
      Ensures-then Pending Pending _ Left _ _
        (Ensures-annotate Pending _ _ _ Left
          (still e tx.id Status.pending _ here (mark_channel_used-At e tx.id Status.pending _)))
        (Ensures-bind Pending (λ _. Pending) _ Left _ _
          (Ensures-annotate Pending _ _ _ Left (
            still e tx.id Status.pending _ here (build_signed_payment-Keeps Pending F e g tx ca _)))
          λ t.
            Ensures-try_else Pending (λ _. Pending) Pending _ Left _ _ _
              (Ensures-Keeps Pending _ (submit-Keeps Pending e t))
              (λ er.
                Ensures-then Pending Left _ Left _ _ (handle-Left F e g tx ca er)
                  (Ensures-pure Left (codes "submitted") _ Left (λ db h. h)))
              λ hid.
                Ensures-then Pending (At tx.id Status.submitted) _ Left _ _
                  (Ensures-annotate Pending _ _ _ Left (
                    Ensures-weaken Pending Pending _ _ _ Pending Left (λ db h. h) (λ a db h. h)
                      (done e tx.id Status.pending here)
                      (update_status-At e tx.id Status.pending Status.submitted _ _)))
                  (Ensures-then (At tx.id Status.submitted) Left _ Left _ _ (poll-Left F e g tx hid)
                    (Ensures-pure Left (codes "confirmed") _ Left (λ db h. h))))

  pub acquire-still : Keeps Pending (Pool.acquire e)
  unfolding Pool.acquire
  acquire-still = search (keeps_rules, acquire-Keeps Pending e (λ cas db h. h))

  -- The release at the end, and the return.
  finish-Left :
      {A : Type 0} (ca : ChannelAccount) (result : Result A)
      → Ensures Left (ignore (Pool.release e ca.public_key) >> lift result) (λ _. Left) Left
  unfolding Pool.release
  finish-Left ca result =
      Ensures-Keeps Left _ (search (keeps_rules, release-Keeps Left e (λ cas db h. h)) depth 8)

  process-Left : Ensures Pending (process F e g tx) (λ _. Left) Left
  unfolding process
  process-Left =
      Ensures-bind Pending (λ _. Pending) _ Left _ _
        (Ensures-annotate Pending _ _ _ Left (still e tx.id Status.pending _ here acquire-still))
        λ ca.
          Ensures-bind Pending (λ _. Left) _ Left _ _
            (Ensures-attempt Pending _ Left (with_channel-Left ca)) λ result. finish-Left ca result

  -- What is measured at the end, and the return.
  pub report-Keeps :
      (begun : ℕ) (result : Result Text)
      → Keeps Left (do
        end ← gets (λ w. e.now w.calls)
        measure (observe_submit_latency (end - begun) (outcome_of result))
        measure (increment_submission (outcome_of result))
        lift (without_value result))
  report-Keeps begun result = search keeps_rules depth 8

  -- `SubmitProcess` takes a pending transaction along the edges of the lifecycle.
  pub submit_process-Left : Ensures Pending (submit_process F e g tx) (λ _. Left) Left
  unfolding submit_process
  submit_process-Left =
      Ensures-bind Pending (λ _. Pending) _ Left _ _
        (still e tx.id Status.pending _ here (Keeps-gets Pending λ w. e.now w.calls))
        λ begun.
          Ensures-bind Pending (λ _. Left) _ Left _ _ (Ensures-attempt Pending _ Left process-Left)
            λ result. Ensures-Keeps Left _ (report-Keeps begun result)
