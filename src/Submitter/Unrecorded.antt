-- ===== src/Submitter/Unrecorded.antt =====
-- A payment that Horizon has accepted, where the database then fails.
use tx_submitter.Base.{◌≡◌, refl, sym, ap, ◌∙◌, subst, Option, some, ◌∷◌, arith}
use tx_submitter.Base.Int.{pos}
use tx_submitter.Base.Text.{Text, codes}
use tx_submitter.State.{Status, Transaction, ChannelAccount}
use tx_submitter.Errors.{Error, ok, err, wrap}
use tx_submitter.External.{Env, Envelope}
use tx_submitter.World.{World, Event, Action, annotate, ◌>>=◌, ◌>>◌, pure, try_else}
use tx_submitter.World.Keeps.{Keeps-run}
use tx_submitter.Store.{update_status, mark_channel_used}
use tx_submitter.Store.Updates.{update_status_atomic}
use tx_submitter.Retry.{Floats, current_fee}
use tx_submitter.Submitter.{with_channel}
use tx_submitter.Submitter.Signing.{Engine, build_signed_payment, submit}
use tx_submitter.Submitter.Polling.{poll_for_confirmation}
use tx_submitter.Submitter.Retries.{handle_submission_error}
use tx_submitter.Submitter.Keeping.{build_signed_payment-Keeps, submit-Keeps}
use tx_submitter.Submitter.Lifecycle.{At, mark_channel_used-At}

-- An action that returns a value, and one that returns an error, in a sequence.
module _ {A B : Type 0} (f : Error → Error) (m : Action A) (w : World) where
  bind-ok : (k : A → Action B) (a : A) → (m w).0 ≡ ok a → (annotate f m >>= k) w ≡ k a (m w).1
  bind-ok k a h = ap (λ r. (annotate f (λ _. (r, (m w).1)) >>= k) w) h

  bind-err :
      (k : A → Action B) (x : Error)
      → (m w).0 ≡ err x
      → (annotate f m >>= k) w ≡ (err (f x), (m w).1)
  bind-err k x h = ap (λ r. (annotate f (λ _. (r, (m w).1)) >>= k) w) h

  try_else-ok :
      (on_err : Error → Action B) (k : A → Action B) (a : A)
      → (m w).0 ≡ ok a
      → try_else m on_err k w ≡ k a (m w).1
  unfolding try_else
  try_else-ok on_err k a h = ap (λ r. try_else (λ _. (r, (m w).1)) on_err k w) h

module _ (F : Floats) (e : Env) (g : Engine F) (tx : Transaction) (ca : ChannelAccount) (w : World)
    (t : Envelope) (hid : Text) (x : Error) where
  -- The worlds after the steps of `SubmitProcess`.
  abbrev pub marked : World
  marked = (mark_channel_used e tx.id ca.public_key w).1

  abbrev pub built : World
  built = (build_signed_payment F e g tx ca (current_fee F g.retry_policy (pos 0)) marked).1

  abbrev pub accepted : World
  accepted = (submit e t built).1

  submit-trace : accepted.trace ≡ Event.sent t ∷ built.trace
  unfolding submit
  submit-trace = refl

  update-trace :
      (new : Status) (detail : Text) (h : Option Text) (v : World)
      → (update_status e tx.id new detail h v).1.trace ≡ v.trace
  unfolding update_status
  update-trace new detail h v = ground arith

  -- The world at the return.
  abbrev refused : World
  refused =
      (update_status e tx.id Status.submitted (codes "submitted to horizon") (some hid) accepted).1

  -- What is left to do after each step.
  abbrev recording : Text → Action Text
  recording h = do
    annotate (wrap (codes "updating status to submitted"))
        (update_status e tx.id Status.submitted (codes "submitted to horizon") (some h))
    poll_for_confirmation e tx.id h
    pure (codes "confirmed")

  abbrev retrying : Error → Action Text
  retrying er = handle_submission_error F e g tx ca er >> pure (codes "submitted")

  abbrev sending : Envelope → Action Text
  sending s = try_else (submit e s) retrying recording

  abbrev building : Unit {0} → Action Text
  building _ = do
    s ←
        annotate (wrap (codes "building transaction"))
          (build_signed_payment F e g tx ca (current_fee F g.retry_policy (pos 0)))
    sending s

  with_channel-refused :
      (mark_channel_used e tx.id ca.public_key w).0 ≡ ok tt
      → (build_signed_payment F e g tx ca (current_fee F g.retry_policy (pos 0)) marked).0 ≡ ok t
      → (submit e t built).0 ≡ ok hid
      → (update_status e tx.id Status.submitted
          (codes "submitted to horizon")
          (some hid)
          accepted).0
        ≡ err x
      → with_channel F e g tx ca w ≡ (err (wrap (codes "updating status to submitted") x), refused)
  unfolding with_channel
  with_channel-refused m b s u =
      bind-ok (wrap (codes "marking channel used")) (mark_channel_used e tx.id ca.public_key) w
        building tt m
      ∙ bind-ok (wrap (codes "building transaction"))
          (build_signed_payment F e g tx ca (current_fee F g.retry_policy (pos 0))) marked sending t
          b
      ∙ try_else-ok (λ er. er) (submit e t) built retrying recording hid s
      ∙ bind-err (wrap (codes "updating status to submitted"))
          (update_status e tx.id Status.submitted (codes "submitted to horizon") (some hid))
          accepted (λ _. poll_for_confirmation e tx.id hid >> pure (codes "confirmed")) x u

  -- `SubmitProcess` once it has a channel account: if the row is pending, the account is recorded
  -- in it, the transaction is built and Horizon accepts it, and then the `UpdateStatus` to
  -- submitted fails, its error is returned, the one thing sent since the transaction was built is
  -- that transaction, and the row is still pending.
  pub accepted_unrecorded :
      At tx.id Status.pending w.db
      → (mark_channel_used e tx.id ca.public_key w).0 ≡ ok tt
      → (build_signed_payment F e g tx ca (current_fee F g.retry_policy (pos 0)) marked).0 ≡ ok t
      → (submit e t built).0 ≡ ok hid
      → (update_status e tx.id Status.submitted
          (codes "submitted to horizon")
          (some hid)
          accepted).0
        ≡ err x
      → ((with_channel F e g tx ca w).0 ≡ err (wrap (codes "updating status to submitted") x))
        × ((with_channel F e g tx ca w).1.trace ≡ Event.sent t ∷ built.trace)
        × At tx.id Status.pending (with_channel F e g tx ca w).1.db
  accepted_unrecorded there m b s u =
      let path = with_channel-refused m b s u in
      (
        ap (λ r. r.0) path,
        ap (λ r. r.1.trace) path
            ∙ update-trace Status.submitted _ (some hid) accepted
            ∙ submit-trace,
        subst (λ r. At tx.id Status.pending r.1.db) (sym path)
            (subst (At tx.id Status.pending)
              (sym (update_status_atomic e tx.id Status.submitted _ (some hid) accepted x u))
              (Keeps-run (At tx.id Status.pending) _ (submit-Keeps (At tx.id Status.pending) e t)
                built
                (Keeps-run (At tx.id Status.pending) _
                  (build_signed_payment-Keeps (At tx.id Status.pending) F e g tx ca _) marked
                  (Keeps-run (At tx.id Status.pending) _
                    (mark_channel_used-At e tx.id Status.pending ca.public_key) w there)))),
      )
