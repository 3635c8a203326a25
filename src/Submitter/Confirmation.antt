-- ===== src/Submitter/Confirmation.antt =====
-- Where nothing outside fails, `SubmitProcess` confirms a payment that the SDK takes, whatever its status
-- in the table is.
use tx_submitter.Base.{◌-◌, ℕ, ◌≡◌, refl, true, some, arith, inl, inr}
use tx_submitter.Base.Text.{Text, text_eq, codes}
use tx_submitter.State.{Status, Transaction, ChannelAccount}
use tx_submitter.Errors.{wrap, Result, ok, is_ok}
use tx_submitter.External.{Env, Envelope}
use tx_submitter.World.{
  annotate, try_else, Db, World, Action, ◌>>=◌, ◌>>◌, pure, ignore, lift, gets, measure,
}
use tx_submitter.World.Keeps.{Keeps, Keeps-run, Keeps-gets, keeps_rules}
use tx_submitter.World.Ensures.{
  Ensures, Ensures-cases, Ensures-annotate, Ensures-bind, Ensures-then, Ensures-pure,
  Ensures-try_else, Ensures-intro, Ensures-given,
}
use tx_submitter.Store.Accounts.{least_used}
use tx_submitter.Pool
use tx_submitter.Retry.{Floats}
use tx_submitter.Submitter.Signing.{Engine, submit}
use tx_submitter.Store.{update_status}
use tx_submitter.Submitter.Polling.{poll_for_confirmation}
use tx_submitter.Store.Leases.{acquire_found}
use tx_submitter.Submitter.Lifecycle.{At, mark_channel_used-At}
use tx_submitter.Submitter.Retries.{handle_submission_error}
use tx_submitter.Submitter.Invariants.{acquire-Keeps, release-Keeps}
use tx_submitter.Submitter.Keeping.{build_signed_payment-Keeps, submit-Keeps}
use tx_submitter.Submitter.{with_channel, process, submit_process, outcome_of, without_value}
use tx_submitter.Metrics.{observe_submit_latency, increment_submission}
use tx_submitter.Submitter.Delivery.{
  IsHealthy, IsPayable, IsUsable, Never, sure, attempt-sure, mark_ok, submit_ok, acquire_ok,
  first_build, first_build_ok, Settles, submit-Settles, update_status-moves, poll-moves,
}

module _ (F : Floats) (e : Env) (g : Engine F) (tx : Transaction) (h : IsHealthy F e g)
    (pays : IsPayable F e g tx) (s : Status) where
  abbrev pub Confirmed : Db → Type 0
  Confirmed = At tx.id Status.confirmed

  -- What is built is sent, and what is sent settles.
  build-sure :
      (ca : ChannelAccount)
      → IsUsable e ca
      → Ensures
          (At tx.id s)
          (first_build F e g tx ca)
          (λ t db. ((w : World) × ((first_build F e g tx ca w).0 ≡ ok t)) × At tx.id s db)
          Never
  build-sure ca usable =
      Ensures-cases (At tx.id s) _ _ Never
        (λ w t there got. (
          (w, got),
          Keeps-run (At tx.id s) _ (build_signed_payment-Keeps (At tx.id s) F e g tx ca _) w there,
        ))
        (λ w x there got. ground (arith, first_build_ok F e g h tx pays ca usable w))

  submit-sure :
      (ca : ChannelAccount) (t : Envelope) (w : World)
      → (first_build F e g tx ca w).0 ≡ ok t
      → Ensures (At tx.id s) (submit e t) (λ hid db. Settles F e g h hid × At tx.id s db) Never
  submit-sure ca t w built =
      Ensures-cases (At tx.id s) _ _ Never
        (λ w' hid there got. (
          submit-Settles F e g h t w' hid got,
          Keeps-run (At tx.id s) _ (submit-Keeps (At tx.id s) e t) w' there,
        ))
        (λ w' x there got. ground (arith, submit_ok F e g h tx pays ca t w w' built))

  -- What follows once Horizon has accepted.
  abbrev pub recorded : Text → Action Text
  recorded hid = do
    annotate (wrap (codes "updating status to submitted"))
        (update_status e tx.id Status.submitted (codes "submitted to horizon") (some hid))
    poll_for_confirmation e tx.id hid
    pure (codes "confirmed")

  recorded-confirms :
      (hid : Text)
      → Settles F e g h hid
      → Ensures (At tx.id s) (recorded hid) (λ _. Confirmed) Never
  recorded-confirms hid settles =
      Ensures-then (At tx.id s) (At tx.id Status.submitted) _ Never _ _
        (Ensures-annotate (At tx.id s) _ _ _ Never
          (update_status-moves F e g h tx.id s Status.submitted _ _ refl))
        (Ensures-then (At tx.id Status.submitted) Confirmed _ Never _ _
          (poll-moves F e g h tx.id hid settles)
          (Ensures-pure Confirmed (codes "confirmed") _ Never (λ db c. c)))

  abbrev pub sending : ChannelAccount → Envelope → Action Text
  sending ca t =
      try_else (submit e t)
        (λ er. handle_submission_error F e g tx ca er >> pure (codes "submitted")) recorded

  sending-confirms :
      (ca : ChannelAccount) (t : Envelope) (w : World)
      → (first_build F e g tx ca w).0 ≡ ok t
      → Ensures (At tx.id s) (sending ca t) (λ _. Confirmed) Never
  sending-confirms ca t w built =
      Ensures-try_else (At tx.id s) _ Never _ Never _
        (λ er. handle_submission_error F e g tx ca er >> pure (codes "submitted")) recorded
        (submit-sure ca t w built) (λ er. Ensures-intro Never _ _ Never λ w no. absurd no)
        λ hid.
          Ensures-given (Settles F e g h hid) (At tx.id s) (recorded hid) _ Never
            (recorded-confirms hid)

  with_channel-confirms :
      (ca : ChannelAccount)
      → IsUsable e ca
      → Ensures (At tx.id s) (with_channel F e g tx ca) (λ _. Confirmed) Never
  unfolding with_channel
  with_channel-confirms ca usable =
      Ensures-then (At tx.id s) (At tx.id s) _ Never _ _
        (Ensures-annotate (At tx.id s) _ _ _ Never
          (sure (At tx.id s) _ (mark_channel_used-At e tx.id s _) (mark_ok F e g h tx.id _)))
        (Ensures-bind (At tx.id s) _ _ Never _ (sending ca)
          (Ensures-annotate (At tx.id s) _ _ _ Never (build-sure ca usable))
          λ t.
            Ensures-given ((w : World) × ((first_build F e g tx ca w).0 ≡ ok t)) (At tx.id s)
              (sending ca t) _ Never λ (w, built). sending-confirms ca t w built)

  -- The channel account can be acquired, its keys can be used, and the transaction has the status s.
  abbrev pub Ready : ChannelAccount → Db → Type 0
  Ready ca db = (least_used db.accounts ≡ some ca) × IsUsable e ca × At tx.id s db

  acquire-At : Keeps (At tx.id s) (Pool.acquire e)
  unfolding Pool.acquire
  acquire-At = search (keeps_rules, acquire-Keeps (At tx.id s) e (λ cas db there. there)) depth 8

  -- The account that is returned has the keys of the row that was read.
  same_keys :
      (ca a : ChannelAccount) (w : World)
      → least_used w.db.accounts ≡ some ca
      → (Pool.acquire e w).0 ≡ ok a
      → IsUsable e ca
      → IsUsable e a
  unfolding Pool.acquire
  same_keys ca a w found got usable = elim (acquire_found e w ca found) [
    | inl failed ↦ absurd (ground arith)
    | inr taken ↦ (ground (arith, usable.0), ground (arith, usable.1))
  ]

  acquire-sure :
      (ca : ChannelAccount)
      → Ensures (Ready ca) (Pool.acquire e) (λ a db. IsUsable e a × At tx.id s db) Never
  acquire-sure ca =
      Ensures-cases (Ready ca) _ _ Never
        (λ w a (found, usable, there) got.
          (same_keys ca a w found got usable, Keeps-run (At tx.id s) _ acquire-At w there))
        (λ w x ready got. ground (arith, acquire_ok F e g h ca w ready.0))

  -- The release at the end of a body that did not fail, and the return.
  finish-sure :
      (k : Text) (r : Result Text)
      → Ensures
          (λ db. (is_ok r ≡ true) × Confirmed db)
          (ignore (Pool.release e k) >> lift r)
          (λ _. Confirmed)
          Never
  unfolding Pool.release
  finish-sure k r =
      Ensures-cases (λ db. (is_ok r ≡ true) × Confirmed db) _ (λ _. Confirmed) Never
        (λ w a (good, c) got.
          Keeps-run Confirmed (ignore (Pool.release e k) >> lift r)
            (search (keeps_rules, release-Keeps Confirmed e (λ cas db c'. c')) depth 8) w c)
        (λ w x (good, c) got. absurd (ground arith))

  -- What is measured at the end, and the return.
  abbrev report : ℕ → Result Text → Action (Unit {0})
  report begun r = do
    end ← gets (λ w. e.now w.calls)
    measure (observe_submit_latency (end - begun) (outcome_of r))
    measure (increment_submission (outcome_of r))
    lift (without_value r)

  report-sure :
      (begun : ℕ) (r : Result Text)
      → Ensures (λ db. (is_ok r ≡ true) × Confirmed db) (report begun r) (λ _. Confirmed) Never
  report-sure begun r =
      Ensures-cases (λ db. (is_ok r ≡ true) × Confirmed db) _ (λ _. Confirmed) Never
        (λ w a (good, c) got. Keeps-run Confirmed (report begun r) (search keeps_rules depth 8) w c)
        (λ w x (good, c) got. absurd (ground arith))

  process-confirms :
      (ca : ChannelAccount) → Ensures (Ready ca) (process F e g tx) (λ _. Confirmed) Never
  unfolding process
  process-confirms ca =
      Ensures-bind (Ready ca) (λ a db. IsUsable e a × At tx.id s db) _ Never _ _
        (Ensures-annotate (Ready ca) _ _ _ Never (acquire-sure ca))
        λ a. Ensures-given (IsUsable e a) (At tx.id s) _ _ Never λ usable.
          Ensures-bind (At tx.id s) (λ r db. (is_ok r ≡ true) × Confirmed db) _ Never _ _
            (attempt-sure (At tx.id s) _ Confirmed (with_channel-confirms a usable))
            (finish-sure a.public_key)

  pub submit_process-confirms :
      (ca : ChannelAccount) → Ensures (Ready ca) (submit_process F e g tx) (λ _. Confirmed) Never
  unfolding submit_process
  submit_process-confirms ca =
      Ensures-bind (Ready ca) (λ _. Ready ca) _ Never _ _
        (sure (Ready ca) _ (Keeps-gets (Ready ca) λ w. e.now w.calls) (λ w. refl))
        λ begun.
          Ensures-bind (Ready ca) (λ r db. (is_ok r ≡ true) × Confirmed db) _ Never _ _
            (attempt-sure (Ready ca) _ Confirmed (process-confirms ca)) (report-sure begun)
