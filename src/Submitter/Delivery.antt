-- ===== src/Submitter/Delivery.antt =====
-- Where nothing outside fails, and for a payment that the SDK takes: what goes through, step by step.
use tx_submitter.Base.{ℕ, suc, ◌≡◌, refl, sym, subst, true, false, ◌&&◌, Option, none, some, arith}
use tx_submitter.Base.Int.{pos}
use tx_submitter.Base.Text.{Text, text_eq}
use tx_submitter.State.{Status, Transaction, ChannelAccount, is_terminal}
use tx_submitter.Errors.{Result, ok, err, is_ok}
use tx_submitter.External.{Env, KeyPair, Envelope}
use tx_submitter.World.{Db, World, Action, attempt}
use tx_submitter.World.Keeps.{Keeps, Keeps-run}
use tx_submitter.World.Ensures.{
  Outcome, Ensures, Ensures-cases, Ensures-annotate, Ensures-intro, Ensures-at,
}
use tx_submitter.Store.{update_status, mark_channel_used, set_status}
use tx_submitter.Store.Accounts.{least_used, acquire_channel_account}
use tx_submitter.Store.Updates.{update_status_succeeds}
use tx_submitter.Store.Races.{find_where-update_where}
use tx_submitter.Pool
use tx_submitter.Retry.{Floats, current_fee}
use tx_submitter.Submitter.Builder.{build, payment_transaction}
use tx_submitter.Submitter.Signing.{
  Engine, payment_params, build_signed_payment, current_ledger_bound, sign_as_source, submit,
}
use tx_submitter.Submitter.Polling.{max_polls, confirm, poll_for_confirmation}
use tx_submitter.Submitter.Outcomes.{
  first_answer, polled, conclude, polled-db, poll_for_confirmation_lem,
}
use tx_submitter.Submitter.Lifecycle.{At}

-- The keys of a channel account are ones that the SDK takes.
abbrev pub IsUsable : Env → ChannelAccount → Type 0
IsUsable e ca =
    (is_ok (e.parse_full ca.secret_key) ≡ true) × (is_ok (e.parse_address ca.public_key) ≡ true)

module _ (F : Floats) (e : Env) (g : Engine F) where
  -- The transaction that the first attempt for a payment builds.
  abbrev pub first_build : Transaction → ChannelAccount → Action Envelope
  first_build tx ca = build_signed_payment F e g tx ca (current_fee F g.retry_policy (pos 0))

  -- The payment of this row: its destination and its source parse, the SDK builds it from an account
  -- with usable keys, and Horizon accepts what the engine builds for it.
  pub record IsPayable (tx : Transaction) : Type 0 where
    pub destination : is_ok (e.parse_address tx.destination) ≡ true
    pub source : is_ok (e.parse_full tx.source_account) ≡ true
    pub builds :
        (ca : ChannelAccount) (max_ledger : ℕ)
        → IsUsable e ca
        → is_ok (
            e.new_transaction (
              payment_transaction g.builder
                (payment_params e tx ca max_ledger (current_fee F g.retry_policy (pos 0)))))
          ≡ true
    pub accepted :
        (ca : ChannelAccount) (t : Envelope) (w : World) (n : ℕ)
        → (first_build tx ca w).0 ≡ ok t
        → is_ok (e.submit_transaction n t) ≡ true

  -- Outside, whatever the payment: every call of the database goes through, keys that parse sign for
  -- the engine's network, and Horizon reports what it accepted as successful within the polls.
  pub record IsHealthy : Type 0 where
    pub up : (n : ℕ) → e.db_fault n ≡ none
    pub signs :
        (s : Text) (kp : KeyPair) (t : Envelope)
        → e.parse_full s ≡ ok kp
        → is_ok (e.sign g.network_pass kp t) ≡ true
    pub included :
        (n m : ℕ) (t : Envelope) (hid : Text)
        → e.submit_transaction n t ≡ ok hid
        → first_answer e hid max_polls m ≡ some true

-- No error is returned.
abbrev pub Never : Db → Type 0
Never db = ⊥

-- An action that keeps P and does not fail.
pub sure :
    {A : Type 0} (P : Db → Type 0) (m : Action A)
    → Keeps P m
    → ((w : World) → is_ok (m w).0 ≡ true)
    → Ensures P m (λ _. P) Never
sure P m k works =
    Ensures-cases P m (λ _. P) Never (λ w a h got. Keeps-run P m k w h)
      (λ w x h got. ground (arith, works w))

-- An action that returns no error returns a value.
pub sure_run :
    {A : Type 0} (P : Db → Type 0) (m : Action A) (Q : Db → Type 0)
    → Ensures P m (λ _. Q) Never
    → (w : World) → P w.db
    → (is_ok (m w).0 ≡ true) × Q (m w).1.db
sure_run {A} P m Q k w p = reached (m w).0 (Ensures-at P m _ Never k w p)
  where
    reached : (r : Result A) → Outcome (λ _. Q) Never r (m w).1.db → (is_ok r ≡ true) × Q (m w).1.db
    reached (ok a) q = (refl, q)
    reached (err x) q = absurd q

-- A body that does not fail, when its error is a value.
pub attempt-sure :
    {A : Type 0} (P : Db → Type 0) (m : Action A) (Q : Db → Type 0)
    → Ensures P m (λ _. Q) Never
    → Ensures P (attempt m) (λ r db. (is_ok r ≡ true) × Q db) Never
attempt-sure P m Q k =
    Ensures-intro P (attempt m) (λ r db. (is_ok r ≡ true) × Q db) Never (sure_run P m Q k)

module _ (F : Floats) (e : Env) (g : Engine F) (h : IsHealthy F e g) where
  open h use {up, signs, included}

  pub mark_ok : (tx_id k : Text) (w : World) → is_ok (mark_channel_used e tx_id k w).0 ≡ true
  unfolding mark_channel_used
  mark_ok tx_id k w = ground (arith, up w.calls)

  module _ (tx : Transaction) (pays : IsPayable F e g tx) (ca : ChannelAccount) where
    pub submit_ok :
        (t : Envelope) (w w' : World)
        → (first_build F e g tx ca w).0 ≡ ok t
        → is_ok (submit e t w').0 ≡ true
    unfolding submit
    submit_ok t w w' built = pays.accepted ca t w w'.calls built

    build_ok :
        (usable : IsUsable e ca) (max_ledger : ℕ)
        → is_ok (
            build e g.builder
              (payment_params e tx ca max_ledger (current_fee F g.retry_policy (pos 0))))
          ≡ true
    unfolding build
    build_ok usable max_ledger =
        ground (arith, usable.1, pays.destination, pays.builds ca max_ledger usable)

    sign_as_source_ok : (t : Envelope) → is_ok (sign_as_source F e g tx ca t) ≡ true
    unfolding sign_as_source
    sign_as_source_ok t = grind (arith, pays.source, signs tx.source_account)

    pub first_build_ok : IsUsable e ca → (w : World) → is_ok (first_build F e g tx ca w).0 ≡ true
    unfolding build_signed_payment current_ledger_bound
    first_build_ok usable w =
        grind (arith, usable.0, signs ca.secret_key, build_ok usable, sign_as_source_ok)

  -- Horizon reports the transaction with this hash as successful.
  abbrev pub Settles : Text → Type 0
  Settles hid = (m : ℕ) → first_answer e hid max_polls m ≡ some true

  pub submit-Settles :
      (t : Envelope) (w : World) (hid : Text) → (submit e t w).0 ≡ ok hid → Settles hid
  unfolding submit
  submit-Settles t w hid got m = included w.calls m t hid got

  pub acquire_ok :
      (ca : ChannelAccount) (w : World)
      → least_used w.db.accounts ≡ some ca
      → is_ok (Pool.acquire e w).0 ≡ true
  unfolding Pool.acquire acquire_channel_account
  acquire_ok ca w found =
      ground
        (arith, up w.calls, up (suc w.calls), up (suc (suc w.calls)), up (suc (suc (suc w.calls))))

  -- A step that the guard lets through is taken.
  pub update_status-moves :
      (id : Text) (s new : Status) (detail : Text) (hid : Option Text)
      → (is_terminal new && is_terminal s) ≡ false
      → Ensures (At id s) (update_status e id new detail hid) (λ _. At id new) Never
  update_status-moves id s new detail hid legal =
      Ensures-cases (At id s) _ (λ _. At id new) Never
        (λ w a (t, found, same) got.
          let (good, written) =
            update_status_succeeds e id new detail hid w t found
              (subst (λ x. (is_terminal new && is_terminal x) ≡ false) (sym same) legal) up in
          (
            set_status new hid detail (e.now (suc w.calls)) t,
            rw written (
                find_where-update_where id (set_status new hid detail (e.now (suc w.calls))) t
                  (λ x. refl) w.db.transactions found),
            refl,
          ))
        (λ w x (t, found, same) got.
          let (good, written) =
            update_status_succeeds e id new detail hid w t found
              (subst (λ x. (is_terminal new && is_terminal x) ≡ false) (sym same) legal) up in
          absurd (ground arith))

  confirm-moves :
      (id hid : Text)
      → Ensures (At id Status.submitted) (confirm e id hid) (λ _. At id Status.confirmed) Never
  unfolding confirm
  confirm-moves id hid =
      Ensures-annotate _ _ _ _ _ (update_status-moves id Status.submitted Status.confirmed _ _ refl)

  pub poll-moves :
      (id hid : Text)
      → Settles hid
      → Ensures
          (At id Status.submitted)
          (poll_for_confirmation e id hid)
          (λ _. At id Status.confirmed)
          Never
  poll-moves id hid settles = Ensures-intro (At id Status.submitted) _ _ Never λ w there.
      let (waits, _, path) = poll_for_confirmation_lem e hid id w in
      subst (λ r. Outcome (λ _. At id Status.confirmed) Never r.0 r.1.db) (sym path)
        (subst
          (λ a.
            Outcome (λ _. At id Status.confirmed) Never
              (conclude e hid id a (polled e hid waits w)).0
              (conclude e hid id a (polled e hid waits w)).1.db)
          (sym (settles w.calls))
          (Ensures-at (At id Status.submitted) _ _ Never (confirm-moves id hid)
            (polled e hid waits w)
            (subst (At id Status.submitted) (sym (polled-db e hid waits w)) there)))
