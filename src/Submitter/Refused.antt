-- ===== src/Submitter/Refused.antt =====
-- A payment with a destination that the SDK does not take: it is never built, and never leaves the queue.
use tx_submitter.Base.{
  ◌≡◌, refl, sym, subst, false, some, List, [], ◌∷◌, arith, inl, inr, ◌&&◌, Option-cases,
  find_where, map, All, All-map, All-take, All-order_by, if◌then◌else◌,
}
use tx_submitter.Base.Int.{ℤ}
use tx_submitter.Base.Text.{Text, text_eq}
use tx_submitter.State.{Status, status_eq, Transaction, ChannelAccount}
use tx_submitter.Errors.{Error, is_ok, ok, err, Result}
use tx_submitter.External.{Env, Envelope}
use tx_submitter.World.{Db, World, Action, annotate, ◌>>=◌}
use tx_submitter.World.Keeps.{
  Keeps, Keeps-intro, Keeps-run, Keeps-statement, Keeps-pure, keeps_rules,
}
use tx_submitter.World.Ensures.{
  Ensures, Outcome, Ensures-cases, Ensures-annotate, Ensures-bind, Ensures-intro, Ensures-at,
}
use tx_submitter.Store.{has_id, is_pending, pending_row, pending_rows, mark_channel_used}
use tx_submitter.Store.Accounts.{acquire_channel_account, release_channel_account}
use tx_submitter.Store.Consistency.{IsConsistent}
use tx_submitter.Pool
use tx_submitter.Retry.{Floats}
use tx_submitter.Submitter.{
  with_channel, process, submit_process, process_all, tick, start, Signal, ticked, done,
}
use tx_submitter.Submitter.Builder.{build}
use tx_submitter.Submitter.Signing.{Engine, build_signed_payment, current_ledger_bound}
use tx_submitter.Submitter.Keeping.{build_signed_payment-Keeps}
use tx_submitter.Submitter.Invariants.{acquire-Keeps, release-Keeps, submit_process_others}
use tx_submitter.Submitter.Lifecycle.{At, find_where-update_where_if}
use tx_submitter.Submitter.Queue.{listed, tick_up, tick_down, tick-IsConsistent}
use tx_submitter.Submitter.Listing.{found_rows, waiting_rows}

-- An action that keeps P however it ends.
Keeps-both : (P : Db → Type 0) {A : Type 0} (m : Action A) → Ensures P m (λ _. P) P → Keeps P m
Keeps-both P {A} m h = Keeps-intro P m λ w p. either (m w).0 (Ensures-at P m (λ _. P) P h w p)
  where
    either : {db : Db} (r : Result A) → Outcome (λ _. P) P r db → P db
    either (ok a) q = q
    either (err x) q = q

module _ (F : Floats) (e : Env) (g : Engine F) (tx : Transaction)
    (bad : is_ok (e.parse_address tx.destination) ≡ false) where
  build_refused :
      (ca : ChannelAccount) (fee : ℤ) (w : World)
      → is_ok (build_signed_payment F e g tx ca fee w).0 ≡ false
  unfolding build_signed_payment current_ledger_bound build
  build_refused ca fee w = grind (arith, bad)

  module _ (P : Db → Type 0) (marks : (k : Text) → Keeps P (mark_channel_used e tx.id k)) where
    never_built :
        (ca : ChannelAccount) (fee : ℤ)
        → Ensures P (build_signed_payment F e g tx ca fee) (λ _ _. ⊥) P
    never_built ca fee =
        Ensures-cases P _ _ P (λ w t p got. ground (arith, build_refused ca fee w))
          (λ w x p got. Keeps-run P _ (build_signed_payment-Keeps P F e g tx ca fee) w p)

    refused_after :
        (ca : ChannelAccount) (fee : ℤ) (f : Error → Error) (rest : Envelope → Action Text)
        → Keeps P (annotate f (build_signed_payment F e g tx ca fee) >>= rest)
    refused_after ca fee f rest = Keeps-both P _ (
        Ensures-bind P (λ _ _. ⊥) _ P _ rest (Ensures-annotate P f _ _ P (never_built ca fee))
          λ t. Ensures-intro (λ _. ⊥) _ _ P λ w no. absurd no)

    -- What is left is the mark.
    with_channel-refused : (ca : ChannelAccount) → Keeps P (with_channel F e g tx ca)
    unfolding with_channel
    with_channel-refused ca = search (refused_after, marks, keeps_rules) depth 12

    module _ (acquires : Keeps P (acquire_channel_account e))
        (releases : (k : Text) → Keeps P (release_channel_account e k)) where
      process-refused : Keeps P (process F e g tx)
      unfolding process Pool.acquire Pool.release
      process-refused = search (keeps_rules, with_channel-refused) depth 12

      submit_process-refused : Keeps P (submit_process F e g tx)
      unfolding submit_process
      submit_process-refused = search (keeps_rules, process-refused) depth 12

module _ (F : Floats) (e : Env) (g : Engine F) (id : Text) where
  -- The row with the id waits, and its destination is not an address.
  abbrev Waits : Db → Type 0
  Waits db =
      (t : Transaction) × (find_where (has_id id) db.transactions ≡ some t)
      × (t.status ≡ Status.pending)
      × (is_ok (e.parse_address t.destination) ≡ false)

  mark-Waits : (k : Text) → Keeps Waits (mark_channel_used e id k)
  unfolding mark_channel_used
  mark-Waits k = Keeps-statement Waits e _ λ n db (t, found, waits, bad). (
    (if has_id id t && is_pending t
        then record t { channel_account = k; updated_at = e.now n }
        else t),
    find_where-update_where_if id (λ x. has_id id x && is_pending x)
        (λ x. record x { channel_account = k; updated_at = e.now n }) t (λ x. refl) db.transactions
        found,
    ground arith,
    ground arith,
  )

  -- A listed row with the id has that destination.
  abbrev Bad : Transaction → Type 0
  Bad tx = tx.id ≡ id → is_ok (e.parse_address tx.destination) ≡ false

  submit_process-Waits : (tx : Transaction) → Bad tx → Keeps Waits (submit_process F e g tx)
  submit_process-Waits tx bad = elim (text_eq.dec tx.id id) [
    | yes mine ↦
        submit_process-refused F e g tx (bad mine) Waits
          (λ k. subst (λ i. Keeps Waits (mark_channel_used e i k)) (sym mine) (mark-Waits k))
          (acquire-Keeps Waits e (λ cas db h. h)) (release-Keeps Waits e (λ cas db h. h))
    | no other ↦ Keeps-intro Waits _ λ w (t, found, waits, bad').
        (t, submit_process_others F e g id t tx w other found, waits, bad')
  ]

  process_all-Waits : (txs : List Transaction) → All Bad txs → Keeps Waits (process_all F e g txs)
  unfolding process_all
  process_all-Waits [] all = Keeps-pure Waits tt
  process_all-Waits (tx ∷ txs) all =
      search (keeps_rules, submit_process-Waits tx all.0, process_all-Waits txs all.1) depth 8

  rows-Bad : (ts : List Transaction) → All Bad ts → All Bad (map pending_row ts)
  rows-Bad [] all = tt
  rows-Bad (t ∷ ts) all = (all.0, rows-Bad ts all.1)

  listed-Bad : (db : Db) → IsConsistent db → Waits db → All Bad (pending_rows e 10 db)
  listed-Bad db c (t, found, waits, bad) = rows-Bad _ (
      All-take Bad 10 _ (
        All-order_by Bad (λ x. x.created_at) _
          (All-map _ Bad _ (λ x (b, p). b)
            (waiting_rows Bad db.transactions (
              All-map (λ x. find_where (has_id x.id) db.transactions ≡ some x) Bad _
                (λ x here same. ground (arith, bad)) (found_rows db.transactions c.distinct))))))

  abbrev Stuck : Db → Type 0
  Stuck db = IsConsistent db × Waits db

  tick-Stuck : Keeps Stuck (tick F e g)
  tick-Stuck = Keeps-intro Stuck _ λ w (c, waits). (
    Keeps-run IsConsistent _ (tick-IsConsistent F e g id) w c,
    elim (Option-cases (e.db_fault w.calls)) [
      | inl up ↦ subst Waits (sym (tick_up F e g id w up)) (
          Keeps-run Waits _ (process_all-Waits (pending_rows e 10 w.db) (listed-Bad w.db c waits))
            (listed F e g id w) waits)
      | inr (x, fault) ↦ subst Waits (sym (tick_down F e g id w x fault)) waits
    ],
  )

  start-Stuck : (signals : List Signal) → Keeps Stuck (start F e g signals)
  unfolding start
  start-Stuck [] = Keeps-pure Stuck tt
  start-Stuck (ticked ∷ signals) = search (keeps_rules, tick-Stuck, start-Stuck signals) depth 8
  start-Stuck (done ∷ signals) = Keeps-pure Stuck tt

  -- A pending row of consistent tables whose destination the SDK does not take as an address stays
  -- pending over any signals of `Start` and whatever the environment answers: it is marked neither
  -- failed nor dead_letter, so each tick can list it again.
  pub start_refused :
      (signals : List Signal) (w : World) (t : Transaction)
      → IsConsistent w.db
      → find_where (has_id id) w.db.transactions ≡ some t
      → t.status ≡ Status.pending
      → is_ok (e.parse_address t.destination) ≡ false
      → At id Status.pending (start F e g signals w).1.db
  start_refused signals w t c found waits bad =
      let (_, (t', found', waits', _)) =
        Keeps-run Stuck _ (start-Stuck signals) w (c, (t, found, waits, bad)) in
      (t', found', waits')
