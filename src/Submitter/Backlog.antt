-- ===== src/Submitter/Backlog.antt =====
-- Where nothing outside fails, enough ticks confirm a queue of payments that the SDK takes.
use tx_submitter.Base.{
  ◌⊎◌, ℕ, zero, suc, ◌+◌, ◌*◌, ◌≤◌, ◌≡◌, ◌≢◌, refl, sym, subst, true, false, some, List, [], ◌∷◌,
  arith, inl, inr, Bool-cases, find_where, any, count, All, length,
}
use tx_submitter.Base.Text.{Text}
use tx_submitter.State.{Status, Transaction}
use tx_submitter.Errors.{ok}
use tx_submitter.External.{Env}
use tx_submitter.World.{World}
use tx_submitter.World.Keeps.{Keeps, Keeps-run, Keeps-pure, keeps_rules}
use tx_submitter.Store.{has_id, is_pending, pending_rows, list_pending}
use tx_submitter.Store.Consistency.{IsConsistent}
use tx_submitter.Retry.{Floats}
use tx_submitter.Submitter.{submit_process, process_all, tick, start, Signal, ticked}
use tx_submitter.Submitter.Signing.{Engine}
use tx_submitter.Submitter.Invariants.{submit_process_others, acquire-Keeps, release-Keeps}
use tx_submitter.Submitter.Lifecycle.{At}
use tx_submitter.Submitter.Queue.{listed, tick_up, process_all_others, start_untouched}
use tx_submitter.Submitter.Delivery.{IsHealthy, IsPayable}
use tx_submitter.Submitter.Payable.{AllPayable, payable_kept, pending_rows-IsPayable}
use tx_submitter.Submitter.Keeping.{tick-Keeps}
use tx_submitter.Submitter.Draining.{Idle, submit_process_turn, submit_process-Idle, tick-confirms}
use tx_submitter.Submitter.Frame.{count-SameBut, submit_process-SameBut}
use tx_submitter.Submitter.Listing.{Listed, pending_rows-Listed, length-pending_rows}

module _ (F : Floats) (e : Env) (g : Engine F) (h : IsHealthy F e g) where
  pub submit_process-count :
      (tx : Transaction) (w : World)
      → IsPayable F e g tx
      → Idle F e g w.db
      → At tx.id Status.pending w.db
      → suc (count is_pending (submit_process F e g tx w).1.db.transactions)
        ≡ count is_pending w.db.transactions
  submit_process-count tx w pays idle (t, found, pending) =
      let (t', found', confirmed) =
        (submit_process_turn F e g h tx.id Status.pending tx w refl pays idle
          (t, found, pending)).1 in
      count-SameBut tx.id w.db.transactions _ t t' (submit_process-SameBut F e g tx w)
        idle.0.distinct found (ground arith) found' (ground arith)

  pub still_waiting :
      (tx : Transaction) (w : World) (txs : List Transaction)
      → count (has_id tx.id) txs ≡ 0
      → All (λ x. At x.id Status.pending w.db) txs
      → All (λ x. At x.id Status.pending (submit_process F e g tx w).1.db) txs
  still_waiting tx w [] absent all = tt
  still_waiting tx w (x ∷ txs) absent ((t, found, pending), all) = (
    (t, submit_process_others F e g x.id t tx w (λ same. ground arith) found, pending),
    still_waiting tx w txs (ground arith) all,
  )

  process_all-count :
      (txs : List Transaction) (w : World)
      → All (IsPayable F e g) txs
      → Idle F e g w.db
      → Listed txs w.db
      → length txs + count is_pending (process_all F e g txs w).1.db.transactions
        ≡ count is_pending w.db.transactions
  unfolding process_all
  process_all-count [] w pay idle all = omega arith
  process_all-count (tx ∷ txs) w pay idle (once, (here, all)) = ground (
    arith,
    submit_process-count tx w pay.0 idle here,
    process_all-count txs (submit_process F e g tx w).1 pay.1
        (Keeps-run (Idle F e g) _ (submit_process-Idle F e g h.up tx) w idle)
        (
          (λ id. let one = once id in ground arith),
          still_waiting tx w txs (let one = once tx.id in ground arith) all,
        ),
  )

  process_all-ok : (txs : List Transaction) (w : World) → (process_all F e g txs w).0 ≡ ok tt
  unfolding process_all
  process_all-ok [] w = refl
  process_all-ok (tx ∷ txs) w = process_all-ok txs (submit_process F e g tx w).1

  pub tick-ok : (w : World) → (tick F e g w).0 ≡ ok tt
  unfolding tick list_pending
  tick-ok w =
      ground (arith, h.up w.calls, process_all-ok (pending_rows e 10 w.db) (listed F e g [] w))

  start-ticked :
      (signals : List Signal) (w : World)
      → (start F e g (ticked ∷ signals) w).1.db ≡ (start F e g signals (tick F e g w).1).1.db
  unfolding start
  start-ticked signals w = ground (arith, tick-ok w)

  tick-count :
      (n : ℕ) (w : World)
      → AllPayable F e g w.db
      → Idle F e g w.db
      → count is_pending w.db.transactions ≤ 10 * suc n
      → count is_pending (tick F e g w).1.db.transactions ≤ 10 * n
  tick-count n w pay idle few =
      let counted =
        process_all-count (pending_rows e 10 w.db) (listed F e g [] w)
          (pending_rows-IsPayable F e g 10 w.db pay) idle (pending_rows-Listed e w.db idle.0) in
      rw (tick_up F e g [] w (h.up w.calls)) (ground (arith, length-pending_rows e w.db, counted))

  process_all-Idle : (txs : List Transaction) → Keeps (Idle F e g) (process_all F e g txs)
  unfolding process_all
  process_all-Idle [] = Keeps-pure (Idle F e g) tt
  process_all-Idle (tx ∷ txs) =
      search (keeps_rules, submit_process-Idle F e g h.up tx, process_all-Idle txs) depth 8

  pub tick-AllPayable : Keeps (AllPayable F e g) (tick F e g)
  tick-AllPayable =
      tick-Keeps (AllPayable F e g) e (payable_kept F e g)
        (acquire-Keeps (AllPayable F e g) e (λ cas db p. p))
        (release-Keeps (AllPayable F e g) e (λ cas db p. p)) F g

  pub tick-Idle : Keeps (Idle F e g) (tick F e g)
  unfolding tick list_pending
  tick-Idle = search (keeps_rules, process_all-Idle) depth 9

-- A `Start` that receives n ticks and then no more signals.
abbrev pub ticks : ℕ → List Signal
ticks zero = []
ticks (suc n) = ticked ∷ ticks n

find_counted :
    (id : Text) (ts : List Transaction) (t : Transaction)
    → find_where (has_id id) ts ≡ some t
    → is_pending t ≡ true
    → count is_pending ts ≢ 0
find_counted id [] t found waits = ground arith
find_counted id (x ∷ ts) t found waits = ground (arith, find_counted id ts t)

module _ (F : Floats) (e : Env) (g : Engine F) (h : IsHealthy F e g) (id : Text) where
  stays :
      (signals : List Signal) (w : World)
      → IsConsistent w.db
      → At id Status.confirmed w.db
      → At id Status.confirmed (start F e g signals w).1.db
  stays signals w c (t, found, same) =
      (t, start_untouched F e g id signals w t c found (λ p. ground arith), same)

  -- Listed, it is confirmed; otherwise it waits in a shorter queue.
  tick_either :
      (w : World)
      → AllPayable F e g w.db
      → Idle F e g w.db
      → At id Status.pending w.db
      → At id Status.confirmed (tick F e g w).1.db ⊎ At id Status.pending (tick F e g w).1.db
  tick_either w pay idle (t, found, pending) =
      elim (Bool-cases (any (has_id id) (pending_rows e 10 w.db))) [
        | inl turn ↦ inl (tick-confirms F e g h id w pay idle turn (t, found, pending))
        | inr later ↦ inr (
          t,
          subst (λ db. find_where (has_id id) db.transactions ≡ some t)
              (sym (tick_up F e g id w (h.up w.calls)))
              (process_all_others F e g id (pending_rows e 10 w.db) (listed F e g id w) t
                (absent (pending_rows e 10 w.db) later) found),
          pending,
        )
      ]
    where
      absent : (ts : List Transaction) → any (has_id id) ts ≡ false → count (has_id id) ts ≡ 0
      absent [] no_match = refl
      absent (x ∷ ts) no_match = ground (arith, absent ts)

  -- Where nothing outside fails and Horizon reports what it accepts as successful within the polls:
  -- if the tables are consistent, no account is locked, one is active, the keys of the accounts can
  -- be used, the payments of the pending rows can be built and are accepted, and at most 10 n rows
  -- are pending, then after n ticks each row that was pending is confirmed.
  pub start_confirms :
      (n : ℕ) (w : World) (t : Transaction)
      → AllPayable F e g w.db
      → Idle F e g w.db
      → count is_pending w.db.transactions ≤ 10 * n
      → find_where (has_id id) w.db.transactions ≡ some t
      → t.status ≡ Status.pending
      → At id Status.confirmed (start F e g (ticks n) w).1.db
  start_confirms zero w t pay idle few found pending =
      absurd (find_counted id w.db.transactions t found (ground arith) (omega (arith, few)))
  start_confirms (suc n) w t pay idle few found pending =
      let idle' = Keeps-run (Idle F e g) _ (tick-Idle F e g h) w idle in
      let pay' = Keeps-run (AllPayable F e g) _ (tick-AllPayable F e g h) w pay in
      subst (At id Status.confirmed) (sym (start-ticked F e g h (ticks n) w))
        (elim (tick_either w pay idle (t, found, pending)) [
          | inl now ↦ stays (ticks n) (tick F e g w).1 idle'.0 now
          | inr (t', found', waits) ↦
              start_confirms n (tick F e g w).1 t' pay' idle' (tick-count F e g h n w pay idle few)
                found' waits
        ])
