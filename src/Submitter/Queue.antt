-- ===== src/Submitter/Queue.antt =====
-- The loop over the queue: each row of the table is listed at most once in a tick, and only while it
-- is pending.
use tx_submitter.Base.{
  ℕ, suc, ◌≤◌, ◌≡◌, ◌≢◌, refl, sym, subst, false, none, some, List, [], ◌∷◌, arith, inl, inr,
  Bool-cases, Option-cases, find_where, where_, take, order_by, map, count, count-take-le,
  count-where_-le, count-order_by, length,
}
use tx_submitter.Base.Text.{Text, text_eq}
use tx_submitter.State.{Status, status_eq, Transaction}
use tx_submitter.External.{Env}
use tx_submitter.Metrics.{set_pending}
use tx_submitter.World.{Db, World}
use tx_submitter.World.Keeps.{Keeps, Keeps-intro, Keeps-run, Keeps-pure, keeps_rules}
use tx_submitter.World.Ensures.{Ensures-run}
use tx_submitter.Store.{has_id, is_pending, pending_row, pending_rows, list_pending}
use tx_submitter.Store.Ids.{none_clash}
use tx_submitter.Store.Consistency.{IsConsistent, Distinct}
use tx_submitter.Retry.{Floats}
use tx_submitter.Submitter.{submit_process, process_all, tick, start, Signal, ticked, done}
use tx_submitter.Submitter.Signing.{Engine}
use tx_submitter.Submitter.Keeping.{tick-Keeps}
use tx_submitter.Submitter.Invariants.{
  submit_process_others, consistency_kept, accounts-IsConsistent, acquire-Keeps, release-Keeps,
}
use tx_submitter.Submitter.Lifecycle.{◌⟶*◌, here, ⟶*-trans, At, Reached}
use tx_submitter.Submitter.Progress.{submit_process-Left}

count-map-pending_row :
    (id : Text) (ts : List Transaction)
    → count (has_id id) (map pending_row ts) ≡ count (has_id id) ts
count-map-pending_row id [] = refl
count-map-pending_row id (t ∷ ts) = ground (arith, count-map-pending_row id ts)

pub count-Distinct : (id : Text) (ts : List Transaction) → Distinct ts → count (has_id id) ts ≤ 1
count-Distinct id [] h = omega arith
count-Distinct id (t ∷ ts) h = ground (arith, none_clash t ts h.0, count-Distinct id ts h.1)

-- A row that is not pending is not in the queue.
count-pending :
    (id : Text) (t : Transaction) (ts : List Transaction)
    → Distinct ts
    → find_where (has_id id) ts ≡ some t
    → is_pending t ≡ false
    → count (has_id id) (where_ is_pending ts) ≡ 0
count-pending id t [] d found h = refl
count-pending id t (x ∷ ts) d found h = ground (
  arith,
  none_clash x ts d.0,
  count-where_-le (has_id id) is_pending ts,
  count-pending id t ts d.1,
)

module _ (e : Env) (db : Db) (id : Text) where
  listed_le :
      (limit : ℕ)
      → count (has_id id) (pending_rows e limit db)
        ≤ count (has_id id) (where_ is_pending db.transactions)
  listed_le limit = ground (
    arith,
    count-map-pending_row id
        (take limit (order_by (λ t. t.created_at) (where_ is_pending db.transactions))),
    count-take-le (has_id id) limit
        (order_by (λ t. t.created_at) (where_ is_pending db.transactions)),
    count-order_by (has_id id) (λ t. t.created_at) (where_ is_pending db.transactions),
  )

  pub listed_once : (limit : ℕ) → IsConsistent db → count (has_id id) (pending_rows e limit db) ≤ 1
  listed_once limit c = ground (
    arith,
    listed_le limit,
    count-where_-le (has_id id) is_pending db.transactions,
    count-Distinct id db.transactions c.distinct,
  )

  listed_pending :
      (limit : ℕ) (t : Transaction)
      → IsConsistent db
      → find_where (has_id id) db.transactions ≡ some t
      → is_pending t ≡ false
      → count (has_id id) (pending_rows e limit db) ≡ 0
  listed_pending limit t c found h =
      ground (arith, listed_le limit, count-pending id t db.transactions c.distinct found h)

module _ (F : Floats) (e : Env) (g : Engine F) (id : Text) where
  -- A payment that is not in the list is left alone.
  pub process_all_others :
      (txs : List Transaction) (w : World) (t : Transaction)
      → count (has_id id) txs ≡ 0
      → find_where (has_id id) w.db.transactions ≡ some t
      → find_where (has_id id) (process_all F e g txs w).1.db.transactions ≡ some t
  unfolding process_all
  process_all_others [] w t absent found = found
  process_all_others (tx ∷ txs) w t absent found =
      process_all_others txs (submit_process F e g tx w).1 t (ground arith)
        (submit_process_others F e g id t tx w (λ same. ground arith) found)

  submit_process_moves :
      (tx : Transaction) (w : World)
      → tx.id ≡ id
      → At id Status.pending w.db
      → Reached id Status.pending (submit_process F e g tx w).1.db
  submit_process_moves tx w same =
      subst
        (λ i. At i Status.pending w.db → Reached i Status.pending (submit_process F e g tx w).1.db)
        same
        (Ensures-run (At tx.id Status.pending) (submit_process F e g tx)
          (Reached tx.id Status.pending) (submit_process-Left F e g tx) w)

  -- One that is in it once, and pending, goes along the edges of the lifecycle.
  process_all_once :
      (txs : List Transaction) (w : World) (t : Transaction)
      → count (has_id id) txs ≤ 1
      → find_where (has_id id) w.db.transactions ≡ some t
      → t.status ≡ Status.pending
      → Reached id Status.pending (process_all F e g txs w).1.db
  unfolding process_all
  process_all_once [] w t once found pending = (t, found, rw pending here)
  process_all_once (tx ∷ txs) w t once found pending = elim (Bool-cases (has_id id tx)) [
    | inl mine ↦ rest (submit_process_moves tx w (ground arith) (t, found, pending)) (ground arith)
    | inr other ↦
        process_all_once txs (submit_process F e g tx w).1 t (ground arith)
          (submit_process_others F e g id t tx w (λ same. ground arith) found) pending
  ]
    where
      rest :
          Reached id Status.pending (submit_process F e g tx w).1.db
          → count (has_id id) txs ≡ 0
          → Reached id Status.pending (process_all F e g txs (submit_process F e g tx w).1).1.db
      rest (t', found', path) absent =
          (t', process_all_others txs (submit_process F e g tx w).1 t' absent found', path)

  -- The world in which the listed rows are processed.
  abbrev pub listed : World → World
  listed w = record w {
    calls = suc w.calls;
    metrics = set_pending (length (pending_rows e 10 w.db)) w.metrics;
  }

  pub tick_down :
      (w : World) (text : Text) → e.db_fault w.calls ≡ some text → (tick F e g w).1.db ≡ w.db
  unfolding tick list_pending
  tick_down w text down = ground arith

  pub tick_up :
      (w : World)
      → e.db_fault w.calls ≡ none
      → (tick F e g w).1.db ≡ (process_all F e g (pending_rows e 10 w.db) (listed w)).1.db
  unfolding tick list_pending
  tick_up w up = ground arith

  -- A tick takes each transaction along the edges of the lifecycle.
  tick_moves :
      (w : World) (t : Transaction)
      → IsConsistent w.db
      → find_where (has_id id) w.db.transactions ≡ some t
      → Reached id t.status (tick F e g w).1.db
  tick_moves w t c found = elim (Option-cases (e.db_fault w.calls)) [
    | inr (text, down) ↦ rw (tick_down w text down) (t, found, here)
    | inl up ↦ subst (Reached id t.status) (sym (tick_up w up)) (elim (Bool-cases (is_pending t)) [
      | inl waiting ↦
          subst (λ s. Reached id s (process_all F e g (pending_rows e 10 w.db) (listed w)).1.db)
            (ground arith)
            (process_all_once (pending_rows e 10 w.db) (listed w) t (listed_once e w.db id 10 c)
              found (ground arith))
      | inr over ↦ (
        t,
        process_all_others (pending_rows e 10 w.db) (listed w) t
            (listed_pending e w.db id 10 t c found over) found,
        here,
      )
    ])
  ]

  -- One that is not pending is left alone.
  tick_others :
      (w : World) (t : Transaction)
      → IsConsistent w.db
      → is_pending t ≡ false
      → find_where (has_id id) w.db.transactions ≡ some t
      → find_where (has_id id) (tick F e g w).1.db.transactions ≡ some t
  tick_others w t c over found = elim (Option-cases (e.db_fault w.calls)) [
    | inr (text, down) ↦ rw (tick_down w text down) found
    | inl up ↦ rw (tick_up w up) (
        process_all_others (pending_rows e 10 w.db) (listed w) t
          (listed_pending e w.db id 10 t c found over) found)
  ]

  pub tick-IsConsistent : Keeps IsConsistent (tick F e g)
  tick-IsConsistent =
      tick-Keeps IsConsistent e (consistency_kept F e g)
        (acquire-Keeps IsConsistent e accounts-IsConsistent)
        (release-Keeps IsConsistent e accounts-IsConsistent) F g

  abbrev Moved : Status → Db → Type 0
  Moved s db = IsConsistent db × Reached id s db

  tick-Moved : (s : Status) → Keeps (Moved s) (tick F e g)
  tick-Moved s = Keeps-intro (Moved s) _ λ w (c, (t, found, path)).
      let (t', found', path') = tick_moves w t c found in
      (Keeps-run IsConsistent _ tick-IsConsistent w c, (t', found', ⟶*-trans path path'))

  start-Moved : (s : Status) (signals : List Signal) → Keeps (Moved s) (start F e g signals)
  unfolding start
  start-Moved s [] = Keeps-pure (Moved s) tt
  start-Moved s (ticked ∷ signals) = search (keeps_rules, tick-Moved, start-Moved s signals) depth 8
  start-Moved s (done ∷ signals) = Keeps-pure (Moved s) tt

  abbrev Untouched : Transaction → Db → Type 0
  Untouched t db = IsConsistent db × (find_where (has_id id) db.transactions ≡ some t)

  tick-Untouched : (t : Transaction) → is_pending t ≡ false → Keeps (Untouched t) (tick F e g)
  tick-Untouched t over =
      Keeps-intro (Untouched t) _ λ w (c, found).
        (Keeps-run IsConsistent _ tick-IsConsistent w c, tick_others w t c over found)

  start-Untouched :
      (t : Transaction) (signals : List Signal)
      → is_pending t ≡ false
      → Keeps (Untouched t) (start F e g signals)
  unfolding start
  start-Untouched t [] over = Keeps-pure (Untouched t) tt
  start-Untouched t (ticked ∷ signals) over =
      search (keeps_rules, tick-Untouched t over, start-Untouched t signals over) depth 8
  start-Untouched t (done ∷ signals) over = Keeps-pure (Untouched t) tt

  -- Over any signals and answers of the environment, `Start` takes each row of consistent tables
  -- along the edges of the lifecycle, none or several: from pending to submitted, failed or
  -- dead_letter, and from submitted to confirmed or failed.
  pub start_moves :
      (signals : List Signal) (w : World) (t : Transaction)
      → IsConsistent w.db
      → find_where (has_id id) w.db.transactions ≡ some t
      → (t' : Transaction) × (find_where (has_id id) (start F e g signals w).1.db.transactions
          ≡ some t')
        × (t.status ⟶* t'.status)
  start_moves signals w t c found =
      (Keeps-run (Moved t.status) _ (start-Moved t.status signals) w (c, (t, found, here))).1

  -- A row of consistent tables that is not pending is left as it is by `Start`, in every field,
  -- over any signals and answers of the environment: in particular one that stayed submitted is not
  -- looked at again.
  pub start_untouched :
      (signals : List Signal) (w : World) (t : Transaction)
      → IsConsistent w.db
      → find_where (has_id id) w.db.transactions ≡ some t
      → t.status ≢ Status.pending
      → find_where (has_id id) (start F e g signals w).1.db.transactions ≡ some t
  start_untouched signals w t c found over =
      (Keeps-run (Untouched t) _ (start-Untouched t signals (ground arith)) w (c, found)).1
