-- ===== src/Submitter/Accounting.antt =====
-- Everything that the engine sends is the payment of a row that is in the table.
use tx_submitter.Base.{
  suc, ◌≡◌, refl, sym, subst, List, [], ◌∷◌, some, none, inl, inr, arith, Option-cases, All,
  All-map, All-take, All-order_by, map, find_where,
}
use tx_submitter.Base.Text.{Text, text_eq}
use tx_submitter.State.{Transaction}
use tx_submitter.External.{Env}
use tx_submitter.World.{Db, World, Event, sent, sent_fee_bump, slept}
use tx_submitter.World.Keeps.{Keeps-run}
use tx_submitter.World.Adds.{Extended, Extended-trans}
use tx_submitter.World.Preserves.{Preserves, Preserves-intro}
use tx_submitter.Store.{has_id, pending_row, pending_rows, list_pending}
use tx_submitter.Store.Consistency.{IsConsistent}
use tx_submitter.Store.Ledger.{ledger, ◌⟹*◌, stay}
use tx_submitter.Store.Ledger.Refinement.{
  CameFrom, update_status-CameFrom, mark_channel_used-CameFrom,
}
use tx_submitter.Store.Ledger.Permanence.{
  SamePayment, SamePayment-refl, SamePayment-trans, run-Stays,
}
use tx_submitter.Retry.{Floats}
use tx_submitter.Submitter.{submit_process, process_all, tick}
use tx_submitter.Submitter.Builder.{Builder}
use tx_submitter.Submitter.Signing.{Engine}
use tx_submitter.Submitter.Keeping.{submit_process-Keeps}
use tx_submitter.Submitter.Invariants.{acquire-Keeps, release-Keeps, set_seq-Keeps}
use tx_submitter.Submitter.Queue.{listed, tick-IsConsistent}
use tx_submitter.Submitter.Listing.{found_rows, waiting_rows}
use tx_submitter.Submitter.Contents.{KeepsContents, PaysFor, IsFor}
use tx_submitter.Submitter.Fidelity.{submit_process_faithful}

-- The table has the row of a transaction, with the same payment.
abbrev Known : Transaction → Db → Type 0
Known tx db =
    (t : Transaction) × (find_where (has_id tx.id) db.transactions ≡ some t) × SamePayment tx t

Known-later :
    (tx : Transaction) (db db' : Db) → ledger db ⟹* ledger db' → Known tx db → Known tx db'
Known-later tx db db' run (t, found, same) =
    let (t', found', same') = run-Stays tx.id t run found in
    (t', found', SamePayment-trans same same')

module _ (e : Env) (b : Builder) where
  PaysFor-same :
      (tx t : Transaction) (p : _) → SamePayment tx t → PaysFor e b tx p → PaysFor e b t p
  PaysFor-same tx t p same h = record {
    operations =
        rw (same.destination, same.amount, same.asset_code, same.asset_issuer) h.operations;
    base_fee = h.base_fee;
    timeout = h.timeout;
  }

  IsFor-same : (tx t : Transaction) (v : Event) → SamePayment tx t → IsFor e b tx v → IsFor e b t v
  IsFor-same tx t (sent x) same h = PaysFor-same tx t x.params same h
  IsFor-same tx t (sent_fee_bump x) same h = PaysFor-same tx t x.params.inner.params same h
  IsFor-same tx t (slept d) same h = tt

  -- An event is the payment of a row that is in the table.
  abbrev pub Accounted : Db → Event → Type 0
  Accounted db v =
      (t : Transaction) × (find_where (has_id t.id) db.transactions ≡ some t) × IsFor e b t v

  Known-Accounted :
      (tx : Transaction) (db : Db) (v : Event) → Known tx db → IsFor e b tx v → Accounted db v
  Known-Accounted tx db v (t, found, same) h = (
    t,
    subst (λ i. find_where (has_id i) db.transactions ≡ some t) (sym same.id) found,
    IsFor-same tx t v same h,
  )

  Accounted-later :
      (db db' : Db) (v : Event) → ledger db ⟹* ledger db' → Accounted db v → Accounted db' v
  Accounted-later db db' v run (t, found, h) =
      Known-Accounted t db' v (Known-later t db db' run (t, found, SamePayment-refl t)) h

  -- Everything that was sent since is accounted for.
  abbrev pub Accounts : List Event → World → Type 0
  Accounts old w = Extended (Accounted w.db) old w.trace

  pub Accounts-later :
      (old : List Event) (w w' : World)
      → ledger w.db ⟹* ledger w'.db
      → Extended (Accounted w'.db) w.trace w'.trace
      → Accounts old w
      → Accounts old w'
  Accounts-later old w w' run more (new, same, all) =
      Extended-trans (Accounted w'.db) old w.trace w'.trace
        (
          new,
          same,
          All-map (Accounted w.db) (Accounted w'.db) new (λ v h. Accounted-later w.db w'.db v run h)
              all,
        )
        more

pending_row-SamePayment : (t : Transaction) → SamePayment (pending_row t) t
pending_row-SamePayment t = record {
  id = refl;
  external_id = refl;
  source_account = refl;
  destination = refl;
  amount = refl;
  asset_code = refl;
  asset_issuer = refl;
  created_at = refl;
}

-- The rows that a tick lists are known.
Known-rows :
    (db : Db) (ts : List Transaction)
    → All (λ t. find_where (has_id t.id) db.transactions ≡ some t) ts
    → All (λ t. Known t db) (map pending_row ts)
Known-rows db [] all = tt
Known-rows db (t ∷ ts) all = ((t, all.0, pending_row-SamePayment t), Known-rows db ts all.1)

Known-pending_rows :
    (e : Env) (db : Db) → IsConsistent db → All (λ t. Known t db) (pending_rows e 10 db)
Known-pending_rows e db c = Known-rows db _ (
    All-take _ 10 _ (
      All-order_by _ (λ t. t.created_at) _
        (All-map _ _ _ (λ t h. h.0)
          (waiting_rows _ db.transactions (found_rows db.transactions c.distinct)))))

module _ (F : Floats) (e : Env) (g : Engine F) (k : KeepsContents e) (old : List Event) where
  abbrev pub Booked : World → Type 0
  Booked = Accounts e g.builder old

  submit_process-run :
      (tx : Transaction) (w : World) → ledger w.db ⟹* ledger (submit_process F e g tx w).1.db
  submit_process-run tx w =
      let came = CameFrom (ledger w.db) in
      Keeps-run came (submit_process F e g tx)
        (submit_process-Keeps came e tx
          (record {
            update =
                λ new _ detail hid. update_status-CameFrom e (ledger w.db) tx.id new detail hid;
            mark = λ channel. mark_channel_used-CameFrom e (ledger w.db) tx.id channel;
            set_seq = set_seq-Keeps came e (λ cas db h. h);
          })
          F g (acquire-Keeps came e (λ cas db h. h)) (release-Keeps came e (λ cas db h. h)))
        w (stay (ledger w.db))

  submit_process-Booked :
      (tx : Transaction) (w : World)
      → Known tx w.db
      → Booked w
      → Booked (submit_process F e g tx w).1
  submit_process-Booked tx w known booked =
      let w' = (submit_process F e g tx w).1 in
      let (new, same, all) = submit_process_faithful F e g tx k w in
      let known' = Known-later tx w.db w'.db (submit_process-run tx w) known in
      Accounts-later e g.builder old w w' (submit_process-run tx w)
        (
          new,
          same,
          All-map (IsFor e g.builder tx) (Accounted e g.builder w'.db) new
              (λ v h. Known-Accounted e g.builder tx w'.db v known' h) all,
        )
        booked

  process_all-Booked :
      (txs : List Transaction) (w : World)
      → All (λ tx. Known tx w.db) txs
      → Booked w
      → Booked (process_all F e g txs w).1
  unfolding process_all
  process_all-Booked [] w known booked = booked
  process_all-Booked (tx ∷ txs) w (here, known) booked =
      let w' = (submit_process F e g tx w).1 in
      process_all-Booked txs w'
        (All-map (λ x. Known x w.db) (λ x. Known x w'.db) txs
          (λ x h. Known-later x w.db w'.db (submit_process-run tx w) h) known)
        (submit_process-Booked tx w here booked)

  tick-up :
      (w : World)
      → e.db_fault w.calls ≡ none
      → (tick F e g w).1 ≡ (process_all F e g (pending_rows e 10 w.db) (listed F e g [] w)).1
  unfolding tick list_pending
  tick-up w up = ground arith

  tick-down :
      (w : World) (text : Text)
      → e.db_fault w.calls ≡ some text
      → (tick F e g w).1 ≡ record w { calls = suc w.calls }
  unfolding tick list_pending
  tick-down w text down = ground arith

  abbrev pub Sound : World → Type 0
  Sound w = IsConsistent w.db × Booked w

  -- A tick adds only payments of rows that are in the table.
  pub tick-Sound : Preserves Sound (tick F e g)
  tick-Sound = Preserves-intro Sound (tick F e g) λ w (c, booked). (
    Keeps-run IsConsistent _ (tick-IsConsistent F e g []) w c,
    elim (Option-cases (e.db_fault w.calls)) [
      | inr (text, down) ↦ subst Booked (sym (tick-down w text down)) booked
      | inl up ↦ subst Booked (sym (tick-up w up)) (
          process_all-Booked (pending_rows e 10 w.db) (listed F e g [] w)
            (Known-pending_rows e w.db c) booked)
    ],
  )
