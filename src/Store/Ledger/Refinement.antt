-- ===== src/Store/Ledger/Refinement.antt =====
-- The operations of the store that write the tables of transactions take the ledger through steps
-- of the specification, or leave it; and its queries answer from the ledger.
use tx_submitter.Base.{
  ◌≡◌, refl, ◌∙◌, ap, sym, subst, ◌&&◌, false, none, List, [], ◌∷◌, suc, arith, inl, inr, Option,
  Option-cases, find_where, update_where, any,
}
use tx_submitter.Base.Text.{Text, text_eq}
use tx_submitter.State.{Status, Transaction, NewTransactionParams}
use tx_submitter.External.{Env}
use tx_submitter.World.{Db}
use tx_submitter.World.Keeps.{Keeps, Keeps-intro, Keeps-statement}
use tx_submitter.Store.{
  has_id, has_external_id, is_pending, new_row, set_status, new_transition, clashes, update_status,
  create_transaction, mark_channel_used,
}
use tx_submitter.Store.Updates.{
  update_status_missing, update_status_found, create_transaction_cases,
  create_transaction_impossible,
}
use tx_submitter.Store.Ledger.{
  Ledger, ledger, entered, amended, logged, assigned, ◌⟹◌, ◌⟹*◌, entry, move, assign, onward,
  ledger-insert, ledger-update, ledger-log,
}

absent_id :
    (t : Transaction) (ts : List Transaction)
    → any (clashes t) ts ≡ false
    → find_where (has_id t.id) ts ≡ none
absent_id t [] fresh = refl
absent_id t (x ∷ ts) fresh = ground (arith, absent_id t ts)

absent_external_id :
    (t : Transaction) (ts : List Transaction)
    → any (clashes t) ts ≡ false
    → find_where (has_external_id t.external_id) ts ≡ none
absent_external_id t [] fresh = refl
absent_external_id t (x ∷ ts) fresh = ground (arith, absent_external_id t ts)

-- The ledger of the tables has come from `l` by steps.
abbrev pub CameFrom : Ledger → Db → Type 0
CameFrom l db = l ⟹* ledger db

came :
    (l : Ledger) (db : Db) (to : Ledger) (db' : Db)
    → CameFrom l db
    → ledger db ⟹ to
    → ledger db' ≡ to
    → CameFrom l db'
came l db to db' h s e = subst (λ m. l ⟹* m) (sym e) (onward l (ledger db) to h s)

module _ (e : Env) (l : Ledger) where
  pub create_transaction-CameFrom :
      (p : NewTransactionParams) → Keeps (CameFrom l) (create_transaction e p)
  create_transaction-CameFrom p = Keeps-intro (CameFrom l) _ λ w h.
      elim (Option-cases e.schema.channel_account_default) [
        | inl no_default ↦
            subst (CameFrom l) (sym (create_transaction_impossible e p w no_default).0) h
        | inr (channel, default) ↦ elim (create_transaction_cases e p w channel default) [
          | inl same ↦ subst (CameFrom l) (sym same) h
          | inr (fresh, inserted) ↦
              let row = new_row e p channel w.calls in
              came l w.db (entered row (ledger w.db)) (create_transaction e p w).1.db h
                (entry (ledger w.db) row refl (absent_id row w.db.transactions fresh)
                  (absent_external_id row w.db.transactions fresh))
                (ap ledger inserted ∙ ledger-insert row w.db fresh)
        ]
      ]

  pub update_status-CameFrom :
      (tx_id : Text) (new : Status) (detail : Text) (hid : Option Text)
      → Keeps (CameFrom l) (update_status e tx_id new detail hid)
  update_status-CameFrom tx_id new detail hid = Keeps-intro (CameFrom l) _ λ w h.
      elim (Option-cases (find_where (has_id tx_id) w.db.transactions)) [
        | inl missing ↦
            subst (CameFrom l) (sym (update_status_missing e tx_id new detail hid w missing)) h
        | inr (t, found) ↦ elim (update_status_found e tx_id new detail hid w t found) [
          | inl same ↦ subst (CameFrom l) (sym same) h
          | inr (legal, written) ↦
              let now = e.now (suc w.calls) in
              let row = new_transition tx_id t.status new detail w.db.next_transition now in
              let rows =
                update_where (has_id tx_id) (set_status new hid detail now) w.db.transactions in
              came l w.db
                (logged row (amended (has_id tx_id) (set_status new hid detail now) (ledger w.db)))
                (update_status e tx_id new detail hid w).1.db h
                (move (ledger w.db) t tx_id new detail hid w.db.next_transition now found legal)
                (ap ledger written
                  ∙ ledger-log row (record w.db { transactions = rows }) (suc w.db.next_transition)
                  ∙ ap (logged row) (
                      ledger-update (has_id tx_id) (set_status new hid detail now) w.db (λ x. refl)
                        (λ x. refl)))
        ]
      ]

  pub mark_channel_used-CameFrom :
      (tx_id channel : Text) → Keeps (CameFrom l) (mark_channel_used e tx_id channel)
  unfolding mark_channel_used
  mark_channel_used-CameFrom tx_id channel = Keeps-statement (CameFrom l) e _ λ n db h.
      came l db
        (amended (λ t. has_id tx_id t && is_pending t) (assigned channel (e.now n)) (ledger db))
        (record db {
          transactions =
              update_where (λ t. has_id tx_id t && is_pending t) (assigned channel (e.now n))
                db.transactions;
        })
        h (assign (ledger db) tx_id channel (e.now n))
        (ledger-update (λ t. has_id tx_id t && is_pending t) (assigned channel (e.now n)) db
          (λ t. refl) (λ t. refl))
