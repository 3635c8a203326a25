-- ===== src/Store/Histories.antt =====
-- Every operation of the store keeps the tables consistent.
use tx_submitter.Base.{suc, refl, sym, subst, ◌&&◌, Option, inl, inr, Option-cases, find_where}
use tx_submitter.Base.Text.{Text}
use tx_submitter.State.{Status, NewTransactionParams}
use tx_submitter.External.{Env}
use tx_submitter.World.Keeps.{Keeps, Keeps-intro, Keeps-statement}
use tx_submitter.Store.{
  has_id, is_pending, new_row, update_status, create_transaction, mark_channel_used,
}
use tx_submitter.Store.Updates.{
  update_status_missing, update_status_found, create_transaction_cases,
  create_transaction_impossible,
}
use tx_submitter.Store.Consistency.{
  IsConsistent, insert-IsConsistent, update-IsConsistent, touch-IsConsistent,
}

module _ (e : Env) where
  pub update_status-IsConsistent :
      (tx_id : Text) (new : Status) (detail : Text) (hid : Option Text)
      → Keeps IsConsistent (update_status e tx_id new detail hid)
  update_status-IsConsistent tx_id new detail hid = Keeps-intro IsConsistent _ λ w h.
      elim (Option-cases (find_where (has_id tx_id) w.db.transactions)) [
        | inl missing ↦
            subst IsConsistent (sym (update_status_missing e tx_id new detail hid w missing)) h
        | inr (t, found) ↦ elim (update_status_found e tx_id new detail hid w t found) [
          | inl same ↦ subst IsConsistent (sym same) h
          | inr (legal, written) ↦ subst IsConsistent (sym written) (
              update-IsConsistent tx_id new hid detail w.db.next_transition (e.now (suc w.calls))
                (e.now (suc w.calls)) t w.db found legal h)
        ]
      ]

  pub create_transaction-IsConsistent :
      (p : NewTransactionParams) → Keeps IsConsistent (create_transaction e p)
  create_transaction-IsConsistent p = Keeps-intro IsConsistent _ λ w h.
      elim (Option-cases e.schema.channel_account_default) [
        | inl no_default ↦
            subst IsConsistent (sym (create_transaction_impossible e p w no_default).0) h
        | inr (channel, default) ↦ elim (create_transaction_cases e p w channel default) [
          | inl same ↦ subst IsConsistent (sym same) h
          | inr (fresh, inserted) ↦
              subst IsConsistent (sym inserted)
                (insert-IsConsistent (new_row e p channel w.calls) w.db fresh refl h)
        ]
      ]

  pub mark_channel_used-IsConsistent :
      (tx_id channel : Text) → Keeps IsConsistent (mark_channel_used e tx_id channel)
  unfolding mark_channel_used
  mark_channel_used-IsConsistent tx_id channel = Keeps-statement IsConsistent e _ λ n db h.
      touch-IsConsistent (λ t. has_id tx_id t && is_pending t)
        (λ t. record t { channel_account = channel; updated_at = e.now n }) db (λ t. refl)
        (λ t. refl) (λ t. refl) h
