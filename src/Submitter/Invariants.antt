-- ===== src/Submitter/Invariants.antt =====
-- What a run of the engine keeps: consistent histories, other transactions, and unlocked accounts.
use tx_submitter.Base.{
  ◌≡◌, ◌≢◌, refl, sym, ◌∙◌, subst, Bool, true, Option, some, List, [], ◌∷◌, arith, inl, inr,
  Option-cases, update_where, find_where,
}
use tx_submitter.Base.Int.{ℤ}
use tx_submitter.Base.Text.{Text, text_eq}
use tx_submitter.State.{Status, Transaction, ChannelAccount}
use tx_submitter.External.{Env}
use tx_submitter.World.{Db, World}
use tx_submitter.World.Keeps.{Keeps, Keeps-intro, Keeps-run, Keeps-statement}
use tx_submitter.Store.{has_id, update_status, mark_channel_used}
use tx_submitter.Store.Accounts.{
  least_used, acquire_channel_account, release_channel_account, update_channel_account_seq,
}
use tx_submitter.Store.Updates.{update_status_missing, update_status_found}
use tx_submitter.Store.Leases.{acquire_found, acquire_none}
use tx_submitter.Store.Consistency.{IsConsistent}
use tx_submitter.Store.Histories.{update_status-IsConsistent, mark_channel_used-IsConsistent}
use tx_submitter.Retry.{Floats}
use tx_submitter.Submitter.{submit_process, start, Signal}
use tx_submitter.Submitter.Signing.{Engine}
use tx_submitter.Submitter.Keeping.{StoreKeeps, submit_process-Keeps, start-Keeps}

-- The predicate says nothing of the accounts.
abbrev pub IgnoresAccounts : (Db → Type 0) → Type 0
IgnoresAccounts P = (cas : List ChannelAccount) (db : Db) → P db → P (record db { accounts = cas })

-- An operation on the accounts keeps what is said of the two other tables.
pub accounts-IsConsistent :
    (cas : List ChannelAccount) (db : Db)
    → IsConsistent db
    → IsConsistent (record db { accounts = cas })
accounts-IsConsistent cas db h = record {
  replayed = h.replayed;
  referred = h.referred;
  distinct = h.distinct;
}

-- What an acquire does: nothing, or an operation on the accounts.
pub acquire-Keeps :
    (P : Db → Type 0) (e : Env) → IgnoresAccounts P → Keeps P (acquire_channel_account e)
acquire-Keeps P e on = Keeps-intro P _ λ w h. elim (Option-cases (least_used w.db.accounts)) [
  | inl empty ↦ subst P (sym (acquire_none e w empty).1) h
  | inr (ca, found) ↦ elim (acquire_found e w ca found) [
    | inl failed ↦ subst P (sym failed.1) h
    | inr taken ↦ subst P (sym taken.1) (on _ w.db h)
  ]
]

pub release-Keeps :
    (P : Db → Type 0) (e : Env)
    → IgnoresAccounts P
    → (k : Text) → Keeps P (release_channel_account e k)
unfolding release_channel_account
release-Keeps P e on k = Keeps-statement P e _ λ n db h. on _ db h

pub set_seq-Keeps :
    (P : Db → Type 0) (e : Env)
    → IgnoresAccounts P
    → (k : Text) (z : ℤ) → Keeps P (update_channel_account_seq e k z)
unfolding update_channel_account_seq
set_seq-Keeps P e on k z = Keeps-statement P e _ λ n db h. on _ db h

module _ (F : Floats) (e : Env) (g : Engine F) where
  pub consistency_kept : (tx_id : Text) → StoreKeeps IsConsistent e tx_id
  consistency_kept tx_id = record {
    update = λ new _ detail hid. update_status-IsConsistent e tx_id new detail hid;
    mark = λ channel. mark_channel_used-IsConsistent e tx_id channel;
    set_seq = set_seq-Keeps IsConsistent e accounts-IsConsistent;
  }

  -- If the tables are consistent when `Start` is called, they are consistent after any sequence of
  -- ticks, whatever the database, Horizon and the keys answer: each transaction's history, replayed
  -- from pending, steps only from the status reached, never from one terminal status to another,
  -- and ends at the transaction's status; each history row belongs to a transaction; ids and
  -- external ids are distinct.
  pub start-IsConsistent :
      (signals : List Signal) (w : World)
      → IsConsistent w.db
      → IsConsistent (start F e g signals w).1.db
  start-IsConsistent signals = Keeps-run IsConsistent _ (
      start-Keeps IsConsistent e consistency_kept
        (acquire-Keeps IsConsistent e accounts-IsConsistent)
        (release-Keeps IsConsistent e accounts-IsConsistent) F g signals)

-- The row of another transaction, as queries by id find it.
abbrev Finds : Text → Transaction → Db → Type 0
Finds id t db = find_where (has_id id) db.transactions ≡ some t

find_where-update_where_ne :
    (id tx_id : Text) (p : Transaction → Bool) (f : Transaction → Transaction)
    → tx_id ≢ id
    → ((t : Transaction) → p t ≡ true → t.id ≡ tx_id)
    → ((t : Transaction) → (f t).id ≡ t.id)
    → (ts : List Transaction)
    → find_where (has_id id) (update_where p f ts) ≡ find_where (has_id id) ts
find_where-update_where_ne id tx_id p f ne only same [] = refl
find_where-update_where_ne id tx_id p f ne only same (t ∷ ts) =
    ground (arith, only t, same t, find_where-update_where_ne id tx_id p f ne only same ts)

module _ (F : Floats) (e : Env) (g : Engine F) (id : Text) (t : Transaction) where
  update_status-Finds :
      (tx_id : Text) (new : Status) (detail : Text) (hid : Option Text)
      → tx_id ≢ id
      → Keeps (Finds id t) (update_status e tx_id new detail hid)
  update_status-Finds tx_id new detail hid ne = Keeps-intro (Finds id t) _ λ w h.
      elim (Option-cases (find_where (has_id tx_id) w.db.transactions)) [
        | inl missing ↦
            subst (Finds id t) (sym (update_status_missing e tx_id new detail hid w missing)) h
        | inr (row, found) ↦ elim (update_status_found e tx_id new detail hid w row found) [
          | inl same ↦ subst (Finds id t) (sym same) h
          | inr (legal, written) ↦ subst (Finds id t) (sym written) (
              find_where-update_where_ne id tx_id (has_id tx_id) _ ne (λ x hit. ground arith)
                (λ x. refl) w.db.transactions
              ∙ h)
        ]
      ]

  mark_channel_used-Finds :
      (tx_id channel : Text) → tx_id ≢ id → Keeps (Finds id t) (mark_channel_used e tx_id channel)
  unfolding mark_channel_used
  mark_channel_used-Finds tx_id channel ne = Keeps-statement (Finds id t) e _ λ n db h.
      find_where-update_where_ne id tx_id _ _ ne (λ x hit. ground arith) (λ x. refl) db.transactions
      ∙ h

  -- If the row with some id is there, `SubmitProcess` for a transaction with another id leaves that
  -- row as it was, whatever the environment answers.
  pub submit_process_others :
      (tx : Transaction) (w : World)
      → tx.id ≢ id
      → find_where (has_id id) w.db.transactions ≡ some t
      → find_where (has_id id) (submit_process F e g tx w).1.db.transactions ≡ some t
  submit_process_others tx w ne =
      Keeps-run (Finds id t) _
        (submit_process-Keeps (Finds id t) e tx
          (record {
            update = λ new _ detail hid. update_status-Finds tx.id new detail hid ne;
            mark = λ channel. mark_channel_used-Finds tx.id channel ne;
            set_seq = set_seq-Keeps (Finds id t) e (λ cas db h. h);
          })
          F g (acquire-Keeps (Finds id t) e (λ cas db h. h))
          (release-Keeps (Finds id t) e (λ cas db h. h)))
        w
