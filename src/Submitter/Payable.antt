-- ===== src/Submitter/Payable.antt =====
-- Which payments the SDK takes, and which keys: the engine's writes leave both as they are.
use tx_submitter.Base.{
  ℕ, ◌≡◌, sym, subst, true, Option, List, [], ◌∷◌, arith, inl, inr, Option-cases, find_where, All,
  All-update_where, All-take, All-order_by, map,
}
use tx_submitter.Base.Int.{pos, add64}
use tx_submitter.Base.Text.{Text}
use tx_submitter.State.{Status, Transaction}
use tx_submitter.External.{Env}
use tx_submitter.World.{Db}
use tx_submitter.World.Keeps.{Keeps, Keeps-intro, Keeps-statement}
use tx_submitter.Store.{has_id, is_pending, pending_row, pending_rows, mark_channel_used}
use tx_submitter.Store.Accounts.{
  least_used, acquire_channel_account, release_channel_account, has_key, lock,
  update_channel_account_seq,
}
use tx_submitter.Store.Updates.{update_status_missing, update_status_found}
use tx_submitter.Store.Leases.{acquire_none, acquire_found}
use tx_submitter.Retry.{Floats}
use tx_submitter.Submitter.Signing.{Engine, build_signed_payment, sign_as_source}
use tx_submitter.Submitter.Keeping.{StoreKeeps}
use tx_submitter.Submitter.Invariants.{set_seq-Keeps}
use tx_submitter.Submitter.Locks.{update_status-accounts}
use tx_submitter.Submitter.Listing.{waiting_rows}
use tx_submitter.Submitter.Delivery.{IsPayable, IsUsable}

module _ (F : Floats) (e : Env) (g : Engine F) where
  -- Each payment that waits is one that the SDK takes.
  abbrev pub AllPayable : Db → Type 0
  AllPayable db = All (λ t. t.status ≡ Status.pending → IsPayable F e g t) db.transactions

  -- The fields that the engine writes do not matter.
  altered-IsPayable :
      (t : Transaction) (k : Text) (s : Status) (hid detail : Option Text) (now : ℕ)
      → IsPayable F e g t
      → IsPayable F e g (record t {
        channel_account = k;
        status = s;
        horizon_tx_id = hid;
        error_message = detail;
        updated_at = now;
      })
  unfolding build_signed_payment sign_as_source
  altered-IsPayable t k s hid detail now p = record {
    destination = p.destination;
    source = p.source;
    builds = p.builds;
    accepted = p.accepted;
  }

  pub payable_kept : (tx_id : Text) → StoreKeeps AllPayable e tx_id
  unfolding mark_channel_used
  payable_kept tx_id = record {
    update = λ new moved detail hid. Keeps-intro AllPayable _ λ w h.
        elim (Option-cases (find_where (has_id tx_id) w.db.transactions)) [
          | inl gone ↦
              subst AllPayable (sym (update_status_missing e tx_id new detail hid w gone)) h
          | inr (t, found) ↦ elim (update_status_found e tx_id new detail hid w t found) [
            | inl same ↦ subst AllPayable (sym same) h
            | inr (legal, written) ↦ subst AllPayable (sym written) (
                All-update_where (λ x. x.status ≡ Status.pending → IsPayable F e g x) _
                  (has_id tx_id) _ w.db.transactions (λ x r hit back. absurd (moved back))
                  (λ x r miss. r) h)
          ]
        ];
    mark = λ k. Keeps-statement AllPayable e _ λ n db h.
        All-update_where (λ x. x.status ≡ Status.pending → IsPayable F e g x) _ _ _ db.transactions
          (λ x r hit waits. altered-IsPayable x _ _ _ _ _ (r waits)) (λ x r miss. r) h;
    set_seq = set_seq-Keeps AllPayable e (λ cas db h. h);
  }

  read-IsPayable :
      (ts : List Transaction)
      → All (λ t. (t.status ≡ Status.pending → IsPayable F e g t) × (is_pending t ≡ true)) ts
      → All (IsPayable F e g) (map pending_row ts)
  read-IsPayable [] all = tt
  read-IsPayable (t ∷ ts) all =
      (altered-IsPayable t _ _ _ _ _ (all.0.0 (ground arith)), read-IsPayable ts all.1)

  -- So is each that a tick lists.
  pub pending_rows-IsPayable :
      (n : ℕ) (db : Db) → AllPayable db → All (IsPayable F e g) (pending_rows e n db)
  pending_rows-IsPayable n db h = read-IsPayable _ (
      All-take _ n _ (
        All-order_by _ (λ t. t.created_at) _
          (waiting_rows (λ t. t.status ≡ Status.pending → IsPayable F e g t) db.transactions h)))

  -- The keys of each channel account can be used.
  abbrev pub AllUsable : Db → Type 0
  AllUsable db = All (IsUsable e) db.accounts

  pub usable_kept : (tx_id : Text) → StoreKeeps AllUsable e tx_id
  unfolding mark_channel_used update_channel_account_seq
  usable_kept tx_id = record {
    update = λ new _ detail hid. Keeps-intro AllUsable _ λ w h.
        subst (All (IsUsable e)) (sym (update_status-accounts F e g tx_id tx_id new detail hid w))
          h;
    mark = λ k. Keeps-statement AllUsable e _ λ n db h. h;
    set_seq = λ j z. Keeps-statement AllUsable e _ λ n db h.
        All-update_where (IsUsable e) (IsUsable e) (has_key j) _ db.accounts (λ ca r hit. r)
          (λ ca r miss. r) h;
  }

  pub acquire-AllUsable : Keeps AllUsable (acquire_channel_account e)
  acquire-AllUsable = Keeps-intro AllUsable _ λ w h.
      elim (Option-cases (least_used w.db.accounts)) [
        | inl empty ↦ subst AllUsable (sym (acquire_none e w empty).1) h
        | inr (ca, found) ↦ elim (acquire_found e w ca found) [
          | inl failed ↦ subst AllUsable (sym failed.1) h
          | inr taken ↦ subst AllUsable (sym taken.1) (
              All-update_where (IsUsable e) (IsUsable e) (has_key ca.public_key)
                (lock (add64 ca.current_seq (pos 1)) (e.now w.calls)) w.db.accounts (λ x r hit. r)
                (λ x r miss. r) h)
        ]
      ]

  pub release-AllUsable : (k : Text) → Keeps AllUsable (release_channel_account e k)
  unfolding release_channel_account
  release-AllUsable k = Keeps-statement AllUsable e _ λ n db h.
      All-update_where (IsUsable e) (IsUsable e) (has_key k) _ db.accounts (λ ca r hit. r)
        (λ ca r miss. r) h
