-- ===== src/Submitter/Draining.antt =====
-- A tick in which nothing outside fails confirms each payment that it lists, if the SDK takes them.
use tx_submitter.Base.{
  ℕ, ◌≤◌, ◌≡◌, refl, sym, subst, Bool, true, false, none, some, List, [], ◌∷◌, arith, inl, inr,
  Bool-cases, Option-cases, any, update_where, count, All,
}
use tx_submitter.Base.Int.{pos, add64}
use tx_submitter.Base.Text.{Text}
use tx_submitter.State.{Status, Transaction, ChannelAccount}
use tx_submitter.Errors.{is_ok}
use tx_submitter.External.{Env}
use tx_submitter.World.{Db, World}
use tx_submitter.World.Keeps.{Keeps, Keeps-intro, Keeps-run, Keeps-statement}
use tx_submitter.Store.{has_id, pending_rows, mark_channel_used}
use tx_submitter.Store.Consistency.{IsConsistent}
use tx_submitter.Store.Accounts.{
  is_available, least_used, acquire_channel_account, release_channel_account, has_key, lock,
  update_channel_account_seq,
}
use tx_submitter.Store.Leases.{least_used-All, least_used-none, acquire_none, acquire_found}
use tx_submitter.Retry.{Floats}
use tx_submitter.Submitter.{submit_process, process_all, tick}
use tx_submitter.Submitter.Signing.{Engine}
use tx_submitter.Submitter.Keeping.{StoreKeeps, submit_process-Keeps}
use tx_submitter.Submitter.Invariants.{
  consistency_kept, accounts-IsConsistent, acquire-Keeps, release-Keeps, submit_process_others,
}
use tx_submitter.Submitter.Locks.{NoneLocked, submit_process_releases, update_status-accounts}
use tx_submitter.Submitter.Lifecycle.{At}
use tx_submitter.Submitter.Queue.{listed, listed_once, tick_up, process_all_others}
use tx_submitter.Submitter.Payable.{
  AllPayable, AllUsable, usable_kept, acquire-AllUsable, release-AllUsable, pending_rows-IsPayable,
}
use tx_submitter.Submitter.Delivery.{IsHealthy, IsPayable, IsUsable, sure_run}
use tx_submitter.Submitter.Confirmation.{Ready, submit_process-confirms}

-- There is an account to work with.
abbrev pub HasActive : Db → Type 0
HasActive db = any (λ ca. ca.is_active) db.accounts ≡ true

-- What holds between two payments when the database does not fail.
abbrev pub Idle : (F : Floats) (e : Env) → Engine F → Db → Type 0
Idle F e g db = IsConsistent db × NoneLocked db × HasActive db × AllUsable F e g db

-- If none is locked, one that is active is available.
some_free :
    (cas : List ChannelAccount)
    → any (λ ca. ca.is_active) cas ≡ true
    → All (λ ca. ca.locked_at ≡ none) cas
    → ¬ All (λ ca. is_available ca ≡ false) cas
some_free [] h free taken = ground arith
some_free (ca ∷ cas) h free taken = ground (arith, free.0, taken.0, some_free cas _ free.1 taken.1)

least_used_free :
    (cas : List ChannelAccount)
    → any (λ ca. ca.is_active) cas ≡ true
    → All (λ ca. ca.locked_at ≡ none) cas
    → (ca : ChannelAccount) × (least_used cas ≡ some ca)
least_used_free cas h free = elim (Option-cases (least_used cas)) [
  | inl none_left ↦ absurd (some_free cas h free (least_used-none cas none_left))
  | inr found ↦ found
]

any-update_active :
    (p : ChannelAccount → Bool) (f : ChannelAccount → ChannelAccount)
    → ((ca : ChannelAccount) → (f ca).is_active ≡ ca.is_active)
    → (cas : List ChannelAccount) → any (λ ca. ca.is_active) cas ≡ true
    → any (λ ca. ca.is_active) (update_where p f cas) ≡ true
any-update_active p f same [] h = h
any-update_active p f same (ca ∷ cas) h = ground (arith, same ca, any-update_active p f same cas)

module _ (F : Floats) (e : Env) (g : Engine F) where
  active_kept : (tx_id : Text) → StoreKeeps HasActive e tx_id
  unfolding mark_channel_used update_channel_account_seq
  active_kept tx_id = record {
    update = λ new _ detail hid. Keeps-intro HasActive _ λ w h.
        subst (λ cas. any (λ ca. ca.is_active) cas ≡ true)
          (sym (update_status-accounts F e g tx_id tx_id new detail hid w)) h;
    mark = λ channel. Keeps-statement HasActive e _ λ n db h. h;
    set_seq = λ j z.
        Keeps-statement HasActive e _
          λ n db h. any-update_active (has_key j) _ (λ ca. refl) db.accounts h;
  }

  acquire-HasActive : Keeps HasActive (acquire_channel_account e)
  acquire-HasActive = Keeps-intro HasActive _ λ w h.
      elim (Option-cases (least_used w.db.accounts)) [
        | inl empty ↦ subst HasActive (sym (acquire_none e w empty).1) h
        | inr (ca, found) ↦ elim (acquire_found e w ca found) [
          | inl failed ↦ subst HasActive (sym failed.1) h
          | inr taken ↦ subst HasActive (sym taken.1) (
              any-update_active (has_key ca.public_key)
                (lock (add64 ca.current_seq (pos 1)) (e.now w.calls)) (λ x. refl) w.db.accounts h)
        ]
      ]

  release-HasActive : (k : Text) → Keeps HasActive (release_channel_account e k)
  unfolding release_channel_account
  release-HasActive k =
      Keeps-statement HasActive e _
        λ n db h. any-update_active (has_key k) _ (λ ca. refl) db.accounts h

  pub submit_process-Idle :
      ((n : ℕ) → e.db_fault n ≡ none)
      → (tx : Transaction) → Keeps (Idle F e g) (submit_process F e g tx)
  submit_process-Idle up tx = Keeps-intro (Idle F e g) _ λ w (consistent, free, active, usable). (
    Keeps-run IsConsistent _
        (submit_process-Keeps IsConsistent e tx (consistency_kept F e g tx.id) F g
          (acquire-Keeps IsConsistent e accounts-IsConsistent)
          (release-Keeps IsConsistent e accounts-IsConsistent))
        w consistent,
    submit_process_releases F e g tx w up free,
    Keeps-run HasActive _
        (submit_process-Keeps HasActive e tx (active_kept tx.id) F g acquire-HasActive
          release-HasActive)
        w active,
    Keeps-run (AllUsable F e g) _
        (submit_process-Keeps (AllUsable F e g) e tx (usable_kept F e g tx.id) F g
          (acquire-AllUsable F e g) (release-AllUsable F e g))
        w usable,
  )

module _ (F : Floats) (e : Env) (g : Engine F) (h : IsHealthy F e g) (id : Text) where
  -- A payment is confirmed when its turn comes, whatever its status is then.
  pub submit_process_turn :
      (s : Status) (tx : Transaction) (w : World)
      → tx.id ≡ id
      → IsPayable F e g tx
      → Idle F e g w.db
      → At id s w.db
      → (is_ok (submit_process F e g tx w).0 ≡ true)
        × At id Status.confirmed (submit_process F e g tx w).1.db
  submit_process_turn s tx w same pays (consistent, free, active, usable) there =
      let (ca, found) = least_used_free w.db.accounts active free in
      subst
        (λ i.
          At i s w.db
          → (is_ok (submit_process F e g tx w).0 ≡ true)
            × At i Status.confirmed (submit_process F e g tx w).1.db)
        same
        (λ waits.
          sure_run (Ready F e g tx h pays s ca) (submit_process F e g tx)
            (At tx.id Status.confirmed) (submit_process-confirms F e g tx h pays s ca) w
            (found, least_used-All (IsUsable e) w.db.accounts ca found usable, waits))
        there

  -- One that is in the list once is confirmed at the end of the list.
  process_all-confirms :
      (txs : List Transaction) (w : World)
      → count (has_id id) txs ≤ 1
      → any (has_id id) txs ≡ true
      → All (IsPayable F e g) txs
      → Idle F e g w.db
      → At id Status.pending w.db
      → At id Status.confirmed (process_all F e g txs w).1.db
  unfolding process_all
  process_all-confirms [] w once there pay idle waits = absurd (ground arith)
  process_all-confirms (tx ∷ txs) w once there pay idle (t, found, pending) =
      elim (Bool-cases (has_id id tx)) [
        | inl mine ↦
            let (t', found', done) =
              (submit_process_turn Status.pending tx w (ground arith) pay.0 idle
                (t, found, pending)).1 in
            (
              t',
              process_all_others F e g id txs (submit_process F e g tx w).1 t' (ground arith)
                  found',
              done,
            )
        | inr other ↦
            process_all-confirms txs (submit_process F e g tx w).1 (ground arith) (ground arith)
              pay.1 (Keeps-run (Idle F e g) _ (submit_process-Idle F e g h.up tx) w idle)
              (t, submit_process_others F e g id t tx w (λ same. ground arith) found, pending)
      ]

  pub tick-confirms :
      (w : World)
      → AllPayable F e g w.db
      → Idle F e g w.db
      → any (has_id id) (pending_rows e 10 w.db) ≡ true
      → At id Status.pending w.db
      → At id Status.confirmed (tick F e g w).1.db
  tick-confirms w pay idle there waits =
      subst (At id Status.confirmed) (sym (tick_up F e g id w (h.up w.calls))) (
        process_all-confirms (pending_rows e 10 w.db) (listed F e g id w)
          (listed_once e w.db id 10 idle.0) there (pending_rows-IsPayable F e g 10 w.db pay) idle
          waits)
