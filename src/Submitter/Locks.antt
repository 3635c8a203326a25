-- ===== src/Submitter/Locks.antt =====
-- No channel account stays locked after a payment.
use tx_submitter.Base.{
  ℕ, ◌≡◌, refl, sym, subst, false, Option, none, arith, inl, inr, Option-cases, All,
  All-update_where,
}
use tx_submitter.Base.Text.{Text, text_eq, codes}
use tx_submitter.State.{Status, Transaction, ChannelAccount}
use tx_submitter.Errors.{wrap, Error, Result, ok, err}
use tx_submitter.External.{Env}
use tx_submitter.World.{Db, World, Action, statement, ◌>>=◌, ◌>>◌, annotate, attempt, ignore, lift}
use tx_submitter.World.Keeps.{Keeps-intro, Keeps-run, Keeps-statement}
use tx_submitter.Store.{update_status, mark_channel_used}
use tx_submitter.Store.Accounts.{
  least_used, has_key, unlock, release_channel_account, update_channel_account_seq,
}
use tx_submitter.Store.Leases.{acquire_found, acquire_none}
use tx_submitter.Retry.{Floats}
use tx_submitter.Pool
use tx_submitter.Submitter.{with_channel, submit_process}
use tx_submitter.Submitter.Signing.{Engine}
use tx_submitter.Submitter.Keeping.{StoreKeeps, with_channel-Keeps}

-- No account but the one with the key is locked.
abbrev OnlyLocks : Text → Db → Type 0
OnlyLocks k db = All (λ ca. has_key k ca ≡ false → ca.locked_at ≡ none) db.accounts

-- No account is locked.
abbrev pub NoneLocked : Db → Type 0
NoneLocked db = All (λ ca. ca.locked_at ≡ none) db.accounts

module _ (F : Floats) (e : Env) (g : Engine F) (k : Text) where
  pub update_status-accounts :
      (tx_id : Text) (new : Status) (detail : Text) (hid : Option Text) (w : World)
      → (update_status e tx_id new detail hid w).1.db.accounts ≡ w.db.accounts
  unfolding update_status
  update_status-accounts tx_id new detail hid w = ground arith

  locks_kept : (tx_id : Text) → StoreKeeps (OnlyLocks k) e tx_id
  unfolding mark_channel_used update_channel_account_seq
  locks_kept tx_id = record {
    update = λ new _ detail hid. Keeps-intro (OnlyLocks k) _ λ w h.
        subst (All (λ ca. has_key k ca ≡ false → ca.locked_at ≡ none))
          (sym (update_status-accounts tx_id new detail hid w)) h;
    mark = λ channel. Keeps-statement (OnlyLocks k) e _ λ n db h. h;
    set_seq = λ j z. Keeps-statement (OnlyLocks k) e _ λ n db h.
        All-update_where (λ ca. has_key k ca ≡ false → ca.locked_at ≡ none) _ (has_key j) _
          db.accounts (λ ca r hit. r) (λ ca r miss. r) h;
  }

module _ (F : Floats) (e : Env) (g : Engine F) where
  -- A release that reaches the database unlocks the account with the key.
  release_unlocks :
      (k : Text) (w : World)
      → e.db_fault w.calls ≡ none
      → OnlyLocks k w.db
      → NoneLocked (Pool.release e k w).1.db
  unfolding Pool.release release_channel_account
  release_unlocks k w up h =
      rw (up, statement)
        (All-update_where (λ ca. has_key k ca ≡ false → ca.locked_at ≡ none) _ (has_key k) unlock
          w.db.accounts (λ ca r hit. refl) (λ ca r miss. r miss) h)

-- How an action goes that acquires, runs a body and releases: by what the acquire answers.
bracket_cases :
    (R : Db → Type 0) {A B : Type 0} (m : Action A) (body : A → Action B)
    (rel : A → Action (Unit {0})) (w : World)
    → ((x : Error) → (m w).0 ≡ err x → R (m w).1.db)
    → ((a : A) → (m w).0 ≡ ok a → R (rel a (body a (m w).1).1).1.db)
    → R ((do a ← m; result ← attempt (body a); ignore (rel a); lift result) w).1.db
bracket_cases R {A} m body rel w failed got = split (m w).0 refl
  where
    split :
        (r : Result A)
        → (m w).0 ≡ r
        → R
            ((do a ← (λ _. (r, (m w).1)); result ← attempt (body a); ignore (rel a); lift result)
              w).1.db
    split (ok a) h = got a h
    split (err x) h = failed x h

abbrev acquired_first : Env → Action ChannelAccount
acquired_first e = annotate (wrap (codes "acquiring channel account")) (Pool.acquire e)

module _ (e : Env) (w : World) (h : NoneLocked w.db) where
  -- An acquire that fails has locked nothing.
  acquire_failed :
      (x : Error) → (acquired_first e w).0 ≡ err x → NoneLocked (acquired_first e w).1.db
  unfolding Pool.acquire
  acquire_failed x got = elim (Option-cases (least_used w.db.accounts)) [
    | inl empty ↦ subst NoneLocked (sym (acquire_none e w empty).1) h
    | inr (ca, found) ↦ elim (acquire_found e w ca found) [
      | inl failed ↦ subst NoneLocked (sym failed.1) h
      | inr taken ↦ absurd (ground arith)
    ]
  ]

  -- One that succeeds has locked the account that it returns.
  acquire-OnlyLocks :
      (a : ChannelAccount)
      → (acquired_first e w).0 ≡ ok a
      → OnlyLocks a.public_key (acquired_first e w).1.db
  unfolding Pool.acquire
  acquire-OnlyLocks a got = elim (Option-cases (least_used w.db.accounts)) [
    | inl empty ↦ absurd (ground (arith, acquire_none e w empty))
    | inr (ca, found) ↦ elim (acquire_found e w ca found) [
      | inl failed ↦ absurd (ground arith)
      | inr taken ↦
          let same : ca.public_key ≡ a.public_key = ground arith in
          subst (OnlyLocks a.public_key) (sym taken.1) (
            All-update_where (λ x. x.locked_at ≡ none) _ (has_key ca.public_key) _ w.db.accounts
              (λ x r hit miss. absurd (ground arith)) (λ x r _ _. r) h)
    ]
  ]

module _ (F : Floats) (e : Env) (g : Engine F) where
  -- If no channel account is locked and every call of the database goes through, no channel account
  -- is locked after `SubmitProcess`, whatever Horizon and the keys answer.
  pub submit_process_releases :
      (tx : Transaction) (w : World)
      → ((n : ℕ) → e.db_fault n ≡ none)
      → NoneLocked w.db
      → NoneLocked (submit_process F e g tx w).1.db
  unfolding submit_process
  submit_process_releases tx w up h =
      bracket_cases NoneLocked (acquired_first e) (with_channel F e g tx)
        (λ ca. Pool.release e ca.public_key) w (acquire_failed e w h)
        λ a got. release_unlocks F e g a.public_key _ (up _) (
          Keeps-run (OnlyLocks a.public_key) _
            (with_channel-Keeps (OnlyLocks a.public_key) e tx (locks_kept F e g a.public_key tx.id)
              F g a)
            _ (acquire-OnlyLocks e w h a got))
