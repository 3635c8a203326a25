-- ===== src/Pool/Sessions/Exclusive.antt =====
-- No two callers hold one channel account, in whatever order their statements run.
use tx_submitter.Base.{
  ℕ, ℕ_discrete, ◌≡◌, ◌≢◌, refl, subst, Bool, true, false, not, Option, none, some, List, [], ◌∷◌,
  arith, any, where_, update_where, All-where_, All-where_of,
}
use tx_submitter.Base.Int.{pos, add64}
use tx_submitter.Base.Text.{Text, text_eq}
use tx_submitter.State.{ChannelAccount}
use tx_submitter.External.{Env}
use tx_submitter.World.{Db}
use tx_submitter.Store.Accounts.{
  least_used, has_key, lock, unlock, on_accounts, upsert_account, is_available,
}
use tx_submitter.Store.Leases.{least_used_available, least_used-All}
use tx_submitter.Store.Exclusion.{
  IsHeld, any-update_where, update-IsHeld, upsert-IsHeld, upsert-present, lock-IsHeld,
  any-least_used,
}
use tx_submitter.Pool.Sessions.{
  Session, idle, selected, holding, System, Step, select, commit, rollback, release, lose, set_seq,
  deactivate, create, Reach, nobody_yet, later, goes, is_locked_row, visible, unlock_row, next_seq,
}

-- The key that a caller is about to hold or holds.
abbrev pub owned : Session → Option Text
owned idle = none
owned (selected ca) = some ca.public_key
owned (holding ca) = some ca.public_key

pub record Inv (s : System) : Type 0 where
  pub reserved :
      (i : ℕ) (ca : ChannelAccount)
      → s.session i ≡ selected ca
      → is_locked_row s.row_locks ca.public_key ≡ true
  pub present :
      (i : ℕ) (ca : ChannelAccount)
      → s.session i ≡ selected ca
      → any (has_key ca.public_key) s.db.accounts ≡ true
  pub held : (i : ℕ) (ca : ChannelAccount) → s.session i ≡ holding ca → IsHeld ca.public_key s.db
  pub unique :
      (i j : ℕ) (k : Text) → owned (s.session i) ≡ some k → owned (s.session j) ≡ some k → i ≡ j

any-where_ :
    (p q : ChannelAccount → Bool) (cas : List ChannelAccount)
    → any p (where_ q cas) ≡ true
    → any p cas ≡ true
any-where_ p q [] h = h
any-where_ p q (x ∷ cas) h = ground (arith, any-where_ p q cas)

unlock_row_ne :
    (k j : Text) (keys : List Text)
    → k ≢ j
    → is_locked_row (unlock_row k keys) j ≡ is_locked_row keys j
unlock_row_ne k j [] ne = refl
unlock_row_ne k j (x ∷ keys) ne = ground (arith, unlock_row_ne k j keys ne)

module _ (s : System) (inv : Inv s) where
  open inv use {reserved, present, held, unique}

  module _ (ca : ChannelAccount)
      (found : least_used (visible s.row_locks s.db.accounts) ≡ some ca) where
    select_unlocked : is_locked_row s.row_locks ca.public_key ≡ false
    select_unlocked = ground (
      arith,
      least_used-All (λ x. not (is_locked_row s.row_locks x.public_key) ≡ true) _ ca found
          (All-where_ (λ x. not (is_locked_row s.row_locks x.public_key)) s.db.accounts),
    )

    select_unheld : (k : Text) → IsHeld k s.db → ca.public_key ≢ k
    select_unheld k h same = ground (
      arith,
      least_used_available _ ca found,
      least_used-All (λ x. has_key k x ≡ true → is_available x ≡ false) _ ca found
          (All-where_of _ (λ x. not (is_locked_row s.row_locks x.public_key)) s.db.accounts
            h.taken),
    )

    -- The row that a SELECT returns is nobody's.
    select_fresh : (j : ℕ) → owned (s.session j) ≢ some ca.public_key
    select_fresh j = split (s.session j) refl
      where
        split : (p : Session) → s.session j ≡ p → owned p ≢ some ca.public_key
        split idle here h = cc
        split (selected x) here h = ground (arith, reserved j x here, select_unlocked)
        split (holding x) here h = ground (arith, select_unheld x.public_key (held j x here))

    select-Inv :
        (i : ℕ)
        → Inv (record {
          db = s.db;
          row_locks = ca.public_key ∷ s.row_locks;
          session = goes s.session i (selected ca);
        })
    select-Inv i = record {
      reserved = λ j x h. ground (arith, reserved j x);
      present = λ j x h. ground (
        arith,
        present j x,
        any-where_ (has_key ca.public_key) (λ y. not (is_locked_row s.row_locks y.public_key))
            s.db.accounts,
        any-least_used (has_key ca.public_key) _ ca found,
      );
      held = λ j x h. ground (arith, held j x);
      unique = λ j l k hj hl. ground (arith, unique j l k, select_fresh j, select_fresh l);
    }

  module _ (i : ℕ) (ca : ChannelAccount) (here : s.session i ≡ selected ca) where
    others_reserved :
        (j : ℕ) (x : ChannelAccount)
        → i ≢ j
        → s.session j ≡ selected x
        → is_locked_row (unlock_row ca.public_key s.row_locks) x.public_key ≡ true
    others_reserved j x ne h = ground (
      arith,
      reserved j x h,
      unique i j ca.public_key,
      unlock_row_ne ca.public_key x.public_key s.row_locks,
    )

    commit-Inv :
        (now : ℕ)
        → Inv (record {
          db =
              on_accounts
                (update_where (has_key ca.public_key) (lock (add64 ca.current_seq (pos 1)) now))
                s.db;
          row_locks = unlock_row ca.public_key s.row_locks;
          session = goes s.session i (holding (next_seq ca));
        })
    commit-Inv now = record {
      reserved = λ j x h. ground (arith, others_reserved j x);
      present = λ j x h.
          any-update_where (has_key ca.public_key) (lock (add64 ca.current_seq (pos 1)) now)
            (λ y. refl) x.public_key s.db.accounts (ground (arith, present j x));
      held = λ j x h. elim (ℕ_discrete i j) [
        | yes mine ↦
            subst
              (λ k. IsHeld k (
                on_accounts
                  (update_where (has_key ca.public_key) (lock (add64 ca.current_seq (pos 1)) now))
                  s.db))
              (ground arith)
              (lock-IsHeld ca.public_key (add64 ca.current_seq (pos 1)) now s.db
                (present i ca here))
        | no other ↦
            update-IsHeld x.public_key (has_key ca.public_key)
              (lock (add64 ca.current_seq (pos 1)) now) s.db (λ y. refl) (λ y hit key shut. refl)
              (held j x (ground arith))
      ];
      unique = λ j l k hj hl. ground (arith, unique j l k, unique i l k, unique j i k);
    }

    rollback-Inv : Inv (record {
      db = s.db;
      row_locks = unlock_row ca.public_key s.row_locks;
      session = goes s.session i idle;
    })
    rollback-Inv = record {
      reserved = λ j x h. ground (arith, others_reserved j x);
      present = λ j x h. ground (arith, present j x);
      held = λ j x h. ground (arith, held j x);
      unique = λ j l k hj hl. ground (arith, unique j l k);
    }

  module _ (i : ℕ) (ca : ChannelAccount) (here : s.session i ≡ holding ca) where
    lose-Inv : Inv (record s { session = goes s.session i idle })
    lose-Inv = record {
      reserved = λ j x h. ground (arith, reserved j x);
      present = λ j x h. ground (arith, present j x);
      held = λ j x h. ground (arith, held j x);
      unique = λ j l k hj hl. ground (arith, unique j l k);
    }

    release-Inv : Inv (record s {
      db = on_accounts (update_where (has_key ca.public_key) unlock) s.db;
      session = goes s.session i idle;
    })
    release-Inv = record {
      reserved = λ j x h. ground (arith, reserved j x);
      present = λ j x h.
          any-update_where (has_key ca.public_key) unlock (λ y. refl) x.public_key s.db.accounts
            (ground (arith, present j x));
      held = λ j x h.
          update-IsHeld x.public_key (has_key ca.public_key) unlock s.db (λ y. refl)
            (λ y hit key shut. absurd (ground (arith, unique i j ca.public_key)))
            (held j x (ground arith));
      unique = λ j l k hj hl. ground (arith, unique j l k);
    }

  -- A write that keeps the keys and makes no row available.
  edit-Inv :
      (p : ChannelAccount → Bool) (f : ChannelAccount → ChannelAccount)
      → ((y : ChannelAccount) → (f y).public_key ≡ y.public_key)
      → ((y : ChannelAccount) → is_available y ≡ false → is_available (f y) ≡ false)
      → Inv (record s { db = on_accounts (update_where p f) s.db })
  edit-Inv p f same shut = record {
    reserved = reserved;
    present = λ j x h. any-update_where p f same x.public_key s.db.accounts (present j x h);
    held = λ j x h. update-IsHeld x.public_key p f s.db same (λ y hit key. shut y) (held j x h);
    unique = unique;
  }

  create-Inv :
      (e : Env) (secret k : Text) (n : ℕ)
      → Inv (record s { db = (upsert_account e secret k n s.db).1 })
  create-Inv e secret k n = record {
    reserved = reserved;
    present = λ j x h. upsert-present x.public_key e secret k n s.db (present j x h);
    held = λ j x h. upsert-IsHeld x.public_key e secret k n s.db (held j x h);
    unique = unique;
  }

Step-Inv : (e : Env) (s t : System) → Step e s t → Inv s → Inv t
Step-Inv e s _ (select i ca out found) inv = select-Inv s inv ca found i
Step-Inv e s _ (commit i now ca here) inv = commit-Inv s inv i ca here now
Step-Inv e s _ (rollback i ca here) inv = rollback-Inv s inv i ca here
Step-Inv e s _ (release i ca here) inv = release-Inv s inv i ca here
Step-Inv e s _ (lose i ca here) inv = lose-Inv s inv i ca here
Step-Inv e s _ (set_seq k z free) inv =
    edit-Inv s inv (has_key k) (λ ca. record ca { current_seq = z }) (λ y. refl) (λ y h. h)
Step-Inv e s _ (deactivate k free) inv =
    edit-Inv s inv (has_key k) (λ ca. record ca { is_active = false }) (λ y. refl)
      (λ y h. ground arith)
Step-Inv e s _ (create secret k n free) inv = create-Inv s inv e secret k n

Reach-Inv : (e : Env) (db : Db) (s : System) → Reach e db s → Inv s
Reach-Inv e db _ nobody_yet = record {
  reserved = λ i ca h. cc;
  present = λ i ca h. cc;
  held = λ i ca h. cc;
  unique = λ i j k h. cc;
}
Reach-Inv e db t (later {s} r st) = Step-Inv e s t st (Reach-Inv e db s r)

-- Callers of `AcquireChannelAccount` that run at the same time: in any interleaving of their
-- selects, commits, rollbacks and releases, and of the writes of `AddAccount`, `RemoveAccount` and
-- `RefreshSequence`, two of them never hold accounts with the same key. `ResetLocks` is not among
-- the steps.
pub holding_exclusive :
    (e : Env) (db : Db) (s : System) (i j : ℕ) (a b : ChannelAccount)
    → Reach e db s
    → s.session i ≡ holding a
    → s.session j ≡ holding b
    → i ≢ j
    → a.public_key ≢ b.public_key
holding_exclusive e db s i j a b r hi hj ne same =
    ne (Inv.unique (Reach-Inv e db s r) i j a.public_key (ground arith) (ground arith))
