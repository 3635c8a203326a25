-- ===== src/Pool/Sessions.antt =====
-- Callers of the pool that run at the same time: the sessions of internal/state/store.go's
-- `AcquireChannelAccount` with the database's row locks, interleaved in any order with the other
-- operations on the accounts but `UnlockAllChannelAccounts`. A session has its own connection; a
-- statement is one step.
pub mod Exclusive
pub mod Runs
use mathlib.Core.Logic.{ite}
use tx_submitter.Base.{
  ℕ, ℕ_discrete, ◌≡◌, Bool, true, false, not, Option, none, some, List, [], ◌∷◌, any, where_, ◌==◌,
  update_where,
}
use tx_submitter.Base.Int.{ℤ, pos, add64}
use tx_submitter.Base.Text.{Text, text_eq}
use tx_submitter.State.{ChannelAccount}
use tx_submitter.External.{Env}
use tx_submitter.World.{Db}
use tx_submitter.Store.Accounts.{least_used, has_key, lock, unlock, on_accounts, upsert_account}

-- Where a caller stands: outside, between the SELECT and the COMMIT of `AcquireChannelAccount`, or
-- with the account that it returned.
pub data Session : Type 0 where
  idle : Session
  selected holding : ChannelAccount → Session

-- The keys of the rows that open transactions of the database have locked.
pub record System : Type 0 where
  pub db : Db
  pub row_locks : List Text
  pub session : ℕ → Session

abbrev pub goes : (ℕ → Session) → ℕ → Session → ℕ → Session
goes session i p j = ite (ℕ_discrete i j) p (session j)

abbrev pub is_locked_row : List Text → Text → Bool
is_locked_row keys k = any (λ j. j == k) keys

-- SKIP LOCKED: the rows that a query with FOR UPDATE sees.
abbrev pub visible : List Text → List ChannelAccount → List ChannelAccount
visible keys cas = where_ (λ ca. not (is_locked_row keys ca.public_key)) cas

abbrev pub unlock_row : Text → List Text → List Text
unlock_row k keys = where_ (λ j. not (j == k)) keys

abbrev pub next_seq : ChannelAccount → ChannelAccount
next_seq ca = record ca { current_seq = add64 ca.current_seq (pos 1) }

pub data Step (e : Env) (s : System) : System → Type 0 where
  -- `acquireChannelAccountSQL` locks the row that it returns.
  select :
      (i : ℕ) (ca : ChannelAccount)
      → s.session i ≡ idle
      → least_used (visible s.row_locks s.db.accounts) ≡ some ca
      → Step e s (record {
        db = s.db;
        row_locks = ca.public_key ∷ s.row_locks;
        session = goes s.session i (selected ca);
      })
  -- `lockChannelAccountSQL` and the commit, at the time `now` at which the transaction began.
  commit :
      (i now : ℕ) (ca : ChannelAccount)
      → s.session i ≡ selected ca
      → Step e s (record {
        db =
            on_accounts
              (update_where (has_key ca.public_key) (lock (add64 ca.current_seq (pos 1)) now))
              s.db;
        row_locks = unlock_row ca.public_key s.row_locks;
        session = goes s.session i (holding (next_seq ca));
      })
  -- An error before the commit.
  rollback :
      (i : ℕ) (ca : ChannelAccount)
      → s.session i ≡ selected ca
      → Step e s (record {
        db = s.db;
        row_locks = unlock_row ca.public_key s.row_locks;
        session = goes s.session i idle;
      })
  -- `ReleaseChannelAccount`; its error is ignored, so the caller goes on without it too.
  release :
      (i : ℕ) (ca : ChannelAccount)
      → s.session i ≡ holding ca
      → Step e s (record s {
        db = on_accounts (update_where (has_key ca.public_key) unlock) s.db;
        session = goes s.session i idle;
      })
  lose :
      (i : ℕ) (ca : ChannelAccount)
      → s.session i ≡ holding ca
      → Step e s (record s { session = goes s.session i idle })
  -- The other writes wait for the lock of the row that they change.
  set_seq :
      (k : Text) (z : ℤ)
      → is_locked_row s.row_locks k ≡ false
      → Step e s (record s {
        db = on_accounts (update_where (has_key k) (λ ca. record ca { current_seq = z })) s.db;
      })
  deactivate :
      (k : Text)
      → is_locked_row s.row_locks k ≡ false
      → Step e s (record s {
        db = on_accounts (update_where (has_key k) (λ ca. record ca { is_active = false })) s.db;
      })
  create :
      (secret k : Text) (n : ℕ)
      → is_locked_row s.row_locks k ≡ false
      → Step e s (record s { db = (upsert_account e secret k n s.db).1 })

-- What is reached from tables with nobody in the middle of anything.
pub data Reach (e : Env) (db : Db) : System → Type 0 where
  nobody_yet : Reach e db (record { db = db; row_locks = []; session = λ _. idle })
  later : {s t : System} → Reach e db s → Step e s t → Reach e db t
