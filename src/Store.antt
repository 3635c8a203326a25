-- ===== src/Store.antt =====
-- internal/state/store.go: the operations of `txStore` on transactions and their history. Each call
-- of the driver is a `statement`; its SQL is read as a change of the tables. A fault of the driver
-- also stands for an argument that Postgres does not take, such as an id that is no UUID.
pub mod Accounts
pub mod Updates
pub mod Leases
pub mod Exclusion
pub mod Histories
pub mod Ids
pub mod Consistency
pub mod Reads
pub mod Races
pub mod Ledger
pub mod Writers
use tx_submitter.Base.{
  ℕ, suc, Bool, ◌||◌, ◌&&◌, Option, none, some, List, [], ◌∷◌, ◌++◌, if◌then◌else◌, ◌==◌, where_,
  update_where, find_where, order_by, take, any, map,
}
use tx_submitter.Base.Text.{Text, text_eq, codes}
use tx_submitter.State.{
  Status, status_eq, is_terminal, Transaction, Transition, NewTransactionParams,
}
use tx_submitter.Errors.{Error, Result, ok, err}
use tx_submitter.External.{Env}
use tx_submitter.World.{
  Db, World, Action, ◌>>=◌, ◌>>◌, fail, annotate, statement, rollback_on_error,
}

-- The row that `createTransactionSQL` inserts at the n-th call, given a channel account.
abbrev pub new_row : Env → NewTransactionParams → Text → ℕ → Transaction
new_row e p channel n = record {
  id = e.gen_random_uuid n;
  external_id = p.external_id;
  source_account = p.source_account;
  destination = p.destination;
  amount = e.to_numeric p.amount;
  asset_code = p.asset_code;
  asset_issuer = p.asset_issuer;
  channel_account = channel;
  status = Status.pending;
  horizon_tx_id = none;
  error_message = none;
  created_at = e.now n;
  updated_at = e.now n;
}

abbrev pub clashes : Transaction → Transaction → Bool
clashes row t = t.id == row.id || t.external_id == row.external_id

abbrev insert_row : Env → Transaction → Db → Result Transaction × Db
insert_row e row db =
    if any (clashes row) db.transactions
    then (err (Error.external e.unique_violation), db)
    else (ok row, record db { transactions = db.transactions ++ (row ∷ []) })

-- The statement names no channel_account, so the column takes its default, or is NULL.
abbrev pub insert_transaction : Env → NewTransactionParams → ℕ → Db → Result Transaction × Db
insert_transaction e p n db = elim e.schema.channel_account_default [
  | none ↦ (err (Error.external e.not_null_violation), db)
  | some channel ↦ insert_row e (new_row e p channel n) db
]

abbrev or_no_rows {ℓ} : {A : Type ℓ} → Option A → Result A
or_no_rows none = err Error.no_rows
or_no_rows (some a) = ok a

-- `if err == pgx.ErrNoRows { return nil, ErrNotFound }`
abbrev not_found_if_no_rows : Error → Error
not_found_if_no_rows Error.no_rows = Error.not_found
not_found_if_no_rows other = other

abbrev pub has_id : Text → Transaction → Bool
has_id id t = t.id == id

abbrev pub has_external_id : Text → Transaction → Bool
has_external_id external_id t = t.external_id == external_id

abbrev pub is_pending : Transaction → Bool
is_pending t = t.status == Status.pending

-- `listPendingSQL` does not read horizon_tx_id and error_message.
abbrev pub pending_row : Transaction → Transaction
pending_row t = record t { horizon_tx_id = none; error_message = none }

-- `updateStatusSQL` on one row.
abbrev pub set_status : Status → Option Text → Text → ℕ → Transaction → Transaction
set_status status horizon_tx_id detail now t = record t {
  status = status;
  horizon_tx_id = horizon_tx_id;
  error_message = some detail;
  updated_at = now;
}

-- The row that `insertTransitionSQL` inserts.
abbrev pub new_transition : Text → Status → Status → Text → ℕ → ℕ → Transition
new_transition tx_id from_status to_status detail id now = record {
  id = id;
  transaction_id = tx_id;
  from_status = some from_status;
  to_status = to_status;
  detail = some detail;
  attempted_at = now;
}

module _ (e : Env) where
  unfoldable pub create_transaction : NewTransactionParams → Action Transaction
  create_transaction params = statement e (insert_transaction e params)

  unfoldable pub get_transaction : Text → Action Transaction
  get_transaction id =
      annotate not_found_if_no_rows
        (statement e λ n db. (or_no_rows (find_where (has_id id) db.transactions), db))

  unfoldable pub get_by_external_id : Text → Action Transaction
  get_by_external_id external_id = annotate not_found_if_no_rows (
      statement e
        λ n db. (or_no_rows (find_where (has_external_id external_id) db.transactions), db))

  -- The rows of `listPendingSQL`.
  abbrev pub pending_rows : ℕ → Db → List Transaction
  pending_rows limit db =
      map pending_row
        (take limit (order_by (λ t. t.created_at) (where_ is_pending db.transactions)))

  unfoldable pub list_pending : ℕ → Action (List Transaction)
  list_pending limit = statement e λ n db. (ok (pending_rows limit db), db)

  -- How `UpdateStatus` hands on an error of its first query.
  abbrev current_status_error : Error → Error
  current_status_error Error.no_rows = Error.not_found
  current_status_error other = Error.wrap (codes "getting current status") other

  abbrev status_of : Option Transaction → Result Status
  status_of none = err Error.no_rows
  status_of (some t) = ok t.status

  unfoldable pub read_status : Text → Action Status
  read_status tx_id =
      annotate current_status_error
        (statement e λ n db. (status_of (find_where (has_id tx_id) db.transactions), db))

  -- From `s.pool.Begin` to `tx.Commit`, with the status that was read before. `now()` is the time at
  -- which the database's transaction began.
  unfoldable pub write_status : Text → Status → Status → Text → Option Text → Action (Unit {0})
  write_status tx_id from_status new_status detail horizon_tx_id = do
    began ← annotate (Error.wrap (codes "beginning transaction")) (statement e λ n db. (ok n, db))
    rollback_on_error (do
      annotate (Error.wrap (codes "updating status")) (
          statement e λ n db. (
            ok tt,
            record db {
              transactions =
                  update_where (has_id tx_id)
                    (set_status new_status horizon_tx_id detail (e.now began)) db.transactions;
            },
          ))
      annotate (Error.wrap (codes "inserting transition")) (
          statement e λ n db. (
            ok tt,
            record db {
              transitions =
                  db.transitions
                  ++ (new_transition tx_id from_status new_status detail db.next_transition
                        (e.now began)
                      ∷ []);
              next_transition = suc db.next_transition;
            },
          ))
      statement e λ n db. (ok tt, db))

  unfoldable pub update_status : Text → Status → Text → Option Text → Action (Unit {0})
  unfolding read_status write_status
  update_status tx_id new_status detail horizon_tx_id = do
    current ← read_status tx_id
    if is_terminal new_status && is_terminal current
        then fail Error.terminal_state
        else write_status tx_id current new_status detail horizon_tx_id

  -- The rows of `transitionHistorySQL`.
  abbrev pub history_of : Text → Db → List Transition
  history_of tx_id db =
      order_by (λ t. t.attempted_at) (where_ (λ t. t.transaction_id == tx_id) db.transitions)

  unfoldable pub transition_history : Text → Action (List Transition)
  transition_history tx_id = statement e λ n db. (ok (history_of tx_id db), db)

  unfoldable pub mark_channel_used : Text → Text → Action (Unit {0})
  mark_channel_used tx_id channel_public_key = statement e λ n db. (
    ok tt,
    record db {
      transactions =
          update_where (λ t. has_id tx_id t && is_pending t)
            (λ t. record t { channel_account = channel_public_key; updated_at = e.now n })
            db.transactions;
    },
  )
