-- ===== src/Store/Updates.antt =====
-- What `UpdateStatus` and `CreateTransaction` do to the tables, on every branch.
use tx_submitter.Base.{
  ℕ, suc, ◌≡◌, ◌≢◌, ◌&&◌, true, false, Option, none, some, [], ◌∷◌, ◌++◌, arith, find_where,
  update_where, ◌⊎◌, inl, inr, any, Option-cases,
}
use tx_submitter.Base.Text.{Text, text_eq}
use tx_submitter.State.{Status, is_terminal, Transaction, NewTransactionParams}
use tx_submitter.Errors.{Error, ok, err, is_ok, terminal_state}
use tx_submitter.External.{Env}
use tx_submitter.World.{Db, World}
use tx_submitter.Store.{
  has_id, set_status, new_transition, new_row, clashes, update_status, create_transaction,
}

module _ (e : Env) (tx_id : Text) (new : Status) (detail : Text) (hid : Option Text)
    (w : World) where
  -- The tables after an `UpdateStatus` that went through, from the status that it read. The
  -- database's transaction begins with the second call of the driver.
  abbrev pub status_written : Status → Db
  status_written old = record w.db {
    transactions =
        update_where (has_id tx_id) (set_status new hid detail (e.now (suc w.calls)))
          w.db.transactions;
    transitions =
        w.db.transitions
        ++ (new_transition tx_id old new detail w.db.next_transition (e.now (suc w.calls)) ∷ []);
    next_transition = suc w.db.next_transition;
  }

  -- If `UpdateStatus` returns an error, no table has changed.
  pub update_status_atomic :
      (x : Error)
      → (update_status e tx_id new detail hid w).0 ≡ err x
      → (update_status e tx_id new detail hid w).1.db ≡ w.db
  unfolding update_status
  update_status_atomic x h = ground arith

  -- A missing row is the error `ErrNotFound`, or a fault of the driver, and nothing changes.
  pub update_status_missing :
      find_where (has_id tx_id) w.db.transactions ≡ none
      → (update_status e tx_id new detail hid w).1.db ≡ w.db
  unfolding update_status
  update_status_missing h = ground arith

  -- On a row that is there: nothing changes, or the status and one row of the history are written,
  -- and then it was not a step from a terminal status to a terminal one.
  pub update_status_found :
      (t : Transaction)
      → find_where (has_id tx_id) w.db.transactions ≡ some t
      → ((update_status e tx_id new detail hid w).1.db ≡ w.db)
        ⊎ (((is_terminal new && is_terminal t.status) ≡ false)
            × ((update_status e tx_id new detail hid w).1.db ≡ status_written t.status))
  unfolding update_status
  update_status_found t h = ground arith

  found_ok :
      (t : Transaction)
      → find_where (has_id tx_id) w.db.transactions ≡ some t
      → (update_status e tx_id new detail hid w).0 ≡ ok tt
      → ((is_terminal new && is_terminal t.status) ≡ false)
        × ((update_status e tx_id new detail hid w).1.db ≡ status_written t.status)
  unfolding update_status
  found_ok t h k = ground arith

  missing_err :
      find_where (has_id tx_id) w.db.transactions ≡ none
      → (update_status e tx_id new detail hid w).0 ≢ ok tt
  unfolding update_status
  missing_err h k = ground arith

  -- If `UpdateStatus` returns nil, the row was there, the step from its status was not from a
  -- terminal status to a terminal one, and the rows with that id get the new status, hash and
  -- detail, one history row with the old and the new status is added, and the tables are the same
  -- otherwise.
  pub update_status_ok :
      (update_status e tx_id new detail hid w).0 ≡ ok tt
      → (t : Transaction) × (find_where (has_id tx_id) w.db.transactions ≡ some t)
        × ((is_terminal new && is_terminal t.status) ≡ false)
        × ((update_status e tx_id new detail hid w).1.db ≡ status_written t.status)
  update_status_ok k = elim (Option-cases (find_where (has_id tx_id) w.db.transactions)) [
    | inl gone ↦ absurd (missing_err gone k)
    | inr (t, found) ↦ (t, found, (found_ok t found k).0, (found_ok t found k).1)
  ]

  -- If the row is there, the step from its status is not from a terminal status to a terminal one,
  -- and every call of the database goes through, `UpdateStatus` returns nil and the tables have the
  -- new status and the history row.
  pub update_status_succeeds :
      (t : Transaction)
      → find_where (has_id tx_id) w.db.transactions ≡ some t
      → (is_terminal new && is_terminal t.status) ≡ false
      → ((n : ℕ) → e.db_fault n ≡ none)
      → ((update_status e tx_id new detail hid w).0 ≡ ok tt)
        × ((update_status e tx_id new detail hid w).1.db ≡ status_written t.status)
  unfolding update_status
  update_status_succeeds t h legal up = ground (
    arith,
    up w.calls,
    up (suc w.calls),
    up (suc (suc w.calls)),
    up (suc (suc (suc w.calls))),
    up (suc (suc (suc (suc w.calls)))),
  )

  -- If the row is there, its status and the new one are both terminal, and the first call of the
  -- database goes through, `UpdateStatus` returns `ErrTerminalState` and changes no table.
  pub update_status_refused :
      (t : Transaction)
      → find_where (has_id tx_id) w.db.transactions ≡ some t
      → (is_terminal new && is_terminal t.status) ≡ true
      → e.db_fault w.calls ≡ none
      → ((update_status e tx_id new detail hid w).0 ≡ err terminal_state)
        × ((update_status e tx_id new detail hid w).1.db ≡ w.db)
  unfolding update_status
  update_status_refused t h terminal up = ground arith

module _ (e : Env) (p : NewTransactionParams) (w : World) where
  -- If the schema gives the channel account's column a default, `CreateTransaction` leaves the
  -- tables as they were, or the new pending row has an id and an external id that no row has, and
  -- is put at the end of the transactions, with no other change.
  pub create_transaction_cases :
      (channel : Text)
      → e.schema.channel_account_default ≡ some channel
      → let row = new_row e p channel w.calls in
        ((create_transaction e p w).1.db ≡ w.db)
        ⊎ ((any (clashes row) w.db.transactions ≡ false)
            × ((create_transaction e p w).1.db
                ≡ record w.db { transactions = w.db.transactions ++ (row ∷ []) }))
  unfolding create_transaction
  create_transaction_cases channel h = ground arith

  -- If the schema gives the channel account's column no default, as in migrations/0001_init.up.sql,
  -- `CreateTransaction` returns an error and changes no table, whatever its parameters are.
  pub create_transaction_impossible :
      e.schema.channel_account_default ≡ none
      → ((create_transaction e p w).1.db ≡ w.db) × (is_ok (create_transaction e p w).0 ≡ false)
  unfolding create_transaction
  create_transaction_impossible h = (ground arith, ground arith)
