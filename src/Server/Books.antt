-- ===== src/Server/Books.antt =====
-- What `main` does to the ledger of the payments, from its first line to its last.
use tx_submitter.Base.{◌≡◌, some, ◌++◌, List}
use tx_submitter.Base.Text.{Text}
use tx_submitter.State.{Transaction, Transition}
use tx_submitter.External.{Env}
use tx_submitter.World.{World}
use tx_submitter.World.Keeps.{Keeps-run}
use tx_submitter.Store.Ledger.{ledger, ◌⟹*◌, stay}
use tx_submitter.Store.Ledger.Refinement.{
  CameFrom, create_transaction-CameFrom, update_status-CameFrom, mark_channel_used-CameFrom,
}
use tx_submitter.Store.Ledger.Permanence.{SamePayment, run-Stays, run-Extends}
use tx_submitter.Retry.{Floats}
use tx_submitter.Submitter.Invariants.{set_seq-Keeps}
use tx_submitter.Server.Process.{Occurrence, main, main-Keeps}

module _ (F : Floats) (e : Env) (occurrences : List Occurrence) (w : World) where
  -- Over any sequence of requests and ticks, one after the other, and whatever the configuration
  -- and the environment answer, `main` takes the ledger, that is what lookups by id and by external
  -- id and the histories give, through steps of the specification only: a payment is entered,
  -- pending, under ids that are not in use; or a status is changed, not from a terminal status to a
  -- terminal one, with one row of history from the old status to the new; or a pending payment gets
  -- a channel account.
  pub main-ledger : ledger w.db ⟹* ledger (main F e occurrences w).1.db
  main-ledger =
      Keeps-run (CameFrom (ledger w.db)) (main F e occurrences)
        (main-Keeps F e (CameFrom (ledger w.db)) (λ cas db h. h)
          (λ tx_id. record {
            update =
                λ new _ detail hid. update_status-CameFrom e (ledger w.db) tx_id new detail hid;
            mark = λ channel. mark_channel_used-CameFrom e (ledger w.db) tx_id channel;
            set_seq = set_seq-Keeps (CameFrom (ledger w.db)) e (λ cas db h. h);
          })
          (create_transaction-CameFrom e (ledger w.db)) occurrences)
        w (stay (ledger w.db))

  -- Whatever `main` does, a transaction that is in the table stays in it with the same payment,
  -- that is the same ids, source, destination, amount, asset and time of creation; and the rows of
  -- its history stay, in their order, with new rows only after them.
  pub main-keeps_payment :
      (id : Text) (t : Transaction)
      → (ledger w.db).by_id id ≡ some t
      → ((t' : Transaction) × ((ledger (main F e occurrences w).1.db).by_id id ≡ some t')
          × SamePayment t t')
        × ((more : List Transition) × ((ledger (main F e occurrences w).1.db).history id
              ≡ (ledger w.db).history id ++ more))
  main-keeps_payment id t found = (run-Stays id t main-ledger found, run-Extends id main-ledger)
