-- ===== src/Submitter/Listing.antt =====
-- What a tick lists: of the rows that wait, at most ten, each once.
use tx_submitter.Base.{
  ℕ, zero, suc, ◌≤◌, ◌≡◌, ap, ◌∙◌, true, false, some, List, [], ◌∷◌, arith, inl, inr,
  length-order_by, length-where_, Bool-cases, find_where, where_, take, order_by, map, any, count,
  All, length, All-take, All-order_by, All-map, leb, if◌then◌else◌,
}
use tx_submitter.Base.Text.{Text}
use tx_submitter.State.{Status, Transaction}
use tx_submitter.External.{Env}
use tx_submitter.World.{Db}
use tx_submitter.Store.{has_id, is_pending, pending_row, pending_rows, clashes}
use tx_submitter.Store.Consistency.{IsConsistent, Distinct}
use tx_submitter.Submitter.Lifecycle.{At}
use tx_submitter.Submitter.Queue.{listed_once}

elsewhere :
    (t : Transaction) (ts rest : List Transaction)
    → any (clashes t) rest ≡ false
    → All (λ x. find_where (has_id x.id) ts ≡ some x) rest
    → All (λ x. find_where (has_id x.id) (t ∷ ts) ≡ some x) rest
elsewhere t ts [] apart all = tt
elsewhere t ts (x ∷ rest) apart all =
    (ground (arith, all.0), elsewhere t ts rest (ground arith) all.1)

-- Each row is the one that its id finds.
pub found_rows :
    (ts : List Transaction) → Distinct ts → All (λ t. find_where (has_id t.id) ts ≡ some t) ts
found_rows [] d = tt
found_rows (t ∷ ts) d = (ground arith, elsewhere t ts ts d.0 (found_rows ts d.1))

pub waiting_rows :
    (P : Transaction → Type 0) (ts : List Transaction)
    → All P ts
    → All (λ t. P t × (is_pending t ≡ true)) (where_ is_pending ts)
waiting_rows P [] all = tt
waiting_rows P (t ∷ ts) all = elim (Bool-cases (is_pending t)) [
  | inl waits ↦ rw waits ((all.0, waits), waiting_rows P ts all.1)
  | inr over ↦ rw over (waiting_rows P ts all.1)
]

rows_read :
    (P : Text → Type 0) (ts : List Transaction)
    → All (λ t. P t.id) ts
    → All (λ t. P t.id) (map pending_row ts)
rows_read P [] all = tt
rows_read P (t ∷ ts) all = (all.0, rows_read P ts all.1)

-- The list of a tick: pairwise different ids, each of a row that waits.
abbrev pub Listed : List Transaction → Db → Type 0
Listed txs db =
    ((id : Text) → count (has_id id) txs ≤ 1) × All (λ tx. At tx.id Status.pending db) txs

length-map-take :
    (n : ℕ) (ts : List Transaction)
    → length (map pending_row (take n ts)) ≡ (if leb n (length ts) then n else length ts)
length-map-take zero ts = ground arith
length-map-take (suc n) [] = ground arith
length-map-take (suc n) (t ∷ ts) = ground (arith, length-map-take n ts)

module _ (e : Env) where
  pub pending_rows-Listed : (db : Db) → IsConsistent db → Listed (pending_rows e 10 db) db
  pending_rows-Listed db c = (
    (λ id. listed_once e db id 10 c),
    rows_read (λ id. At id Status.pending db) _
        (All-take _ 10 _ (
          All-order_by _ (λ t. t.created_at) _
            (All-map
              (λ t. (find_where (has_id t.id) db.transactions ≡ some t) × (is_pending t ≡ true))
              (λ t. At t.id Status.pending db) _ (λ t (found, waits). (t, found, ground arith))
              (waiting_rows _ db.transactions (found_rows db.transactions c.distinct))))),
  )

  pub length-pending_rows :
      (db : Db)
      → length (pending_rows e 10 db) ≡ (
          if leb 10 (count is_pending db.transactions)
          then 10
          else count is_pending db.transactions)
  length-pending_rows db =
      length-map-take 10 (order_by (λ t. t.created_at) (where_ is_pending db.transactions))
      ∙ ap (λ n. if leb 10 n then 10 else n)
          (length-order_by (λ t. t.created_at) (where_ is_pending db.transactions)
            ∙ length-where_ is_pending db.transactions)
