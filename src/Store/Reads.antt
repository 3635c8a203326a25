-- ===== src/Store/Reads.antt =====
-- The queue that `ListPending` gives.
use tx_submitter.Base.{
  ℕ, ◌≤◌, ◌≡◌, refl, subst, true, List, [], ◌∷◌, arith, All, All-take, All-order_by, All-where_,
  order_by, where_, take, map, length, length-take-le,
}
use tx_submitter.Base.Text.{text_eq}
use tx_submitter.State.{Status, status_eq, Transaction}
use tx_submitter.Errors.{ok}
use tx_submitter.External.{Env}
use tx_submitter.World.{World}
use tx_submitter.Store.{is_pending, pending_row, list_pending, pending_rows}

length-map : {A B : Type 0} (f : A → B) (xs : List A) → length (map f xs) ≡ length xs
length-map f [] = refl
length-map f (x ∷ xs) = ground (arith, length-map f xs)

All-pending :
    (ts : List Transaction)
    → All (λ t. is_pending t ≡ true) ts
    → All (λ t. t.status ≡ Status.pending) (map pending_row ts)
All-pending [] h = tt
All-pending (t ∷ ts) h = (ground arith, All-pending ts h.1)

pending_rows_lem :
    (e : Env) (limit : ℕ) (w : World) (ts : List Transaction)
    → (list_pending e limit w).0 ≡ ok ts
    → pending_rows e limit w.db ≡ ts
unfolding list_pending
pending_rows_lem e limit w ts h = ground arith

-- If `ListPending` returns rows, they are at most `limit` many, and each has the status pending.
pub list_pending_lem :
    (e : Env) (limit : ℕ) (w : World) (ts : List Transaction)
    → (list_pending e limit w).0 ≡ ok ts
    → (length ts ≤ limit) × All (λ t. t.status ≡ Status.pending) ts
list_pending_lem e limit w ts h =
    subst (λ rows. (length rows ≤ limit) × All (λ t. t.status ≡ Status.pending) rows)
      (pending_rows_lem e limit w ts h)
      (
        rw (length-map pending_row (take limit queue)) (length-take-le limit queue),
        All-pending (take limit queue) (
            All-take (λ t. is_pending t ≡ true) limit queue
              (All-order_by (λ t. is_pending t ≡ true) (λ t. t.created_at)
                (where_ is_pending w.db.transactions) (All-where_ is_pending w.db.transactions))),
      )
  where
    queue : List Transaction
    queue = order_by (λ t. t.created_at) (where_ is_pending w.db.transactions)
