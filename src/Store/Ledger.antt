-- ===== src/Store/Ledger.antt =====
-- The specification of the tables of transactions: what `GetTransaction`, `GetByExternalID` and
-- `TransitionHistory` can tell of them, and the steps that the service takes it through.
pub mod Refinement
pub mod Permanence
use mathlib.Core.Path.{fun_ext}
use tx_submitter.Base.{
  ℕ, ◌≡◌, refl, Bool, true, false, ◌&&◌, Option, none, some, List, [], ◌∷◌, ◌++◌, arith,
  if◌then◌else◌, ◌==◌, find_where, update_where, where_, any,
}
use tx_submitter.Base.Text.{Text, text_eq}
use tx_submitter.State.{Status, is_terminal, Transaction, Transition}
use tx_submitter.World.{Db}
use tx_submitter.Store.{has_id, has_external_id, is_pending, set_status, new_transition, clashes}

-- What a client can look up. Nothing is said of the order of the transactions.
pub record Ledger : Type 0 where
  pub by_id : Text → Option Transaction
  pub by_external_id : Text → Option Transaction
  pub history : Text → List Transition

abbrev about : Text → Transition → Bool
about id row = row.transaction_id == id

abbrev pub ledger : Db → Ledger
ledger db = record {
  by_id = λ id. find_where (has_id id) db.transactions;
  by_external_id = λ id. find_where (has_external_id id) db.transactions;
  history = λ id. where_ (about id) db.transitions;
}

-- A new transaction.
abbrev pub entered : Transaction → Ledger → Ledger
entered t l = record l {
  by_id = λ id. if t.id == id then some t else l.by_id id;
  by_external_id = λ id. if t.external_id == id then some t else l.by_external_id id;
}

-- The transactions that pass a test are changed.
abbrev pub change :
    (Transaction → Bool) → (Transaction → Transaction) → Option Transaction → Option Transaction
change p f none = none
change p f (some t) = if p t then some (f t) else some t

abbrev pub amended : (Transaction → Bool) → (Transaction → Transaction) → Ledger → Ledger
amended p f l = record l {
  by_id = λ id. change p f (l.by_id id);
  by_external_id = λ id. change p f (l.by_external_id id);
}

-- A row at the end of one history.
abbrev pub logged : Transition → Ledger → Ledger
logged row l = record l {
  history = λ id.
      let rows = l.history id in if row.transaction_id == id then rows ++ (row ∷ []) else rows;
}

-- Only the channel account and the time of the last change.
abbrev pub assigned : Text → ℕ → Transaction → Transaction
assigned channel now t = record t { channel_account = channel; updated_at = now }

infix 40 ◌⟹◌ ◌⟹*◌
-- One step: a payment is entered with fresh ids and the status pending; its status is changed, not
-- from a terminal status to a terminal one, with one row of history from the old status to the new;
-- or it gets a channel account while it is pending.
pub data ◌⟹◌ : Ledger → Ledger → Type 0 where
  entry :
      (l : Ledger) (t : Transaction)
      → t.status ≡ Status.pending
      → l.by_id t.id ≡ none
      → l.by_external_id t.external_id ≡ none
      → l ⟹ entered t l
  move :
      (l : Ledger) (t : Transaction) (id : Text) (new : Status) (detail : Text) (hid : Option Text)
      (number now : ℕ)
      → l.by_id id ≡ some t
      → (is_terminal new && is_terminal t.status) ≡ false
      → l
        ⟹ logged
            (new_transition id t.status new detail number now)
            (amended (has_id id) (set_status new hid detail now) l)
  assign :
      (l : Ledger) (id channel : Text) (now : ℕ)
      → l ⟹ amended (λ t. has_id id t && is_pending t) (assigned channel now) l

pub data ◌⟹*◌ : Ledger → Ledger → Type 0 where
  stay : (l : Ledger) → l ⟹* l
  onward : (l m n : Ledger) → l ⟹* m → m ⟹ n → l ⟹* n

pub find-snoc :
    (t : Transaction) (id : Text) (ts : List Transaction)
    → any (clashes t) ts ≡ false
    → find_where (has_id id) (ts ++ (t ∷ []))
      ≡ (if t.id == id then some t else find_where (has_id id) ts)
find-snoc t id [] fresh = refl
find-snoc t id (x ∷ ts) fresh = ground (arith, find-snoc t id ts)

find_external-snoc :
    (t : Transaction) (id : Text) (ts : List Transaction)
    → any (clashes t) ts ≡ false
    → find_where (has_external_id id) (ts ++ (t ∷ []))
      ≡ (if t.external_id == id then some t else find_where (has_external_id id) ts)
find_external-snoc t id [] fresh = refl
find_external-snoc t id (x ∷ ts) fresh = ground (arith, find_external-snoc t id ts)

pub find-change :
    (q p : Transaction → Bool) (f : Transaction → Transaction)
    → ((t : Transaction) → q (f t) ≡ q t)
    → (ts : List Transaction) → find_where q (update_where p f ts) ≡ change p f (find_where q ts)
find-change q p f same [] = refl
find-change q p f same (x ∷ ts) = ground (arith, same x, find-change q p f same ts)

history-snoc :
    (row : Transition) (id : Text) (rows : List Transition)
    → where_ (about id) (rows ++ (row ∷ [])) ≡ (
        let old = where_ (about id) rows in
        if row.transaction_id == id then old ++ (row ∷ []) else old)
history-snoc row id [] = ground arith
history-snoc row id (r ∷ rows) = ground (arith, history-snoc row id rows)

-- The rows that the statements write are the steps of the ledger.
pub ledger-insert :
    (t : Transaction) (db : Db)
    → any (clashes t) db.transactions ≡ false
    → ledger (record db { transactions = db.transactions ++ (t ∷ []) }) ≡ entered t (ledger db)
ledger-insert t db fresh = λ i. record {
  by_id = fun_ext (λ id. find-snoc t id db.transactions fresh) i;
  by_external_id = fun_ext (λ id. find_external-snoc t id db.transactions fresh) i;
  history = λ id. where_ (about id) db.transitions;
}

pub ledger-update :
    (p : Transaction → Bool) (f : Transaction → Transaction) (db : Db)
    → ((t : Transaction) → (f t).id ≡ t.id)
    → ((t : Transaction) → (f t).external_id ≡ t.external_id)
    → ledger (record db { transactions = update_where p f db.transactions })
      ≡ amended p f (ledger db)
ledger-update p f db same_id same_external = λ i. record {
  by_id = fun_ext (λ id. find-change (has_id id) p f (λ t. rw (same_id t) refl) db.transactions) i;
  by_external_id =
      fun_ext
        (λ id.
          find-change (has_external_id id) p f (λ t. rw (same_external t) refl) db.transactions)
        i;
  history = λ id. where_ (about id) db.transitions;
}

pub ledger-log :
    (row : Transition) (db : Db) (next : ℕ)
    → ledger (record db { transitions = db.transitions ++ (row ∷ []); next_transition = next })
      ≡ logged row (ledger db)
ledger-log row db next = λ i. record {
  by_id = λ id. find_where (has_id id) db.transactions;
  by_external_id = λ id. find_where (has_external_id id) db.transactions;
  history = fun_ext (λ id. history-snoc row id db.transitions) i;
}
