-- ===== src/Store/Consistency.antt =====
-- The history of a transaction, replayed, gives its status; and the three statements that write the
-- tables of transactions keep that.
use mathlib.Core.Bool.{true≢false}
use mathlib.Core.Logic.{if_neg}
use tx_submitter.Base.{
  ℕ, suc, ◌≡◌, refl, ap, ◌∙◌, sym, subst, ◌&&◌, Bool, true, false, Option, none, some, List, [],
  ◌∷◌, ◌++◌, arith, if◌then◌else◌, ◌==◌, inl, inr, Bool-cases, any, All, find_where, update_where,
  All-append, All-map, All-update_where, find_where-All, find_where-passes,
}
use tx_submitter.Base.Text.{Text, text_eq}
use tx_submitter.State.{Status, status_eq, is_terminal, Transaction, Transition}
use tx_submitter.World.{Db}
use tx_submitter.Store.{has_id, set_status, new_transition, clashes}
use tx_submitter.Store.Ids.{
  unclashed, any-append, clashes_sym, any-snoc, has_id-eq, any-found, any-update_where,
}

-- The status that the rows of a transaction lead to; `none` if a row does not start where the one
-- before it ended, or leads from one terminal status to another.
abbrev pub follow : Option Status → Status → Status → Option Status
follow none s new = none
follow (some from) s new =
    if from == s then (if is_terminal from && is_terminal new then none else some new) else none

-- One row of the history; rows of other transactions change nothing.
abbrev pub advance : Text → Transition → Option Status → Option Status
advance id row none = none
advance id row (some s) =
    if row.transaction_id == id then follow row.from_status s row.to_status else some s

unfoldable pub replay : Text → List Transition → Option Status → Option Status
replay id [] s = s
replay id (row ∷ rows) s = replay id rows (advance id row s)

abbrev pub Replays : List Transition → Transaction → Type 0
Replays trs t = replay t.id trs (some Status.pending) ≡ some t.status

abbrev pub Refers : List Transaction → Transition → Type 0
Refers ts row = any (has_id row.transaction_id) ts ≡ true

abbrev pub Distinct : List Transaction → Type 0
Distinct [] = Unit
Distinct (t ∷ ts) = (any (clashes t) ts ≡ false) × Distinct ts

pub record IsConsistent (db : Db) : Type 0 where
  pub replayed : All (Replays db.transitions) db.transactions
  pub referred : All (Refers db.transactions) db.transitions
  pub distinct : Distinct db.transactions

pub replay-append :
    (id : Text) (xs ys : List Transition) (s : Option Status)
    → replay id (xs ++ ys) s ≡ replay id ys (replay id xs s)
unfolding replay
replay-append id [] ys s = refl
replay-append id (row ∷ xs) ys s = replay-append id xs ys (advance id row s)

-- One more row moves the status of its transaction and no other.
replay-snoc :
    (id : Text) (rows : List Transition) (row : Transition) (s : Status)
    → replay id rows (some Status.pending) ≡ some s
    → replay id (rows ++ (row ∷ [])) (some Status.pending) ≡ advance id row (some s)
unfolding replay
replay-snoc id rows row s h = replay-append id rows (row ∷ []) _ ∙ ap (advance id row) h

Distinct-snoc :
    (t : Transaction) (ts : List Transaction)
    → any (clashes t) ts ≡ false
    → Distinct ts
    → Distinct (ts ++ (t ∷ []))
Distinct-snoc t [] fresh h = (refl, tt)
Distinct-snoc t (x ∷ ts) fresh h = (
  any-snoc (clashes x) t ts h.0 (ground (arith, clashes_sym x t)),
  Distinct-snoc t ts (ground arith) h.1,
)

-- A transaction to which no row refers is pending.
replay-unreferred :
    (t : Transaction) (ts : List Transaction) (rows : List Transition)
    → any (clashes t) ts ≡ false
    → All (Refers ts) rows
    → replay t.id rows (some Status.pending) ≡ some Status.pending
unfolding replay
replay-unreferred t ts [] fresh h = refl
replay-unreferred t ts (row ∷ rows) fresh h = elim (text_eq.dec row.transaction_id t.id) [
  | yes same ↦ absurd (true≢false (sym h.0 ∙ unclashed t row.transaction_id ts fresh same))
  | no differ ↦ rw (if_neg _ differ) (replay-unreferred t ts rows fresh h.1)
]

module _ (p : Transaction → Bool) (f : Transaction → Transaction)
    (same_id : (t : Transaction) → (f t).id ≡ t.id)
    (same_external : (t : Transaction) → (f t).external_id ≡ t.external_id) where
  clashes-update_where :
      (x y : Transaction) (ts : List Transaction)
      → x.id ≡ y.id
      → x.external_id ≡ y.external_id
      → any (clashes y) ts ≡ false
      → any (clashes x) (update_where p f ts) ≡ false
  clashes-update_where x y [] i j h = refl
  clashes-update_where x y (t ∷ ts) i j h =
      ground (arith, same_id t, same_external t, clashes-update_where x y ts i j)

  Distinct-update_where : (ts : List Transaction) → Distinct ts → Distinct (update_where p f ts)
  Distinct-update_where [] h = tt
  Distinct-update_where (t ∷ ts) h = elim (Bool-cases (p t)) [
    | inl e ↦ rw e (
      clashes-update_where (f t) t ts (same_id t) (same_external t) h.0,
      Distinct-update_where ts h.1,
    )
    | inr e ↦ rw e (clashes-update_where t t ts refl refl h.0, Distinct-update_where ts h.1)
  ]

-- The row that a CREATE adds.
pub insert-IsConsistent :
    (t : Transaction) (db : Db)
    → any (clashes t) db.transactions ≡ false
    → t.status ≡ Status.pending
    → IsConsistent db
    → IsConsistent (record db { transactions = db.transactions ++ (t ∷ []) })
insert-IsConsistent t db fresh pending h = record {
  replayed = All-append (Replays db.transitions) db.transactions (t ∷ []) h.replayed (
    replay-unreferred t db.transactions db.transitions fresh h.referred ∙ ap some (sym pending),
    tt,
  );
  referred =
      All-map (Refers db.transactions) (Refers (db.transactions ++ (t ∷ []))) db.transitions
        (λ row r. any-append (has_id row.transaction_id) db.transactions (t ∷ []) r) h.referred;
  distinct = Distinct-snoc t db.transactions fresh h.distinct;
}

module _ (tx_id : Text) (new : Status) (hid : Option Text) (detail : Text) (id now later : ℕ) where
  abbrev pub updated : Status → Db → Db
  updated old db = record db {
    transactions = update_where (has_id tx_id) (set_status new hid detail now) db.transactions;
    transitions = db.transitions ++ (new_transition tx_id old new detail id later ∷ []);
    next_transition = suc db.next_transition;
  }

  hit-Replays :
      (old : Status) (rows : List Transition) (t : Transaction)
      → (is_terminal new && is_terminal old) ≡ false
      → replay tx_id rows (some Status.pending) ≡ some old
      → Replays rows t
      → has_id tx_id t ≡ true
      → Replays
          (rows ++ (new_transition tx_id old new detail id later ∷ []))
          (set_status new hid detail now t)
  hit-Replays old rows t legal at_old h hit = ground (
    arith,
    has_id-eq tx_id t hit,
    replay-snoc t.id rows (new_transition tx_id old new detail id later) t.status h,
  )

  miss-Replays :
      (old : Status) (rows : List Transition) (t : Transaction)
      → Replays rows t
      → has_id tx_id t ≡ false
      → Replays (rows ++ (new_transition tx_id old new detail id later ∷ [])) t
  miss-Replays old rows t h miss =
      ground
        (arith, replay-snoc t.id rows (new_transition tx_id old new detail id later) t.status h)

  -- The rows that `UpdateStatus` writes.
  pub update-IsConsistent :
      (t : Transaction) (db : Db)
      → find_where (has_id tx_id) db.transactions ≡ some t
      → (is_terminal new && is_terminal t.status) ≡ false
      → IsConsistent db
      → IsConsistent (updated t.status db)
  update-IsConsistent t db found legal h = record {
    replayed =
        All-update_where (Replays db.transitions) (Replays (updated t.status db).transitions)
          (has_id tx_id) (set_status new hid detail now) db.transactions
          (λ x r hit. hit-Replays t.status db.transitions x legal at_old r hit)
          (λ x r miss. miss-Replays t.status db.transitions x r miss) h.replayed;
    referred =
        All-append (Refers (updated t.status db).transactions) db.transitions _
          (All-map (Refers db.transactions) (Refers (updated t.status db).transactions)
            db.transitions
            (λ row r.
              any-update_where (has_id tx_id) (set_status new hid detail now) (λ x. refl)
                row.transaction_id db.transactions r)
            h.referred)
          (
            any-update_where (has_id tx_id) (set_status new hid detail now) (λ x. refl) tx_id
                db.transactions (any-found (has_id tx_id) db.transactions t found),
            tt,
          );
    distinct =
        Distinct-update_where (has_id tx_id) (set_status new hid detail now) (λ x. refl) (λ x. refl)
          db.transactions h.distinct;
  }
    where
      at_old : replay tx_id db.transitions (some Status.pending) ≡ some t.status
      at_old =
          subst (λ i. replay i db.transitions (some Status.pending) ≡ some t.status)
            (has_id-eq tx_id t (find_where-passes (has_id tx_id) db.transactions t found))
            (find_where-All (Replays db.transitions) (has_id tx_id) db.transactions t found
              h.replayed)

-- The rows that `MarkChannelUsed` writes: an update that keeps ids and statuses.
pub touch-IsConsistent :
    (p : Transaction → Bool) (f : Transaction → Transaction) (db : Db)
    → ((t : Transaction) → (f t).id ≡ t.id)
    → ((t : Transaction) → (f t).external_id ≡ t.external_id)
    → ((t : Transaction) → (f t).status ≡ t.status)
    → IsConsistent db
    → IsConsistent (record db { transactions = update_where p f db.transactions })
touch-IsConsistent p f db same_id same_external same_status h = record {
  replayed =
      All-update_where (Replays db.transitions) (Replays db.transitions) p f db.transactions
        (λ t r _. rw (same_id t, same_status t) r) (λ t r _. r) h.replayed;
  referred =
      All-map (Refers db.transactions) (Refers (update_where p f db.transactions)) db.transitions
        (λ row r. any-update_where p f same_id row.transaction_id db.transactions r) h.referred;
  distinct = Distinct-update_where p f same_id same_external db.transactions h.distinct;
}
