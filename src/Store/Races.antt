-- ===== src/Store/Races.antt =====
-- Two calls of `UpdateStatus` at the same time. The status is read before the transaction of the
-- database begins, and without a lock.
use tx_submitter.Base.{
  ◌≡◌, suc, ◌≢◌, refl, ◌∙◌, ap, true, false, Option, none, some, List, [], ◌∷◌, ◌++◌, arith,
  find_where, update_where, find_where-All, find_where-passes, ℕ,
}
use tx_submitter.Base.Text.{Text, text_eq}
use tx_submitter.State.{Status, status_eq, is_terminal, Transaction, Transition}
use tx_submitter.Errors.{ok}
use tx_submitter.External.{Env}
use tx_submitter.World.{Db, World}
use tx_submitter.Store.{has_id, set_status, new_transition, read_status, write_status}
use tx_submitter.Store.Consistency.{IsConsistent, replay, replay-append, advance}

module _ (e : Env) (up : (n : ℕ) → e.db_fault n ≡ none) (tx_id : Text) where
  read_status-ok :
      (w : World) (t : Transaction)
      → find_where (has_id tx_id) w.db.transactions ≡ some t
      → ((read_status e tx_id w).0 ≡ ok t.status) × ((read_status e tx_id w).1.db ≡ w.db)
  unfolding read_status
  read_status-ok w t found = ground (arith, up w.calls)

  -- The tables after the writing half of an `UpdateStatus`.
  abbrev written : Status → Status → Text → Option Text → World → Db
  written old new detail hid w = record w.db {
    transactions =
        update_where (has_id tx_id) (set_status new hid detail (e.now w.calls)) w.db.transactions;
    transitions =
        w.db.transitions
        ++ (new_transition tx_id old new detail w.db.next_transition (e.now w.calls) ∷ []);
    next_transition = suc w.db.next_transition;
  }

  write_status-ok :
      (old new : Status) (detail : Text) (hid : Option Text) (w : World)
      → ((write_status e tx_id old new detail hid w).0 ≡ ok tt)
        × ((write_status e tx_id old new detail hid w).1.db ≡ written old new detail hid w)
  unfolding write_status
  write_status-ok old new detail hid w =
      ground
        (arith, up w.calls, up (suc w.calls), up (suc (suc w.calls)), up (suc (suc (suc w.calls))))

pub find_where-update_where :
    (tx_id : Text) (f : Transaction → Transaction) (t : Transaction)
    → ((x : Transaction) → (f x).id ≡ x.id)
    → (ts : List Transaction) → find_where (has_id tx_id) ts ≡ some t
    → find_where (has_id tx_id) (update_where (has_id tx_id) f ts) ≡ some (f t)
find_where-update_where tx_id f t same [] h = cc
find_where-update_where tx_id f t same (x ∷ ts) h =
    ground (arith, same x, find_where-update_where tx_id f t same ts)

advance_twice :
    (start : Option Status) (a b : Transition) (id : Text) (old : Status)
    → a.transaction_id ≡ id
    → b.transaction_id ≡ id
    → a.from_status ≡ some old
    → b.from_status ≡ some old
    → a.to_status ≢ old
    → advance id b (advance id a start) ≡ none
advance_twice none a b id old ha hb fa fb ne = refl
advance_twice (some s) a b id old ha hb fa fb ne = ground arith

-- Two rows of one transaction from the same status, of which the first leads elsewhere, are no
-- history.
replay_twice :
    (rows : List Transition) (start : Option Status) (a b : Transition) (id : Text) (old : Status)
    → a.transaction_id ≡ id
    → b.transaction_id ≡ id
    → a.from_status ≡ some old
    → b.from_status ≡ some old
    → a.to_status ≢ old
    → replay id ((rows ++ (a ∷ [])) ++ (b ∷ [])) start ≡ none
unfolding replay
replay_twice rows start a b id old ha hb fa fb ne =
    replay-append id (rows ++ (a ∷ [])) (b ∷ []) start
    ∙ ap (advance id b) (replay-append id rows (a ∷ []) start)
    ∙ advance_twice (replay id rows start) a b id old ha hb fa fb ne

module _ (e : Env) (up : (n : ℕ) → e.db_fault n ≡ none) (tx_id : Text) (w : World)
    (first second : Status) (detail detail' : Text) (hid hid' : Option Text) where
  -- Both calls read the status, then the first writes, then the second.
  abbrev both_read : World
  both_read = (read_status e tx_id (read_status e tx_id w).1).1

  abbrev first_written : Status → World
  first_written old = (write_status e tx_id old first detail hid both_read).1

  both_read-found :
      (t : Transaction)
      → find_where (has_id tx_id) w.db.transactions ≡ some t
      → find_where (has_id tx_id) both_read.db.transactions ≡ some t
  both_read-found t found =
      let once = (read_status-ok e up tx_id w t found).1 in
      let again : find_where (has_id tx_id) (read_status e tx_id w).1.db.transactions ≡ some t =
        ap (λ d. find_where (has_id tx_id) d.transactions) once ∙ found in
      ap (λ d. find_where (has_id tx_id) d.transactions)
        (read_status-ok e up tx_id (read_status e tx_id w).1 t again).1
      ∙ again

  module _ (t : Transaction) (found : find_where (has_id tx_id) w.db.transactions ≡ some t) where
    abbrev fw : World
    fw = first_written t.status

    abbrev last : Db
    last = (write_status e tx_id t.status second detail' hid' fw).1.db

    abbrev last_row : Transaction
    last_row =
        set_status second hid' detail' (e.now fw.calls)
          (set_status first hid detail (e.now both_read.calls) t)

    last-found : find_where (has_id tx_id) last.transactions ≡ some last_row
    last-found =
        ap (λ d. find_where (has_id tx_id) d.transactions)
          (write_status-ok e up tx_id t.status second detail' hid' fw).1
        ∙ find_where-update_where tx_id (set_status second hid' detail' (e.now fw.calls)) _
            (λ x. refl) fw.db.transactions
            (ap (λ d. find_where (has_id tx_id) d.transactions)
                (write_status-ok e up tx_id t.status first detail hid both_read).1
              ∙ find_where-update_where tx_id (set_status first hid detail (e.now both_read.calls))
                  t (λ x. refl) both_read.db.transactions (both_read-found t found))

    last-transitions :
        last.transitions
        ≡ (both_read.db.transitions
            ++ (new_transition tx_id t.status first detail both_read.db.next_transition
                  (e.now both_read.calls)
                ∷ []))
          ++ (new_transition tx_id t.status second detail' fw.db.next_transition (e.now fw.calls)
              ∷ [])
    last-transitions =
        ap (λ d. d.transitions) (write_status-ok e up tx_id t.status second detail' hid' fw).1
        ∙ ap
            (λ rows.
              rows
              ++ (new_transition tx_id t.status second detail' fw.db.next_transition
                    (e.now fw.calls)
                  ∷ []))
            (ap (λ d. d.transitions)
              (write_status-ok e up tx_id t.status first detail hid both_read).1)

    last-not_replayed :
        first ≢ t.status → replay tx_id last.transitions (some Status.pending) ≡ none
    last-not_replayed ne =
        ap (λ rows. replay tx_id rows (some Status.pending)) last-transitions
        ∙ replay_twice both_read.db.transitions (some Status.pending) _ _ tx_id t.status refl refl
            refl refl ne

  -- Two calls of `UpdateStatus` for a row that is not terminal, the first of them to a terminal
  -- status, that both read before either writes: if every call of the database goes through, both
  -- return nil and the tables are not consistent afterwards, whatever status the second writes.
  pub update_status_race :
      (t : Transaction)
      → find_where (has_id tx_id) w.db.transactions ≡ some t
      → is_terminal t.status ≡ false
      → is_terminal first ≡ true
      → ((read_status e tx_id w).0 ≡ ok t.status)
        × ((read_status e tx_id (read_status e tx_id w).1).0 ≡ ok t.status)
        × ((write_status e tx_id t.status first detail hid both_read).0 ≡ ok tt)
        × ((write_status e tx_id t.status second detail' hid' (first_written t.status)).0 ≡ ok tt)
        × ¬ IsConsistent
            (write_status e tx_id t.status second detail' hid' (first_written t.status)).1.db
  update_status_race t found running end = (
    (read_status-ok e up tx_id w t found).0,
    (read_status-ok e up tx_id (read_status e tx_id w).1 t (
        ap (λ d. find_where (has_id tx_id) d.transactions) (read_status-ok e up tx_id w t found).1
        ∙ found)).0,
    (write_status-ok e up tx_id t.status first detail hid both_read).0,
    (write_status-ok e up tx_id t.status second detail' hid' (fw t found)).0,
    λ h. ground (
      arith,
      find_where-All _ (has_id tx_id) (last t found).transactions (last_row t found)
          (last-found t found) h.replayed,
      last-not_replayed t found (λ same. ground arith),
      find_where-passes (has_id tx_id) w.db.transactions t found,
    ),
  )
