-- ===== src/Store/Writers.antt =====
-- `UpdateStatus` of the one engine while the HTTP handlers call `CreateTransaction`: between the read
-- of the status and the transaction that writes it, any calls of the others may come.
use tx_submitter.Base.{
  ◌≡◌, refl, sym, subst, ◌∙◌, ap, ◌&&◌, false, Option, none, some, List, [], ◌∷◌, ◌++◌, arith, inl,
  inr, ◌⊎◌, Bool-cases, Option-cases, find_where,
}
use tx_submitter.Base.Text.{Text, text_eq}
use tx_submitter.State.{Status, status_eq, is_terminal, Transaction, NewTransactionParams}
use tx_submitter.Errors.{ok}
use tx_submitter.External.{Env}
use tx_submitter.World.{Db, World}
use tx_submitter.World.Keeps.{Keeps, Keeps-intro, Keeps-run, Keeps-statement}
use tx_submitter.Store.{
  has_id, is_pending, read_status, write_status, create_transaction, mark_channel_used,
}
use tx_submitter.Store.Updates.{create_transaction_cases, create_transaction_impossible}
use tx_submitter.Store.Ledger.{find-change}
use tx_submitter.Store.Consistency.{IsConsistent, update-IsConsistent, updated}
use tx_submitter.Store.Histories.{create_transaction-IsConsistent, mark_channel_used-IsConsistent}

-- The tables, and the id and the status that an `UpdateStatus` has read and not yet written.
pub record Underway : Type 0 where
  pub world : World
  pub held : Option (Text × Status)

pub data Turn (e : Env) (s : Underway) : Underway → Type 0 where
  -- The two halves of `UpdateStatus`, and its refusal in between.
  read :
      (id : Text) (old : Status)
      → s.held ≡ none
      → (read_status e id s.world).0 ≡ ok old
      → Turn e s (record { world = (read_status e id s.world).1; held = some (id, old) })
  write :
      (id : Text) (old new : Status) (detail : Text) (hid : Option Text)
      → s.held ≡ some (id, old)
      → (is_terminal new && is_terminal old) ≡ false
      → Turn e s (record { world = (write_status e id old new detail hid s.world).1; held = none })
  refuse : Turn e s (record s { held = none })
  -- A read that fails, a call on the channel accounts, a query: the tables of transactions stay.
  elsewhere :
      (w : World)
      → w.db.transactions ≡ s.world.db.transactions
      → w.db.transitions ≡ s.world.db.transitions
      → Turn e s (record s { world = w })
  create :
      (p : NewTransactionParams)
      → Turn e s (record s { world = (create_transaction e p s.world).1 })
  mark :
      (id channel : Text)
      → Turn e s (record s { world = (mark_channel_used e id channel s.world).1 })

-- What is reached from tables with no update under way.
pub data Turns (e : Env) (w : World) : Underway → Type 0 where
  at_rest : Turns e w (record { world = w; held = none })
  later : {s t : Underway} → Turns e w s → Turn e s t → Turns e w t

-- The row is there, with the status that was read.
abbrev StillAt : Text → Status → Db → Type 0
StillAt id old db =
    (t : Transaction) × (find_where (has_id id) db.transactions ≡ some t) × (t.status ≡ old)

abbrev pub Holds : Option (Text × Status) → Db → Type 0
Holds none db = Unit
Holds (some (id, old)) db = StillAt id old db

find-append :
    (id : Text) (ts more : List Transaction) (t : Transaction)
    → find_where (has_id id) ts ≡ some t
    → find_where (has_id id) (ts ++ more) ≡ some t
find-append id [] more t found = cc
find-append id (x ∷ ts) more t found = ground (arith, find-append id ts more t)

module _ (e : Env) where
  create-StillAt :
      (id : Text) (old : Status) (p : NewTransactionParams)
      → Keeps (StillAt id old) (create_transaction e p)
  create-StillAt id old p = Keeps-intro (StillAt id old) _ λ w (t, found, same).
      elim (Option-cases e.schema.channel_account_default) [
        | inl no_default ↦ rw ((create_transaction_impossible e p w no_default).0) (t, found, same)
        | inr (channel, default) ↦ elim (create_transaction_cases e p w channel default) [
          | inl kept ↦ rw kept (t, found, same)
          | inr (fresh, inserted) ↦
              rw inserted (t, find-append id w.db.transactions _ t found, same)
        ]
      ]

  mark-StillAt :
      (id : Text) (old : Status) (other channel : Text)
      → Keeps (StillAt id old) (mark_channel_used e other channel)
  unfolding mark_channel_used
  mark-StillAt id old other channel = Keeps-statement (StillAt id old) e _ λ n db (t, found, same).
      elim (Bool-cases (has_id other t && is_pending t)) [
        | inl hit ↦ (
          record t { channel_account = channel; updated_at = e.now n },
          find-change (has_id id) _ _ (λ x. refl) db.transactions ∙ ground arith,
          same,
        )
        | inr miss ↦
            (t, find-change (has_id id) _ _ (λ x. refl) db.transactions ∙ ground arith, same)
      ]

  read-StillAt :
      (id : Text) (old : Status) (w : World)
      → (read_status e id w).0 ≡ ok old
      → ((read_status e id w).1.db ≡ w.db) × StillAt id old w.db
  unfolding read_status
  read-StillAt id old w got = elim (Option-cases (find_where (has_id id) w.db.transactions)) [
    | inl gone ↦ absurd (ground arith)
    | inr (t, found) ↦ (ground arith, (t, found, ground arith))
  ]

  write_cases :
      (id : Text) (old new : Status) (detail : Text) (hid : Option Text) (w : World)
      → ((write_status e id old new detail hid w).1.db ≡ w.db)
        ⊎ ((write_status e id old new detail hid w).1.db
            ≡ updated id new hid detail w.db.next_transition
                (e.now w.calls)
                (e.now w.calls)
                old
                w.db)
  unfolding write_status
  write_cases id old new detail hid w = ground arith

  create-Holds :
      (held : Option (Text × Status)) (p : NewTransactionParams)
      → Keeps (Holds held) (create_transaction e p)
  create-Holds none p = Keeps-intro (Holds none) _ λ w h. tt
  create-Holds (some (id, old)) p = create-StillAt id old p

  mark-Holds :
      (held : Option (Text × Status)) (other channel : Text)
      → Keeps (Holds held) (mark_channel_used e other channel)
  mark-Holds none other channel = Keeps-intro (Holds none) _ λ w h. tt
  mark-Holds (some (id, old)) other channel = mark-StillAt id old other channel

  same-Holds :
      (held : Option (Text × Status)) (db db' : Db)
      → db'.transactions ≡ db.transactions
      → Holds held db
      → Holds held db'
  same-Holds none db db' same h = tt
  same-Holds (some (id, old)) db db' same (t, found, at_old) =
      (t, ap (find_where (has_id id)) same ∙ found, at_old)

  same-IsConsistent :
      (db db' : Db)
      → db'.transactions ≡ db.transactions
      → db'.transitions ≡ db.transitions
      → IsConsistent db
      → IsConsistent db'
  same-IsConsistent db db' ts rows c = record {
    replayed = rw (ts, rows) c.replayed;
    referred = rw (ts, rows) c.referred;
    distinct = rw ts c.distinct;
  }

  abbrev Sound : Underway → Type 0
  Sound s = IsConsistent s.world.db × Holds s.held s.world.db

  Turn-Sound : {s t : Underway} → Turn e s t → Sound s → Sound t
  Turn-Sound {s} (read id old idle got) (c, h) =
      let (kept, there) = read-StillAt id old s.world got in rw kept (c, there)
  Turn-Sound {s} (write id old new detail hid held legal) (c, h) =
      elim (write_cases id old new detail hid s.world) [
        | inl kept ↦ (rw kept c, tt)
        | inr written ↦
            let (t, found, same) = subst (λ x. Holds x s.world.db) held h in
            (
              rw written (
                  subst
                    (λ x. IsConsistent (
                      updated id new hid detail s.world.db.next_transition (e.now s.world.calls)
                        (e.now s.world.calls) x s.world.db))
                    same
                    (update-IsConsistent id new hid detail s.world.db.next_transition
                      (e.now s.world.calls) (e.now s.world.calls) t s.world.db found
                      (subst (λ x. (is_terminal new && is_terminal x) ≡ false) (sym same) legal)
                      c)),
              tt,
            )
      ]
  Turn-Sound {s} refuse (c, h) = (c, tt)
  Turn-Sound {s} (elsewhere w ts rows) (c, h) =
      (same-IsConsistent s.world.db w.db ts rows c, same-Holds s.held s.world.db w.db ts h)
  Turn-Sound {s} (create p) (c, h) = (
    Keeps-run IsConsistent _ (create_transaction-IsConsistent e p) s.world c,
    Keeps-run (Holds s.held) _ (create-Holds s.held p) s.world h,
  )
  Turn-Sound {s} (mark id channel) (c, h) = (
    Keeps-run IsConsistent _ (mark_channel_used-IsConsistent e id channel) s.world c,
    Keeps-run (Holds s.held) _ (mark-Holds s.held id channel) s.world h,
  )

  -- One `UpdateStatus` at a time, interleaved in any order with calls of `CreateTransaction` and
  -- `MarkChannelUsed` and with what leaves the tables of transactions alone: from consistent tables
  -- the tables stay consistent, also between its read and its write, and while it holds a status
  -- that it has read, the row still has that status.
  pub writers-IsConsistent :
      (w : World) {s : Underway}
      → Turns e w s
      → IsConsistent w.db
      → IsConsistent s.world.db × Holds s.held s.world.db
  writers-IsConsistent w at_rest c = (c, tt)
  writers-IsConsistent w (later run step) c = Turn-Sound step (writers-IsConsistent w run c)
