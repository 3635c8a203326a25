-- ===== src/Pool/Sessions/Runs.antt =====
-- A call of `AcquireChannelAccount` as steps of a session.
use tx_submitter.Base.{
  ℕ, ◌≡◌, refl, sym, ap, ◌∙◌, some, List, [], ◌∷◌, arith, update_where, inl, inr, Option-cases,
}
use tx_submitter.Base.Int.{pos, add64}
use tx_submitter.Base.Text.{text_eq}
use tx_submitter.State.{ChannelAccount}
use tx_submitter.Errors.{ok}
use tx_submitter.External.{Env}
use tx_submitter.World.{Db, World}
use tx_submitter.Store.Accounts.{least_used, has_key, lock, on_accounts, acquire_channel_account}
use tx_submitter.Store.Leases.{acquire_found, acquire_none}
use tx_submitter.Pool.Sessions.{
  Session, idle, selected, holding, System, select, commit, Reach, later, goes, visible, next_seq,
  unlock_row,
}

visible-nil : (cas : List ChannelAccount) → visible [] cas ≡ cas
visible-nil [] = refl
visible-nil (x ∷ cas) = ap (λ rest. x ∷ rest) (visible-nil cas)

goes_same : (session : ℕ → Session) (i : ℕ) (p : Session) → goes session i p i ≡ p
goes_same session i p = ground arith

abbrev selects : System → ℕ → ChannelAccount → System
selects s i ca = record {
  db = s.db;
  row_locks = ca.public_key ∷ s.row_locks;
  session = goes s.session i (selected ca);
}

abbrev commits : System → ℕ → ℕ → ChannelAccount → System
commits s i now ca = record {
  db =
      on_accounts (update_where (has_key ca.public_key) (lock (add64 ca.current_seq (pos 1)) now))
        s.db;
  row_locks = unlock_row ca.public_key s.row_locks;
  session = goes s.session i (holding (next_seq ca));
}

steps :
    (e : Env) (db : Db) (s : System) (i now : ℕ) (ca : ChannelAccount)
    → Reach e db s
    → s.session i ≡ idle
    → least_used (visible s.row_locks s.db.accounts) ≡ some ca
    → Reach e db (commits (selects s i ca) i now ca)
steps e db s i now ca r out found =
    later (later r (select i ca out found)) (commit i now ca (goes_same s.session i (selected ca)))

-- A call of `AcquireChannelAccount` that runs alone and returns an account is a run of a session's
-- steps: from a reachable system with the same tables, no row lock and that session idle, a system
-- is reached with the tables after the call, in which the session holds the account.
pub acquire-Reach :
    (e : Env) (db : Db) (s : System) (w : World) (i : ℕ) (a : ChannelAccount)
    → Reach e db s
    → s.db ≡ w.db
    → s.row_locks ≡ []
    → s.session i ≡ idle
    → (acquire_channel_account e w).0 ≡ ok a
    → (t : System) × Reach e db t
      × (t.db ≡ (acquire_channel_account e w).1.db)
      × (t.session i ≡ holding a)
acquire-Reach e db s w i a r same unlocked out got =
    elim (Option-cases (least_used w.db.accounts)) [
      | inl empty ↦ absurd (ground (arith, acquire_none e w empty))
      | inr (ca, found) ↦ elim (acquire_found e w ca found) [
        | inl failed ↦ absurd (ground arith)
        | inr taken ↦ (
          commits (selects s i ca) i (e.now w.calls) ca,
          steps e db s i (e.now w.calls) ca r out (seen ca found),
          ap
                (λ d.
                  on_accounts
                    (update_where (has_key ca.public_key)
                      (lock (add64 ca.current_seq (pos 1)) (e.now w.calls)))
                    d)
                same
              ∙ sym taken.1,
          goes_same (goes s.session i (selected ca)) i (holding (next_seq ca))
              ∙ ap holding (ground arith),
        )
      ]
    ]
  where
    seen :
        (ca : ChannelAccount)
        → least_used w.db.accounts ≡ some ca
        → least_used (visible s.row_locks s.db.accounts) ≡ some ca
    seen ca found =
        ap (λ keys. least_used (visible keys s.db.accounts)) unlocked
        ∙ ap least_used (visible-nil s.db.accounts)
        ∙ ap (λ d. least_used d.accounts) same
        ∙ found
