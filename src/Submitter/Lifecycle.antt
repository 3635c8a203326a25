-- ===== src/Submitter/Lifecycle.antt =====
-- The life of a transaction in the engine: the statuses that it goes through.
use tx_submitter.Base.{
  suc, ◌≡◌, refl, sym, subst, Bool, ◌&&◌, Option, some, List, [], ◌∷◌, arith, if◌then◌else◌,
  find_where, update_where,
}
use tx_submitter.Base.Text.{Text, text_eq}
use tx_submitter.State.{Status, Transaction}
use tx_submitter.External.{Env}
use tx_submitter.World.{Db}
use tx_submitter.World.Keeps.{Keeps, Keeps-statement}
use tx_submitter.World.Ensures
use tx_submitter.World.Ensures.{Ensures}
use tx_submitter.Store.{has_id, is_pending, set_status, update_status, mark_channel_used}
use tx_submitter.Store.Updates.{update_status_ok, update_status_atomic}
use tx_submitter.Store.Races.{find_where-update_where}

infix 40 ◌⟶◌ ◌⟶*◌
pub data ◌⟶◌ : Status → Status → Type 0 where
  accept : Status.pending ⟶ Status.submitted
  refuse : Status.pending ⟶ Status.failed
  exhaust : Status.pending ⟶ Status.dead_letter
  settle : Status.submitted ⟶ Status.confirmed
  abandon : Status.submitted ⟶ Status.failed

pub data ◌⟶*◌ : Status → Status → Type 0 where
  here : {s : Status} → s ⟶* s
  after : {s t u : Status} → s ⟶ t → t ⟶* u → s ⟶* u

pub ⟶*-trans : {s t u : Status} → s ⟶* t → t ⟶* u → s ⟶* u
⟶*-trans here b = b
⟶*-trans (after st a) b = after st (⟶*-trans a b)

-- The transaction is there, with that status; or with one that is reached from it.
abbrev pub At : Text → Status → Db → Type 0
At id s db = (t : Transaction) × (find_where (has_id id) db.transactions ≡ some t) × (t.status ≡ s)

abbrev pub Reached : Text → Status → Db → Type 0
Reached id s db =
    (t : Transaction) × (find_where (has_id id) db.transactions ≡ some t) × (s ⟶* t.status)

pub At-Reached : (id : Text) (s u : Status) (db : Db) → s ⟶* u → At id u db → Reached id s db
At-Reached id s u db path (t, found, same) = (t, found, subst (λ x. s ⟶* x) (sym same) path)

pub find_where-update_where_if :
    (id : Text) (p : Transaction → Bool) (f : Transaction → Transaction) (t : Transaction)
    → ((x : Transaction) → (f x).id ≡ x.id)
    → (ts : List Transaction) → find_where (has_id id) ts ≡ some t
    → find_where (has_id id) (update_where p f ts) ≡ some (if p t then f t else t)
find_where-update_where_if id p f t same [] h = cc
find_where-update_where_if id p f t same (x ∷ ts) h =
    ground (arith, same x, find_where-update_where_if id p f t same ts)

module _ (e : Env) (id : Text) where
  -- A step that the guard lets through is taken, or the row stays as it is.
  pub update_status-At :
      (s new : Status) (detail : Text) (hid : Option Text)
      → Ensures (At id s) (update_status e id new detail hid) (λ _. At id new) (At id s)
  update_status-At s new detail hid =
      Ensures.Ensures-cases (At id s) _ (λ _. At id new) (At id s)
        (λ w a h got.
          let (t, found, legal, written) = update_status_ok e id new detail hid w got in
          (
            set_status new hid detail (e.now (suc w.calls)) t,
            rw written (
                find_where-update_where id (set_status new hid detail (e.now (suc w.calls))) t
                  (λ x. refl) w.db.transactions found),
            refl,
          ))
        (λ w x h got. subst (At id s) (sym (update_status_atomic e id new detail hid w x got)) h)

  pub mark_channel_used-At : (s : Status) (k : Text) → Keeps (At id s) (mark_channel_used e id k)
  unfolding mark_channel_used
  mark_channel_used-At s k = Keeps-statement (At id s) e _ λ n db (t, found, same). (
    (if has_id id t && is_pending t
        then record t { channel_account = k; updated_at = e.now n }
        else t),
    find_where-update_where_if id (λ x. has_id id x && is_pending x)
        (λ x. record x { channel_account = k; updated_at = e.now n }) t (λ x. refl) db.transactions
        found,
    ground arith,
  )
