-- ===== src/Store/Accounts.antt =====
-- internal/state/store.go: the operations of `txStore` on the pool of channel accounts. Row locks
-- (FOR UPDATE SKIP LOCKED) matter between concurrent callers only: Pool/Sessions has them.
use tx_submitter.Base.{
  ℕ, Bool, true, false, Option, none, some, List, [], ◌∷◌, ◌++◌, if◌then◌else◌, ◌==◌, where_,
  update_where, find_where, order_by, any,
}
use tx_submitter.Base.Int.{ℤ, pos, add64, leb_ℤ}
use tx_submitter.Base.Text.{Text, text_eq, codes}
use tx_submitter.State.{ChannelAccount}
use tx_submitter.Errors.{Error, Result, ok, err}
use tx_submitter.External.{Env}
use tx_submitter.World.{Db, Action, ◌>>=◌, ◌>>◌, pure, lift, annotate, statement, rollback_on_error}

abbrev pub is_available : ChannelAccount → Bool
is_available ca = elim ca.locked_at [ none ↦ ca.is_active | some _ ↦ false ]

abbrev lower_seq : ChannelAccount → Option ChannelAccount → Option ChannelAccount
lower_seq ca none = some ca
lower_seq ca (some best) = if leb_ℤ ca.current_seq best.current_seq then some ca else some best

-- `acquireChannelAccountSQL`: of the available rows one with the least current_seq, the first of
-- these in the table.
unfoldable pub least_used : List ChannelAccount → Option ChannelAccount
least_used [] = none
least_used (ca ∷ rest) =
    let best = least_used rest in if is_available ca then lower_seq ca best else best

abbrev pub has_key : Text → ChannelAccount → Bool
has_key public_key ca = ca.public_key == public_key

abbrev pub on_accounts : (List ChannelAccount → List ChannelAccount) → Db → Db
on_accounts f db = record db { accounts = f db.accounts }

abbrev pub lock : ℤ → ℕ → ChannelAccount → ChannelAccount
lock seq now ca = record ca { current_seq = seq; locked_at = some now }

abbrev pub unlock : ChannelAccount → ChannelAccount
unlock ca = record ca { locked_at = none }

-- How `AcquireChannelAccount` hands on an error of its query.
abbrev acquire_error : Error → Error
acquire_error Error.no_rows = Error.no_channel_accounts
acquire_error other = Error.wrap (codes "selecting channel account") other

abbrev selected : Option ChannelAccount → Result ChannelAccount
selected none = err Error.no_rows
selected (some ca) = ok ca

abbrev pub new_account : Env → Text → Text → ℕ → ChannelAccount
new_account e secret_key public_key n = record {
  id = e.gen_random_uuid n;
  secret_key = secret_key;
  public_key = public_key;
  current_seq = pos 0;
  is_active = true;
  locked_at = none;
  created_at = e.now n;
}

abbrev pub insert_account : Env → ChannelAccount → Db → Result ChannelAccount × Db
insert_account e ca db =
    if any (λ a. a.id == ca.id) db.accounts
    then (err (Error.external e.unique_violation), db)
    else (ok ca, on_accounts (λ accounts. accounts ++ (ca ∷ [])) db)

-- `createChannelAccountSQL`: ON CONFLICT (public_key) only the secret is written.
abbrev pub upsert_account : Env → Text → Text → ℕ → Db → Result ChannelAccount × Db
upsert_account e secret_key public_key n db = elim (find_where (has_key public_key) db.accounts) [
  | none ↦ insert_account e (new_account e secret_key public_key n) db
  | some ca ↦ (
    ok (record ca { secret_key = secret_key }),
    on_accounts (update_where (has_key public_key) (λ a. record a { secret_key = secret_key })) db,
  )
]

module _ (e : Env) where
  unfoldable pub acquire_channel_account : Action ChannelAccount
  acquire_channel_account = do
    began ←
        annotate (Error.wrap (codes "beginning acquire transaction"))
          (statement e λ n db. (ok n, db))
    rollback_on_error (do
      ca ← annotate acquire_error (statement e λ n db. (selected (least_used db.accounts), db))
      annotate (Error.wrap (codes "locking channel account")) (
          statement e λ n db. (
            ok tt,
            on_accounts
                (update_where (has_key ca.public_key)
                  (lock (add64 ca.current_seq (pos 1)) (e.now began)))
                db,
          ))
      annotate (Error.wrap (codes "committing acquire")) (statement e λ n db. (ok tt, db))
      pure (record ca { current_seq = add64 ca.current_seq (pos 1) }))

  unfoldable pub release_channel_account : Text → Action (Unit {0})
  release_channel_account public_key =
      statement e λ n db. (ok tt, on_accounts (update_where (has_key public_key) unlock) db)

  abbrev pub is_locked : ChannelAccount → Bool
  is_locked ca = elim ca.locked_at [ none ↦ false | some _ ↦ true ]

  unfoldable pub unlock_all_channel_accounts : Action (Unit {0})
  unlock_all_channel_accounts =
      statement e λ n db. (ok tt, on_accounts (update_where is_locked unlock) db)

  unfoldable pub create_channel_account : Text → Action ChannelAccount
  create_channel_account secret_key = do
    kp ←
        annotate (Error.wrap (codes "invalid channel account secret"))
          (lift (e.parse_full secret_key))
    statement e (upsert_account e secret_key kp.address)

  -- The rows of `listChannelAccountsSQL`.
  abbrev pub listed_accounts : Bool → Db → List ChannelAccount
  listed_accounts active_only db =
      order_by (λ ca. ca.created_at)
        (where_ (λ ca. if active_only then ca.is_active else true) db.accounts)

  unfoldable pub list_channel_accounts : Bool → Action (List ChannelAccount)
  list_channel_accounts active_only = statement e λ n db. (ok (listed_accounts active_only db), db)

  unfoldable pub update_channel_account_seq : Text → ℤ → Action (Unit {0})
  update_channel_account_seq public_key seq = statement e λ n db. (
    ok tt,
    on_accounts (update_where (has_key public_key) (λ ca. record ca { current_seq = seq })) db,
  )

  unfoldable pub deactivate_channel_account : Text → Action (Unit {0})
  deactivate_channel_account public_key = statement e λ n db. (
    ok tt,
    on_accounts (update_where (has_key public_key) (λ ca. record ca { is_active = false })) db,
  )
