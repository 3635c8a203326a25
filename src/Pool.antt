-- ===== src/Pool.antt =====
-- internal/channelaccount/pool.go: the pool of channel accounts over the store.
pub mod Provision
pub mod Secrets
pub mod Exclusive
pub mod Sessions
use tx_submitter.Base.{ℕ, Bool, true, List, [], ◌∷◌, ◌++◌, map, length}
use tx_submitter.Base.Int.{ℤ}
use tx_submitter.Base.Text.{Text, codes}
use tx_submitter.State.{ChannelAccount}
use tx_submitter.Errors.{Error, wrap}
use tx_submitter.External.{Env}
use tx_submitter.World.{Action, ◌>>=◌, ◌>>◌, pure, annotate}
use tx_submitter.Store.Accounts.{
  acquire_channel_account, release_channel_account, unlock_all_channel_accounts,
  create_channel_account, list_channel_accounts, update_channel_account_seq,
  deactivate_channel_account,
}

-- `LastUsed` is never set: it is left out.
pub record AccountInfo : Type 0 where
  pub public_key : Text
  pub current_seq : ℤ
  pub is_active : Bool

abbrev pub account_info : ChannelAccount → AccountInfo
account_info ca = record {
  public_key = ca.public_key;
  current_seq = ca.current_seq;
  is_active = ca.is_active;
}

module _ (e : Env) where
  unfoldable pub acquire : Action ChannelAccount
  acquire = annotate (wrap (codes "acquiring channel account")) (acquire_channel_account e)

  unfoldable pub release : Text → Action (Unit {0})
  release public_key =
      annotate (wrap (codes "releasing channel account " ++ public_key))
        (release_channel_account e public_key)

  unfoldable pub reset_locks : Action (Unit {0})
  reset_locks = unlock_all_channel_accounts e

  unfoldable pub refresh_sequence : Text → ℤ → Action (Unit {0})
  refresh_sequence public_key new_seq = update_channel_account_seq e public_key new_seq

  unfoldable pub pool_size : Action ℕ
  pool_size = do accounts ← list_channel_accounts e true; pure (length accounts)

  unfoldable pub add_account : Text → Action ChannelAccount
  add_account secret_key = create_channel_account e secret_key

  unfoldable pub remove_account : Text → Action (Unit {0})
  remove_account public_key = deactivate_channel_account e public_key

  unfoldable pub init_pool : List Text → Action (Unit {0})
  init_pool [] = pure tt
  init_pool (sk ∷ secret_keys) = do
    annotate (wrap (codes "seeding channel account")) (add_account sk)
    init_pool secret_keys

  unfoldable pub list_active : Action (List AccountInfo)
  list_active = do accounts ← list_channel_accounts e true; pure (map account_info accounts)
