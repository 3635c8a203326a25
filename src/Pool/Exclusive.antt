-- ===== src/Pool/Exclusive.antt =====
-- Two callers of the pool: what one of them holds, the other does not get.
use tx_submitter.Base.{◌≡◌, ◌≢◌, List, [], ◌∷◌, arith}
use tx_submitter.Base.Int.{ℤ}
use tx_submitter.Base.Text.{Text}
use tx_submitter.State.{ChannelAccount}
use tx_submitter.Errors.{ok}
use tx_submitter.External.{Env}
use tx_submitter.World.{World}
use tx_submitter.World.Keeps.{Keeps-run}
use tx_submitter.Store.Accounts.{acquire_channel_account}
use tx_submitter.Store.Exclusion.{
  IsHeld, release-IsHeld, set_seq-IsHeld, deactivate-IsHeld, create-IsHeld, acquire-IsHeld,
  acquire_holds, acquire_skips_held,
}
use tx_submitter.Pool.{acquire, release, refresh_sequence, add_account, remove_account}

-- A call of the pool by anybody.
pub data Call : Type 0 where
  acquires : Call
  releases adds removes : Text → Call
  refreshes : Text → ℤ → Call

unfoldable pub perform : Env → Call → World → World
perform e acquires w = (acquire e w).1
perform e (releases k) w = (release e k w).1
perform e (adds secret) w = (add_account e secret w).1
perform e (removes k) w = (remove_account e k w).1
perform e (refreshes k seq) w = (refresh_sequence e k seq w).1

unfoldable pub perform_all : Env → List Call → World → World
perform_all e [] w = w
perform_all e (c ∷ cs) w = perform_all e cs (perform e c w)

-- No call of the list releases the key.
abbrev pub NeverReleases : Text → List Call → Type 0
NeverReleases k [] = Unit
NeverReleases k (releases j ∷ cs) = (j ≢ k) × NeverReleases k cs
NeverReleases k (c ∷ cs) = NeverReleases k cs

module _ (e : Env) (k : Text) where
  perform_all-IsHeld :
      (cs : List Call) (w : World)
      → NeverReleases k cs
      → IsHeld k w.db
      → IsHeld k (perform_all e cs w).db
  unfolding perform_all perform acquire release refresh_sequence add_account remove_account
  perform_all-IsHeld [] w never h = h
  perform_all-IsHeld (acquires ∷ cs) w never h =
      perform_all-IsHeld cs _ never (Keeps-run (IsHeld k) _ (acquire-IsHeld e k) w h)
  perform_all-IsHeld (releases j ∷ cs) w never h =
      perform_all-IsHeld cs _ never.1 (Keeps-run (IsHeld k) _ (release-IsHeld e k j never.0) w h)
  perform_all-IsHeld (adds secret ∷ cs) w never h =
      perform_all-IsHeld cs _ never (Keeps-run (IsHeld k) _ (create-IsHeld e k secret) w h)
  perform_all-IsHeld (removes j ∷ cs) w never h =
      perform_all-IsHeld cs _ never (Keeps-run (IsHeld k) _ (deactivate-IsHeld e k j) w h)
  perform_all-IsHeld (refreshes j seq ∷ cs) w never h =
      perform_all-IsHeld cs _ never (Keeps-run (IsHeld k) _ (set_seq-IsHeld e k j seq) w h)

module _ (e : Env) where
  acquire-ok :
      (w : World) (a : ChannelAccount)
      → (acquire e w).0 ≡ ok a
      → (acquire_channel_account e w).0 ≡ ok a
  unfolding acquire
  acquire-ok w a h = ground arith

  -- If `Acquire` returns an account a, and after any later calls of `Acquire`, `Release`,
  -- `AddAccount`, `RemoveAccount` and `RefreshSequence`, none of which releases the key of a,
  -- `Acquire` returns an account b, then b has another key than a. The calls run one after the
  -- other; each may fail at any call of the driver.
  pub acquire_exclusive :
      (w : World) (a b : ChannelAccount) (cs : List Call)
      → (acquire e w).0 ≡ ok a
      → NeverReleases a.public_key cs
      → (acquire e (perform_all e cs (acquire e w).1)).0 ≡ ok b
      → b.public_key ≢ a.public_key
  acquire_exclusive w a b cs got never later =
      acquire_skips_held e _ a.public_key b
        (perform_all-IsHeld e a.public_key cs (acquire e w).1 never held) (acquire-ok _ b later)
    where
      held : IsHeld a.public_key (acquire e w).1.db
      held = unfold acquire in acquire_holds e w a (acquire-ok w a got)
