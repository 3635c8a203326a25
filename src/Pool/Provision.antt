-- ===== src/Pool/Provision.antt =====
-- internal/channelaccount/provision.go: new channel accounts on the network, and the sequences of
-- the stored ones.
pub mod Keys
pub mod Size
pub mod Sequences
use tx_submitter.Base.{ℕ, zero, suc, ◌-◌, true, none, List, [], ◌∷◌, ◌++◌, map, if◌then◌else◌}
use tx_submitter.Base.Int.{ℤ, pos, negsuc, pos_part, leb_ℤ, ◌-ℤ◌, mul64}
use tx_submitter.Base.Text.{Text, codes, decimal}
use tx_submitter.Errors.{wrap, Result, ok, err}
use tx_submitter.External.{Env, KeyPair, Operation, TransactionParams}
use tx_submitter.World.{Action, Event, ◌>>=◌, ◌>>◌, pure, annotate, attempt, lift, ask, emit}
use tx_submitter.Pool.{AccountInfo}
use tx_submitter.Pool

pub record Provisioner : Type 0 where
  pub network_pass : Text
  pub distribution_kp : KeyPair

-- `txnbuild.MinBaseFee`
abbrev pub min_base_fee : ℕ
min_base_fee = 100

module _ (e : Env) where
  unfoldable pub new_provisioner : Text → Text → Result Provisioner
  new_provisioner network_pass distribution_secret = elim (e.parse_full distribution_secret) [
    | err er ↦ err (wrap (codes "parsing distribution key") er)
    | ok kp ↦ ok (record { network_pass = network_pass; distribution_kp = kp })
  ]

  -- The loop that generates key pairs i, i + 1, …, `rounds` of them.
  unfoldable pub generate_keys : ℕ → ℕ → Action (List KeyPair)
  generate_keys zero i = pure []
  generate_keys (suc rounds) i = do
    kp ← annotate (wrap (codes "generating keypair " ++ decimal i)) (ask e.random_key)
    rest ← generate_keys rounds (suc i)
    pure (kp ∷ rest)

  abbrev pub provision_params : Provisioner → ℤ → Text → ℕ → List KeyPair → TransactionParams
  provision_params p sequence starting_balance count keys = record {
    source_account = p.distribution_kp.address;
    sequence = sequence;
    increment_sequence = true;
    operations = map (λ kp. Operation.create_account kp.address starting_balance) keys;
    base_fee = mul64 (pos min_base_fee) (pos count);
    timeout = 300;
    max_ledger = none;
  }

  -- With a positive count.
  unfoldable pub provision_some : Provisioner → ℕ → Text → Action (List Text)
  unfolding generate_keys
  provision_some p count starting_balance = do
    sequence ←
        annotate (wrap (codes "fetching distribution account"))
          (ask λ n. e.account_detail n p.distribution_kp.address)
    keys ← generate_keys count 0
    built ←
        annotate (wrap (codes "building provision transaction"))
          (lift (e.new_transaction (provision_params p sequence starting_balance count keys)))
    signed ←
        annotate (wrap (codes "signing provision transaction"))
          (lift (e.sign p.network_pass p.distribution_kp built))
    emit (Event.sent signed)
    hash ←
        annotate (wrap (codes "submitting provision transaction"))
          (ask λ n. e.submit_transaction n signed)
    pure (map (λ kp. kp.seed) keys)

  -- A count that is not positive provisions nothing.
  unfoldable pub provision_accounts : Provisioner → ℤ → Text → Action (List Text)
  unfolding provision_some
  provision_accounts p (pos zero) starting_balance = pure []
  provision_accounts p (pos (suc n)) starting_balance = provision_some p (suc n) starting_balance
  provision_accounts p (negsuc n) starting_balance = pure []

  unfoldable pub add_provisioned : List Text → Action (Unit {0})
  add_provisioned [] = pure tt
  add_provisioned (secret ∷ secrets) = do
    annotate (wrap (codes "adding provisioned account to pool")) (Pool.add_account e secret)
    add_provisioned secrets

  unfoldable pub ensure_pool_size : Provisioner → ℤ → Text → Action (Unit {0})
  unfolding provision_accounts add_provisioned
  ensure_pool_size p target_size starting_balance = do
    current_size ← annotate (wrap (codes "checking pool size")) (Pool.pool_size e)
    if leb_ℤ target_size (pos current_size) then pure tt else do
      secrets ←
          annotate
            (wrap (
              codes "provisioning "
              ++ (decimal (pos_part target_size - current_size) ++ codes " accounts")))
            (provision_accounts p (target_size -ℤ pos current_size) starting_balance)
      add_provisioned secrets

  -- What is done with the answer on an account: one whose detail cannot be fetched is skipped.
  unfoldable pub sync_account : AccountInfo → Result ℤ → Action (Unit {0})
  sync_account acct (err _) = pure tt
  sync_account acct (ok sequence) =
      annotate (wrap (codes "updating sequence for " ++ acct.public_key))
        (Pool.refresh_sequence e acct.public_key sequence)

  unfoldable pub sync_accounts : List AccountInfo → Action (Unit {0})
  unfolding sync_account
  sync_accounts [] = pure tt
  sync_accounts (acct ∷ accounts) = do
    detail ← attempt (ask λ n. e.account_detail n acct.public_key)
    sync_account acct detail
    sync_accounts accounts

  unfoldable pub sync_sequences : Action (Unit {0})
  unfolding sync_accounts
  sync_sequences = do
    accounts ←
        annotate (wrap (codes "listing active accounts for sequence sync")) (Pool.list_active e)
    sync_accounts accounts
