-- ===== src/Submitter/Signing.antt =====
-- internal/submitter/engine.go: the engine's fields, and the signed transactions that it builds.
use tx_submitter.Base.{ℕ, suc, zero, ◌+◌, ◌%◌, ◌^◌, if◌then◌else◌, ◌!=◌}
use tx_submitter.Base.Int.{ℤ, pos, negsuc, mul64}
use tx_submitter.Base.Text.{Text, text_eq, codes}
use tx_submitter.State.{Transaction, ChannelAccount}
use tx_submitter.Errors.{wrap, Result, ok, err}
use tx_submitter.External.{Env, KeyPair, Envelope, FeeBump, FeeBumpParams}
use tx_submitter.World.{Action, Event, ◌>>=◌, ◌>>◌, pure, annotate, attempt, lift, ask, emit}
use tx_submitter.Retry.{Floats, Policy}
use tx_submitter.Submitter.Builder.{Builder, PaymentParams, build}

-- `ledgerBoundOffset`
abbrev pub ledger_bound_offset : ℕ
ledger_bound_offset = 240

-- The ceiling for a Horizon sequence, which is an int32: `uint32(seq) + ledgerBoundOffset`.
unfoldable pub ledger_bound : ℤ → ℕ
ledger_bound (pos zero) = 0
ledger_bound (pos (suc n)) = (suc n % 2 ^ 32 + ledger_bound_offset) % 2 ^ 32
ledger_bound (negsuc n) = 0

module _ (F : Floats) where
  -- The client, the store, the pool and the logger are the environment.
  pub record Engine : Type 0 where
    pub builder : Builder
    pub retry_policy : Policy F
    pub network_pass : Text
    pub distribution : Text
    pub distribution_kp : KeyPair
    pub max_base_fee : ℤ
    pub poll_interval : ℤ

  unfoldable pub new_engine : Env → Builder → Policy F → Text → Text → ℤ → ℤ → Result Engine
  new_engine e builder retry_policy network_pass distribution max_base_fee poll_interval =
      elim (e.parse_full distribution) [
        | err er ↦ err (wrap (codes "parsing distribution key") er)
        | ok kp ↦ ok (record {
          builder = builder;
          retry_policy = retry_policy;
          network_pass = network_pass;
          distribution = distribution;
          distribution_kp = kp;
          max_base_fee = max_base_fee;
          poll_interval = poll_interval;
        })
      ]

module _ (e : Env) where
  unfoldable pub current_ledger_bound : Action ℕ
  current_ledger_bound = do
    root ← attempt (ask e.root)
    pure (elim root [ err _ ↦ 0 | ok sequence ↦ ledger_bound sequence ])

  -- `horizon.SubmitTransaction`, which returns the hash.
  unfoldable pub submit : Envelope → Action Text
  submit tx = do emit (Event.sent tx); ask λ n. e.submit_transaction n tx

  -- `horizon.SubmitFeeBumpTransaction`
  unfoldable pub submit_fee_bump : FeeBump → Action Text
  submit_fee_bump tx = do emit (Event.sent_fee_bump tx); ask λ n. e.submit_fee_bump n tx

  abbrev pub payment_params : Transaction → ChannelAccount → ℕ → ℤ → PaymentParams
  payment_params tx ca max_ledger base_fee = record {
    destination = tx.destination;
    amount = e.decimal_string tx.amount;
    asset_code = tx.asset_code;
    asset_issuer = tx.asset_issuer;
    channel_account = ca.public_key;
    channel_seq = ca.current_seq;
    max_ledger = max_ledger;
    base_fee = base_fee;
  }

module _ (F : Floats) (e : Env) (g : Engine F) where
  -- The second signature, if the funding source is another account.
  unfoldable pub sign_as_source : Transaction → ChannelAccount → Envelope → Result Envelope
  sign_as_source tx ca signed =
      if tx.source_account != ca.public_key
      then elim (e.parse_full tx.source_account) [
        | err er ↦ err (wrap (codes "parsing source key for dual-sign") er)
        | ok source_kp ↦ elim (e.sign g.network_pass source_kp signed) [
          | err er ↦ err (wrap (codes "signing with source key") er)
          | ok both ↦ ok both
        ]
      ]
      else ok signed

  unfoldable pub build_signed_payment : Transaction → ChannelAccount → ℤ → Action Envelope
  unfolding current_ledger_bound
  build_signed_payment tx ca base_fee = do
    channel_kp ← annotate (wrap (codes "parsing channel key")) (lift (e.parse_full ca.secret_key))
    max_ledger ← current_ledger_bound e
    built ← lift (build e g.builder (payment_params e tx ca max_ledger base_fee))
    signed ←
        annotate (wrap (codes "signing with channel key"))
          (lift (e.sign g.network_pass channel_kp built))
    lift (sign_as_source tx ca signed)

  abbrev pub fee_bump_params : Envelope → ℤ → FeeBumpParams
  fee_bump_params inner new_fee = record {
    inner = inner;
    fee_account = g.distribution;
    base_fee = mul64 new_fee (pos 5);
  }

  unfoldable pub build_fee_bump : Transaction → ChannelAccount → ℤ → Action FeeBump
  unfolding current_ledger_bound
  build_fee_bump tx ca new_fee = do
    channel_kp ←
        annotate (wrap (codes "parsing channel key for fee-bump"))
          (lift (e.parse_full ca.secret_key))
    max_ledger ← current_ledger_bound e
    built ←
        annotate (wrap (codes "building inner tx for fee-bump"))
          (lift (build e g.builder (payment_params e tx ca max_ledger new_fee)))
    inner ←
        annotate (wrap (codes "signing inner tx")) (lift (e.sign g.network_pass channel_kp built))
    fee_bump ←
        annotate (wrap (codes "building fee-bump tx"))
          (lift (e.new_fee_bump (fee_bump_params inner new_fee)))
    annotate (wrap (codes "signing fee-bump tx"))
        (lift (e.sign_fee_bump g.network_pass g.distribution_kp fee_bump))
