-- ===== src/Submitter/Builder.antt =====
-- internal/submitter/builder.go: an unsigned payment from its parameters.
use tx_submitter.Base.{ℕ, zero, suc, false, ◌&&◌, Option, none, some, [], ◌∷◌, if◌then◌else◌, ◌==◌}
use tx_submitter.Base.Int.{ℤ, pos, int_eq, ltb_ℤ}
use tx_submitter.Base.Text.{Text, text_eq, codes}
use tx_submitter.Errors.{wrap, Result, ok, err}
use tx_submitter.External.{Env, Asset, native, credit, payment, TransactionParams, Envelope}

pub record Builder : Type 0 where
  pub base_fee : ℤ
  pub max_base_fee : ℤ
  pub network_pass : Text

unfoldable pub new_builder : Text → ℤ → ℤ → Builder
new_builder network_pass base_fee max_base_fee = record {
  base_fee = base_fee;
  max_base_fee = max_base_fee;
  network_pass = network_pass;
}

-- `max_ledger` is a uint32.
pub record PaymentParams : Type 0 where
  pub destination : Text
  pub amount : Text
  pub asset_code : Text
  pub asset_issuer : Text
  pub channel_account : Text
  pub channel_seq : ℤ
  pub max_ledger : ℕ
  pub base_fee : ℤ

unfoldable pub resolve_asset : Text → Text → Asset
resolve_asset code issuer =
    if code == codes "XLM" && issuer == [] then native else credit code issuer

-- The fee default and the fee cap of `Build`.
unfoldable pub capped_fee : Builder → ℤ → ℤ
capped_fee b fee =
    let chosen = if fee == pos 0 then b.base_fee else fee in
    if ltb_ℤ b.max_base_fee chosen then b.max_base_fee else chosen

abbrev pub ledger_bounds : ℕ → Option ℕ
ledger_bounds zero = none
ledger_bounds (suc n) = some (suc n)

abbrev pub payment_transaction : Builder → PaymentParams → TransactionParams
payment_transaction b params = record {
  source_account = params.channel_account;
  sequence = params.channel_seq;
  increment_sequence = false;
  operations =
      payment params.destination params.amount (resolve_asset params.asset_code params.asset_issuer)
      ∷ [];
  base_fee = capped_fee b params.base_fee;
  timeout = 300;
  max_ledger = ledger_bounds params.max_ledger;
}

unfoldable pub build : Env → Builder → PaymentParams → Result Envelope
build e b params = elim (e.parse_address params.channel_account) [
  | err er ↦ err (wrap (codes "parsing channel account") er)
  | ok _ ↦ elim (e.parse_address params.destination) [
    | err er ↦ err (wrap (codes "parsing destination") er)
    | ok _ ↦ elim (e.new_transaction (payment_transaction b params)) [
      | err er ↦ err (wrap (codes "building transaction") er)
      | ok tx ↦ ok tx
    ]
  ]
]
