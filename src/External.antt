-- ===== src/External.antt =====
-- What lies outside the repository's own packages, as one record of functions: the database driver,
-- the Stellar SDK (vendor-stellar), `decimal`, the process environment. A function that may answer
-- differently from call to call takes the number of the call.
use tx_submitter.Base.{ℕ, Bool, Option, List}
use tx_submitter.Base.Int.{ℤ}
use tx_submitter.Base.Text.{Text}
use tx_submitter.State.{Decimal}
use tx_submitter.Errors.{Result}

-- `keypair.Full`
pub record KeyPair : Type 0 where
  pub address : Text
  pub seed : Text

pub data Asset : Type 0 where
  native : Asset
  credit : Text → Text → Asset

pub data Operation : Type 0 where
  payment : Text → Text → Asset → Operation
  create_account : Text → Text → Operation

-- `txnbuild.TransactionParams`, with the time bound in seconds.
pub record TransactionParams : Type 0 where
  pub source_account : Text
  pub sequence : ℤ
  pub increment_sequence : Bool
  pub operations : List Operation
  pub base_fee : ℤ
  pub timeout : ℕ
  pub max_ledger : Option ℕ

-- An SDK transaction is what the SDK was given: the parameters, and the signers in order.
pub record Envelope : Type 0 where
  pub params : TransactionParams
  pub signers : List Text

-- `txnbuild.FeeBumpTransactionParams`
pub record FeeBumpParams : Type 0 where
  pub inner : Envelope
  pub fee_account : Text
  pub base_fee : ℤ

pub record FeeBump : Type 0 where
  pub params : FeeBumpParams
  pub signers : List Text

-- internal/api/handlers.go: the body of a /submit request.
pub record SubmitRequest : Type 0 where
  pub external_id : Text
  pub source : Text
  pub destination : Text
  pub amount : Text
  pub asset_code : Text
  pub asset_issuer : Text

-- The part of the schema that a deployment may have changed since migrations/0001_init.up.sql.
pub record Schema : Type 0 where
  pub channel_account_default : Option Text

pub record Env : Type 0 where
  pub schema : Schema
  -- the database: the error that a call of the driver ends with, in which case it has no effect
  pub db_fault : ℕ → Option Text
  pub gen_random_uuid : ℕ → Text
  pub now : ℕ → ℕ
  -- the cast to NUMERIC(78, 0), and the error texts of violated constraints
  pub to_numeric : Decimal → Decimal
  pub unique_violation : Text
  pub not_null_violation : Text
  -- keypair
  pub parse_full : Text → Result KeyPair
  pub parse_address : Text → Result Text
  pub random_key : ℕ → Result KeyPair
  -- txnbuild: whether the constructor and `Sign` accept
  pub new_transaction : TransactionParams → Result Envelope
  pub sign : Text → KeyPair → Envelope → Result Envelope
  pub new_fee_bump : FeeBumpParams → Result FeeBump
  pub sign_fee_bump : Text → KeyPair → FeeBump → Result FeeBump
  -- Horizon
  pub root : ℕ → Result ℤ
  pub account_detail : ℕ → Text → Result ℤ
  pub submit_transaction : ℕ → Envelope → Result Text
  pub submit_fee_bump : ℕ → FeeBump → Result Text
  pub transaction_detail : ℕ → Text → Result Bool
  -- shopspring/decimal
  pub decimal_from_string : Text → Option Decimal
  pub decimal_string : Decimal → Text
  -- the layout that the API prints times in
  pub format_time : ℕ → Text
  -- the JSON decoder on the body of a request; `none` is an error
  pub decode_request : Text → Option SubmitRequest
  -- pgxpool.New: the error, if any
  pub connect : Text → Option Text
  -- os.Getenv
  pub getenv : Text → Text
