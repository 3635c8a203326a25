-- ===== src/State.antt =====
-- internal/state/store.go: the rows of the three tables, and the parameters of the store.
use tx_submitter.Base.{ℕ, Bool, true, false, Option}
use tx_submitter.Base.{Eq}
use tx_submitter.Base.Int.{ℤ}
use tx_submitter.Base.Text.{Text}
use tx_submitter.Base.Text

-- The lifecycle state of a transaction.
pub data Status : Type 0 where
  pending submitted confirmed failed dead_letter : Status

Status-discrete : Discrete Status
Status-discrete = hlevel

instance unfoldable pub status_eq : Eq Status
unfolding Status-discrete
status_eq = record { dec = Status-discrete }

abbrev pub is_terminal : Status → Bool
is_terminal Status.confirmed = true
is_terminal Status.failed = true
is_terminal Status.dead_letter = true
is_terminal _ = false

-- The string constant behind a status.
abbrev pub status_text : Status → Text
status_text Status.pending = Text.codes "pending"
status_text Status.submitted = Text.codes "submitted"
status_text Status.confirmed = Text.codes "confirmed"
status_text Status.failed = Text.codes "failed"
status_text Status.dead_letter = Text.codes "dead_letter"

-- The value that a `decimal.Decimal` stands for: `unscaled * 10 ^ exponent`.
pub record Decimal : Type 0 where
  pub unscaled : ℤ
  pub exponent : ℤ

-- Times are numbers of an unknown unit; only their order is used.
pub record Transaction : Type 0 where
  pub id : Text
  pub external_id : Text
  pub source_account : Text
  pub destination : Text
  pub amount : Decimal
  pub asset_code : Text
  pub asset_issuer : Text
  pub channel_account : Text
  pub status : Status
  pub horizon_tx_id : Option Text
  pub error_message : Option Text
  pub created_at : ℕ
  pub updated_at : ℕ

pub record Transition : Type 0 where
  pub id : ℕ
  pub transaction_id : Text
  pub from_status : Option Status
  pub to_status : Status
  pub detail : Option Text
  pub attempted_at : ℕ

pub record ChannelAccount : Type 0 where
  pub id : Text
  pub secret_key : Text
  pub public_key : Text
  pub current_seq : ℤ
  pub is_active : Bool
  pub locked_at : Option ℕ
  pub created_at : ℕ

pub record NewTransactionParams : Type 0 where
  pub external_id : Text
  pub source_account : Text
  pub destination : Text
  pub amount : Decimal
  pub asset_code : Text
  pub asset_issuer : Text
