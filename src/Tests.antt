-- ===== src/Tests.antt =====
-- A small deployment that the examples run on: an environment in which every call goes through, one
-- pending payment and one channel account.
pub mod Stored
pub mod Sent
pub mod Together
pub mod Whole
pub mod Booked
use tx_submitter.Base.{◌*◌, ◌^◌, true, none, some, [], ◌∷◌}
use tx_submitter.Base.Int.{ℤ, pos, pos_part, ltb_ℤ}
use tx_submitter.Base.Text.{codes}
use tx_submitter.State.{Status, Transaction, ChannelAccount, NewTransactionParams}
use tx_submitter.Errors.{ok, err, external}
use tx_submitter.External.{Env, Schema, Envelope, KeyPair}
use tx_submitter.Metrics.{no_metrics}
use tx_submitter.World.{World}
use tx_submitter.Api.{Request}
use tx_submitter.Retry.{Floats, Policy}
use tx_submitter.Submitter.Builder.{Builder}
use tx_submitter.Submitter.Signing.{Engine}

-- float64 on whole numbers.
abbrev pub whole_floats : Floats
whole_floats = record {
  Double = ℤ;
  of_int = λ z. z;
  mul = λ x y. pos (pos_part x * pos_part y);
  pow = λ x y. pos (pos_part x ^ pos_part y);
  gt = λ x y. ltb_ℤ y x;
  to_int64 = λ z. z;
}

abbrev pub schema_with_default : Schema
schema_with_default = record { channel_account_default = some [] }

abbrev pub environment : Env
environment = record {
  schema = schema_with_default;
  db_fault = λ _. none;
  gen_random_uuid = λ n. n ∷ [];
  now = λ n. n;
  to_numeric = λ d. d;
  unique_violation = codes "duplicate key";
  not_null_violation = codes "null value";
  parse_full = λ s. ok (record { address = s; seed = s });
  parse_address = ok;
  random_key = λ n. ok (record { address = n ∷ []; seed = n ∷ [] });
  new_transaction = λ p. ok (record { params = p; signers = [] });
  sign = λ pass kp t. ok (record t { signers = kp.address ∷ t.signers });
  new_fee_bump = λ p. ok (record { params = p; signers = [] });
  sign_fee_bump = λ pass kp t. ok (record t { signers = kp.address ∷ t.signers });
  root = λ _. ok (pos 1000);
  account_detail = λ _ _. ok (pos 7);
  submit_transaction = λ _ _. ok (codes "hash");
  submit_fee_bump = λ _ _. ok (codes "bumped");
  transaction_detail = λ _ _. ok true;
  decimal_from_string = λ _. some (record { unscaled = pos 5; exponent = pos 0 });
  decimal_string = λ d. pos_part d.unscaled ∷ [];
  format_time = λ n. n ∷ [];
  decode_request = λ _. some (record {
    external_id = codes "order-4";
    source = codes "S";
    destination = codes "D";
    amount = codes "5";
    asset_code = codes "XLM";
    asset_issuer = [];
  });
  connect = λ _. none;
  getenv = λ _. [];
}

-- The schema of migrations/0001_init.up.sql.
abbrev pub migrated : Env
migrated = record environment { schema = record { channel_account_default = none } }

abbrev pub payment : Transaction
payment = record {
  id = codes "t1";
  external_id = codes "order-1";
  source_account = codes "S";
  destination = codes "D";
  amount = record { unscaled = pos 5; exponent = pos 0 };
  asset_code = codes "XLM";
  asset_issuer = [];
  channel_account = [];
  status = Status.pending;
  horizon_tx_id = none;
  error_message = none;
  created_at = 1;
  updated_at = 1;
}

abbrev pub paid : Transaction
paid = record payment { id = codes "t2"; external_id = codes "order-2"; status = Status.confirmed }

abbrev pub order : NewTransactionParams
order = record {
  external_id = codes "order-3";
  source_account = codes "S";
  destination = codes "D";
  amount = record { unscaled = pos 5; exponent = pos 0 };
  asset_code = codes "XLM";
  asset_issuer = [];
}

abbrev pub channel : ChannelAccount
channel = record {
  id = codes "c1";
  secret_key = codes "SC";
  public_key = codes "C";
  current_seq = pos 41;
  is_active = true;
  locked_at = none;
  created_at = 1;
}

abbrev pub next_channel : ChannelAccount
next_channel = record channel { id = codes "c2"; secret_key = codes "SC2"; public_key = codes "C2" }

abbrev pub world : World
world = record {
  db = record {
    transactions = payment ∷ [];
    transitions = [];
    accounts = channel ∷ next_channel ∷ [];
    next_transition = 1;
  };
  metrics = no_metrics;
  trace = [];
  calls = 0;
}

-- With a transaction that has reached a terminal status.
abbrev pub finished : World
finished = record world { db = record world.db { transactions = payment ∷ paid ∷ [] } }

abbrev pub policy : Policy whole_floats
policy = record {
  max_attempts = pos 3;
  base_fee = pos 100;
  max_fee = pos 300;
  multiplier = pos 2;
  backoff_base = pos 10;
  horizon_url = [];
}

abbrev pub builder : Builder
builder = record { base_fee = pos 100; max_base_fee = pos 300; network_pass = codes "test" }

abbrev pub engine : Engine whole_floats
engine = record {
  builder = builder;
  retry_policy = policy;
  network_pass = codes "test";
  distribution = codes "SD";
  distribution_kp = record { address = codes "GD"; seed = codes "SD" };
  max_base_fee = pos 300;
  poll_interval = pos 6;
}

abbrev pub submission : Request
submission = record { method = codes "POST"; path = codes "/submit"; body = [] }
