-- ===== src/Config.antt =====
-- internal/config/config.go: the configuration from the environment. A panic ends `Load`.
pub mod Integers
use tx_submitter.Base.{
  ℕ, ◌+◌, ◌-◌, ◌*◌, ◌^◌, Bool, ◌&&◌, Option, none, some, [], ◌∷◌, if◌then◌else◌, ◌==◌, leb, ltb,
  ◌==ℕ◌,
}
use tx_submitter.Base.Int.{ℤ, pos, negsuc, mul64}
use tx_submitter.Base.Text.{Text, text_eq, codes}
use tx_submitter.External.{Env}

pub record Config : Type 0 where
  pub horizon_url : Text
  pub network_passphrase : Text
  pub distribution_account_secret : Text
  pub num_channel_accounts : ℤ
  pub channel_account_starting_balance : Text
  pub database_url : Text
  pub max_base_fee : ℤ
  pub retry_max_attempts : ℤ
  pub queue_polling_interval : ℤ
  pub http_port : ℤ
  pub metrics_port : ℤ
  pub log_level : Text

-- What `panic` is called with: the kind of message and the variable.
pub data Panic : Type 0 where
  not_set not_integer : Text → Panic

pub data Loaded (A : Type 0) : Type 0 where
  loaded : A → Loaded A
  panicked : Panic → Loaded A

infixl 5 ◌>>=◌
abbrev pub ◌>>=◌ : {A B : Type 0} → Loaded A → (A → Loaded B) → Loaded B
loaded a >>= f = f a
panicked p >>= f = panicked p

abbrev pub is_digit : ℕ → Bool
is_digit c = leb b'0' c && leb c b'9'

-- The digits of a number, after those in the accumulator.
unfoldable pub parse_digits : Text → ℕ → Option ℕ
parse_digits [] acc = some acc
parse_digits (c ∷ s) acc =
    let rest = parse_digits s (acc * 10 + (c - b'0')) in if is_digit c then rest else none

unfoldable pub parse_magnitude : Text → Option ℕ
parse_magnitude [] = none
parse_magnitude (c ∷ s) = parse_digits (c ∷ s) 0

abbrev pub in_range_pos : Option ℕ → Option ℤ
in_range_pos none = none
in_range_pos (some n) = if ltb n (2 ^ 63) then some (pos n) else none

abbrev negated : ℕ → ℤ
negated n = if n ==ℕ 0 then pos 0 else negsuc (n - 1)

abbrev in_range_neg : Option ℕ → Option ℤ
in_range_neg none = none
in_range_neg (some n) = if leb n (2 ^ 63) then some (negated n) else none

-- `strconv.Atoi` and `strconv.ParseInt(val, 10, 64)` on a 64-bit machine.
unfoldable pub parse_int : Text → Option ℤ
unfolding parse_magnitude parse_digits
parse_int [] = none
parse_int (c ∷ s) =
    if c ==ℕ b'-'
    then in_range_neg (parse_magnitude s)
    else if c ==ℕ b'+'
    then in_range_pos (parse_magnitude s)
    else in_range_pos (parse_magnitude (c ∷ s))

module _ (e : Env) where
  unfoldable pub load_required : Text → Loaded Text
  load_required key = if e.getenv key == [] then panicked (not_set key) else loaded (e.getenv key)

  abbrev integer_or_panic : Text → Option ℤ → Loaded ℤ
  integer_or_panic key none = panicked (not_integer key)
  integer_or_panic key (some n) = loaded n

  unfoldable pub load_int : Text → ℤ → Loaded ℤ
  load_int key default_value =
      if e.getenv key == []
      then loaded default_value
      else integer_or_panic key (parse_int (e.getenv key))

  unfoldable pub load_int64 : Text → ℤ → Loaded ℤ
  load_int64 key default_value =
      if e.getenv key == []
      then loaded default_value
      else integer_or_panic key (parse_int (e.getenv key))

  unfoldable pub load_string : Text → Text → Text
  load_string key default_value = if e.getenv key == [] then default_value else e.getenv key

  -- The fields in the order of the literal, which is the order of the panics.
  unfoldable pub load : Loaded Config
  unfolding load_required load_int load_int64 load_string
  load = do
    horizon_url ← load_required (codes "HORIZON_URL")
    network_passphrase ← load_required (codes "NETWORK_PASSPHRASE")
    secret ← load_required (codes "DISTRIBUTION_ACCOUNT_SECRET")
    num_channel_accounts ← load_int (codes "NUM_CHANNEL_ACCOUNTS") (pos 2)
    let balance = load_string (codes "CHANNEL_ACCOUNT_STARTING_BALANCE") (codes "2")
    database_url ← load_required (codes "DATABASE_URL")
    max_base_fee ← load_int64 (codes "MAX_BASE_FEE") (pos 10000)
    retry_max_attempts ← load_int (codes "RETRY_MAX_ATTEMPTS") (pos 5)
    interval ← load_int (codes "QUEUE_POLLING_INTERVAL_SECONDS") (pos 6)
    http_port ← load_int (codes "HTTP_PORT") (pos 8080)
    metrics_port ← load_int (codes "METRICS_PORT") (pos 9002)
    loaded (record {
      horizon_url = horizon_url;
      network_passphrase = network_passphrase;
      distribution_account_secret = secret;
      num_channel_accounts = num_channel_accounts;
      channel_account_starting_balance = balance;
      database_url = database_url;
      max_base_fee = max_base_fee;
      retry_max_attempts = retry_max_attempts;
      queue_polling_interval = mul64 interval (pos 1_000_000_000);
      http_port = http_port;
      metrics_port = metrics_port;
      log_level = load_string (codes "LOG_LEVEL") (codes "INFO");
    })
