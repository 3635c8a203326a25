-- ===== src/Errors.antt =====
-- Go errors as values: the sentinels of internal/state/store.go, the errors of other packages by
-- their text, and `fmt.Errorf("…: %w", err)`.
use tx_submitter.Base.{Bool, true, false, ◌++◌}
use tx_submitter.Base.Text.{Text, codes}

pub data Error : Type 0 where
  not_found already_exists terminal_state no_channel_accounts no_rows : Error
  external : Text → Error
  wrap : Text → Error → Error

-- `err.Error()`
unfoldable pub error_text : Error → Text
error_text Error.not_found = codes "transaction not found"
error_text Error.already_exists = codes "transaction external id already exists"
error_text Error.terminal_state = codes "transaction is in a terminal state"
error_text Error.no_channel_accounts = codes "no available channel accounts in pool"
error_text Error.no_rows = codes "no rows in result set"
error_text (Error.external s) = s
error_text (Error.wrap prefix e) = prefix ++ (codes ": " ++ error_text e)

-- A value and an error: `ok v` is `(v, nil)`.
pub data Result {ℓ} (A : Type ℓ) : Type ℓ where
  ok : A → Result A
  err : Error → Result A

abbrev pub map_error {ℓ} : {A : Type ℓ} → (Error → Error) → Result A → Result A
map_error f (ok a) = ok a
map_error f (err e) = err (f e)

abbrev pub is_ok {ℓ} : {A : Type ℓ} → Result A → Bool
is_ok (ok a) = true
is_ok (err e) = false
