-- ===== src/Retry.antt =====
-- internal/retry/policy.go. The float64 operations are a record of functions.
pub mod Schedule
use tx_submitter.Base.{
  ℕ, zero, suc, Bool, false, not, Option, none, some, List, [], ◌∷◌, ◌++◌, if◌then◌else◌,
}
use tx_submitter.Base.Int.{ℤ, pos, negsuc, pos_part, ◌-ℤ◌, leb_ℤ, ltb_ℤ}
use tx_submitter.Base.Text.{Text, codes, contains_any, decimal}
use tx_submitter.Errors.{Error, error_text}

-- float64, and the operations that the policy uses.
pub record Floats : Type 1 where
  pub Double : Type 0
  pub of_int : ℤ → Double
  pub mul : Double → Double → Double
  pub pow : Double → Double → Double
  pub gt : Double → Double → Bool
  pub to_int64 : Double → ℤ

abbrev pub terminal_codes : List Text
terminal_codes =
    codes "tx_bad_auth"
    ∷ codes "tx_bad_msg"
    ∷ codes "tx_too_old"
    ∷ codes "tx_fee_bump_within_max_fee"
    ∷ []

-- `none` is a nil error.
unfoldable pub is_retryable : Option Error → Bool
is_retryable none = false
is_retryable (some err) = not (contains_any (error_text err) terminal_codes)

-- `%d` of an int64.
unfoldable pub signed_decimal : ℤ → Text
signed_decimal (pos n) = decimal n
signed_decimal (negsuc n) = b'-' ∷ decimal (suc n)

spaced : List ℤ → Text
unfolding signed_decimal
spaced [] = []
spaced (x ∷ []) = signed_decimal x
spaced (x ∷ y ∷ rest) = signed_decimal x ++ (b' ' ∷ spaced (y ∷ rest))

module _ (F : Floats) where
  pub record Policy : Type 0 where
    pub max_attempts : ℤ
    pub base_fee : ℤ
    pub max_fee : ℤ
    pub multiplier : F.Double
    pub backoff_base : ℤ
    pub horizon_url : Text

  unfoldable pub new_policy : ℤ → ℤ → ℤ → F.Double → ℤ → Text → Policy
  new_policy max_attempts base_fee max_fee multiplier backoff_base horizon_url = record {
    max_attempts = max_attempts;
    base_fee = base_fee;
    max_fee = max_fee;
    multiplier = multiplier;
    backoff_base = backoff_base;
    horizon_url = horizon_url;
  }

  abbrev pub escalated : Policy → ℤ → F.Double
  escalated p attempt =
      F.mul (F.of_int p.base_fee) (F.pow p.multiplier (F.of_int (attempt -ℤ pos 1)))

  unfoldable pub current_fee : Policy → ℤ → ℤ
  current_fee p attempt =
      if leb_ℤ attempt (pos 0)
      then p.base_fee
      else if F.gt (escalated p attempt) (F.of_int p.max_fee)
      then p.max_fee
      else F.to_int64 (escalated p attempt)

  -- A duration in nanoseconds.
  unfoldable pub backoff : Policy → ℤ → ℤ
  backoff p attempt =
      if leb_ℤ attempt (pos 0)
      then pos 0
      else F.to_int64
          (F.mul (F.of_int p.backoff_base) (F.pow (F.of_int (pos 2)) (F.of_int (attempt -ℤ pos 1))))

  unfoldable pub should_retry : Policy → Option Error → ℤ → Bool
  should_retry p err attempt = if leb_ℤ p.max_attempts attempt then false else is_retryable err

  -- The slots from the i-th on, `rounds` of them.
  unfoldable pub curve_from : Policy → ℕ → ℕ → List ℤ
  curve_from p zero i = []
  curve_from p (suc rounds) i = current_fee p (pos i) ∷ curve_from p rounds (suc i)

  -- `none` is the panic of `make` with a negative length.
  unfoldable pub escalation_curve : Policy → Option (List ℤ)
  unfolding curve_from
  escalation_curve p =
      if ltb_ℤ p.max_attempts (pos 0) then none else some (curve_from p (pos_part p.max_attempts) 0)

  unfoldable pub policy_string : Policy → Option Text
  unfolding spaced signed_decimal escalation_curve
  policy_string p = elim (escalation_curve p) [
    | none ↦ none
    | some curve ↦ some (
        codes "Policy{maxAttempts:"
        ++ (signed_decimal p.max_attempts
            ++ (codes ", baseFee:"
                ++ (signed_decimal p.base_fee
                    ++ (codes ", maxFee:"
                        ++ (signed_decimal p.max_fee
                            ++ (codes ", curve:[" ++ (spaced curve ++ codes "]}"))))))))
  ]
