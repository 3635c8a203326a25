-- ===== src/Retry/Schedule.antt =====
-- The fee schedule, and which errors are retried.
use tx_submitter.Base.{
  ℕ, zero, suc, ◌+◌, ◌<◌, ◌≡◌, refl, ap, ◌∙◌, true, false, some, List, arith, length, Bool-cases,
  inl, inr, ◌↔◌, get_elem?,
}
use tx_submitter.Base.Int.{ℤ, pos, ◌≤ℤ◌, ◌<ℤ◌}
use tx_submitter.Base.Text.{contains_any}
use tx_submitter.Errors.{Error, error_text}
use tx_submitter.Retry.{
  Floats, Policy, current_fee, should_retry, is_retryable, curve_from, escalation_curve,
  terminal_codes, escalated,
}

-- Truncation to int64 respects the comparison with an int64: what is not above it is truncated to
-- no more. It holds of IEEE 754 for values that are numbers and bounds below 2 ^ 53.
abbrev pub TruncatesBelow : Floats → ℤ → Type 0
TruncatesBelow F m = (x : F.Double) → F.gt x (F.of_int m) ≡ false → F.to_int64 x ≤ℤ m

module _ (F : Floats) (p : Policy F) where
  -- If truncation to int64 keeps what is not above the policy's maximum at or below it,
  -- `CurrentFee` of a positive attempt is at most the policy's maximum.
  pub current_fee-le-max :
      TruncatesBelow F p.max_fee
      → (attempt : ℤ) → pos 0 <ℤ attempt
      → current_fee F p attempt ≤ℤ p.max_fee
  unfolding current_fee
  current_fee-le-max truncates attempt h =
      elim (Bool-cases (F.gt (escalated F p attempt) (F.of_int p.max_fee))) [
        | inl above ↦ ground arith
        | inr below ↦ ground (arith, truncates (escalated F p attempt) below)
      ]

  -- `ShouldRetry` of an error is true exactly if the attempt is below the policy's number of
  -- attempts and the error's text names none of the terminal codes.
  pub should_retry_iff :
      (er : Error) (attempt : ℤ)
      → ((should_retry F p (some er) attempt) ≡ true)
        ↔ ((attempt <ℤ p.max_attempts) × (contains_any (error_text er) terminal_codes ≡ false))
  unfolding should_retry is_retryable
  should_retry_iff er attempt = ground arith

  length-curve_from : (rounds i : ℕ) → length (curve_from F p rounds i) ≡ rounds
  unfolding curve_from
  length-curve_from zero i = refl
  length-curve_from (suc rounds) i = ap suc (length-curve_from rounds (suc i))

  get_elem?-curve_from :
      (rounds i k : ℕ)
      → k < rounds
      → get_elem? (curve_from F p rounds i) k ≡ some (current_fee F p (pos (i + k)))
  unfolding curve_from
  get_elem?-curve_from zero i k h = elim h [ ]
  get_elem?-curve_from (suc rounds) i zero h =
      ap (λ n. some (current_fee F p (pos n))) (omega arith)
  get_elem?-curve_from (suc rounds) i (suc k) h =
      get_elem?-curve_from rounds (suc i) k (omega arith)
      ∙ ap (λ n. some (current_fee F p (pos n))) (omega arith)

  -- If the number of attempts is n, not negative, and k is below n, `EscalationCurve` returns a
  -- slice of n fees, and slot k holds the fee of `CurrentFee(k)`.
  pub escalation_curve_lem :
      (n k : ℕ)
      → p.max_attempts ≡ pos n
      → k < n
      → (curve : List ℤ) × (escalation_curve F p ≡ some curve)
        × (length curve ≡ n)
        × (get_elem? curve k ≡ some (current_fee F p (pos k)))
  unfolding escalation_curve
  escalation_curve_lem n k h below = (
    curve_from F p n 0,
    ground arith,
    length-curve_from n 0,
    get_elem?-curve_from n 0 k below ∙ ap (λ i. some (current_fee F p (pos i))) (omega arith),
  )
