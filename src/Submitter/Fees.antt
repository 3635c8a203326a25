-- ===== src/Submitter/Fees.antt =====
-- The fees and ledger bounds of what is sent.
use tx_submitter.Base.{ℕ, zero, suc, ◌+◌, ◌<◌, ◌^◌, ◌≡◌, refl, arith}
use tx_submitter.Base.Int.{ℤ, pos, negsuc, ◌≤ℤ◌}
use tx_submitter.Errors.{ok}
use tx_submitter.External.{Env, Envelope, TransactionParams}
use tx_submitter.Submitter.Builder.{Builder, PaymentParams, build, capped_fee, payment_transaction}
use tx_submitter.Submitter.Signing.{ledger_bound, ledger_bound_offset}

pub capped_fee-le : (b : Builder) (fee : ℤ) → capped_fee b fee ≤ℤ b.max_base_fee
unfolding capped_fee
capped_fee-le b fee = ground arith

-- A transaction that the SDK builds has the parameters that it was built from.
abbrev pub KeepsParams : Env → Type 0
KeepsParams e = (p : TransactionParams) (t : Envelope) → e.new_transaction p ≡ ok t → t.params ≡ p

-- If the SDK builds transactions with the parameters that it is given, a payment that `Build`
-- returns offers a base fee of at most the builder's maximum, whatever fee the caller passes.
pub build-le-max_base_fee :
    (e : Env)
    → KeepsParams e
    → (b : Builder) (params : PaymentParams) (t : Envelope) → build e b params ≡ ok t
    → t.params.base_fee ≤ℤ b.max_base_fee
unfolding build
build-le-max_base_fee e keeps b params t h =
    ground (arith, keeps (payment_transaction b params) t, capped_fee-le b params.base_fee)

-- For a Horizon sequence n + 1 below 2^31, the ledger bound is that sequence and 240 more: the
-- uint32 sum does not wrap.
pub ledger_bound_lem :
    (n : ℕ) → n + 1 < 2 ^ 31 → ledger_bound (pos (suc n)) ≡ n + 1 + ledger_bound_offset
unfolding ledger_bound
ledger_bound_lem n h = omega arith

-- A sequence that is not positive gives no bound.
pub ledger_bound_zero : (z : ℤ) → z ≤ℤ pos 0 → ledger_bound z ≡ 0
unfolding ledger_bound
ledger_bound_zero (pos zero) h = refl
ledger_bound_zero (pos (suc n)) h = absurd (omega arith)
ledger_bound_zero (negsuc n) h = refl
