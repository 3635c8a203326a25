-- ===== src/World/Sends.antt =====
-- How many transactions an action sends to Horizon, with a rule for each way to build an action.
use tx_submitter.Base.{
  ℕ, suc, ◌+◌, ◌≤◌, ◌≡◌, refl, Bool, true, false, if◌then◌else◌, List, [], ◌∷◌, arith,
}
use tx_submitter.Base.Int.{ℤ}
use tx_submitter.Errors.{Error, Result, ok, err, is_ok}
use tx_submitter.Metrics.{Metrics}
use tx_submitter.World.{
  World, Event, sent, sent_fee_bump, slept, Action, ◌>>=◌, ◌>>◌, pure, fail, attempt, annotate,
  ignore, lift, try_else, ask, emit, measure, gets,
}

-- The transactions and fee bumps in a trace.
unfoldable pub sends : List Event → ℕ
sends [] = 0
sends (sent t ∷ trace) = suc (sends trace)
sends (sent_fee_bump t ∷ trace) = suc (sends trace)
sends (slept d ∷ trace) = sends trace

-- The action sends at most n of them.
unfoldable pub AtMost {ℓ} : {A : Type ℓ} → ℕ → Action A → Type 0
AtMost n m = (w : World) → sends (m w).1.trace ≤ n + sends w.trace

pub AtMost-le {ℓ} : {A : Type ℓ} (n k : ℕ) (m : Action A) → n ≤ k → AtMost n m → AtMost k m
unfolding AtMost
AtMost-le n k m le h w = omega (arith, h w)

module _ {ℓ} {A : Type ℓ} where
  pub AtMost-run :
      (n : ℕ) (m : Action A) → AtMost n m → (w : World) → sends (m w).1.trace ≤ n + sends w.trace
  unfolding AtMost
  AtMost-run n m h = h

  -- An action that leaves the trace alone.
  pub quiet : (n : ℕ) (m : Action A) → ((w : World) → (m w).1.trace ≡ w.trace) → AtMost n m
  unfolding AtMost
  quiet n m same w = ground (arith, same w)

  pub AtMost-pure : (n : ℕ) (a : A) → AtMost n (pure a)
  AtMost-pure n a = quiet n (pure a) λ w. refl

  pub AtMost-lift : (n : ℕ) (r : Result A) → AtMost n (lift r)
  AtMost-lift n r = quiet n (lift r) λ w. refl

  pub AtMost-gets : (n : ℕ) (f : World → A) → AtMost n (gets f)
  AtMost-gets n f = quiet n (gets f) λ w. refl

  pub AtMost-ask : (n : ℕ) (f : ℕ → Result A) → AtMost n (ask f)
  AtMost-ask n f = quiet n (ask f) λ w. refl

  pub AtMost-annotate :
      (n : ℕ) (f : Error → Error) (m : Action A) → AtMost n m → AtMost n (annotate f m)
  unfolding AtMost
  AtMost-annotate n f m h w = h w

  pub AtMost-attempt : (n : ℕ) (m : Action A) → AtMost n m → AtMost n (attempt m)
  unfolding AtMost
  AtMost-attempt n m h w = h w

  pub AtMost-ignore : (n : ℕ) (m : Action A) → AtMost n m → AtMost n (ignore m)
  unfolding AtMost
  AtMost-ignore n m h w = h w

  pub AtMost-if :
      (n : ℕ) (b : Bool) (m k : Action A) → AtMost n m → AtMost n k → AtMost n (if b then m else k)
  AtMost-if n true m k hm hk = hm
  AtMost-if n false m k hm hk = hk

  pub AtMost-bind {μ} :
      {B : Type μ} (n k : ℕ) (m : Action A) (f : A → Action B)
      → AtMost n m
      → ((a : A) → AtMost k (f a))
      → AtMost (n + k) (m >>= f)
  unfolding AtMost
  AtMost-bind n k m f hm hf w = continue_with (m w).0
    where
      continue_with :
          (r : Result A) → sends (◌>>=◌ (λ _. (r, (m w).1)) f w).1.trace ≤ n + k + sends w.trace
      continue_with (ok a) = omega (arith, hm w, hf a (m w).1)
      continue_with (err x) = omega (arith, hm w)

  pub AtMost-try_else {μ} :
      {B : Type μ} (n k : ℕ) (m : Action A) (on_err : Error → Action B) (on_ok : A → Action B)
      → AtMost n m
      → ((x : Error) → AtMost k (on_err x))
      → ((a : A) → AtMost k (on_ok a))
      → AtMost (n + k) (try_else m on_err on_ok)
  unfolding AtMost try_else
  AtMost-try_else {B} n k m on_err on_ok hm he ho w = continue_with (m w).0
    where
      continue_with :
          (r : Result A)
          → sends (try_else (λ _. (r, (m w).1)) on_err on_ok w).1.trace ≤ n + k + sends w.trace
      continue_with (ok a) = omega (arith, hm w, ho a (m w).1)
      continue_with (err x) = omega (arith, hm w, he x (m w).1)

  -- The rules for a first action that sends nothing.
  pub AtMost-after {μ} :
      {B : Type μ} (k : ℕ) (m : Action A) (f : A → Action B)
      → AtMost 0 m
      → ((a : A) → AtMost k (f a))
      → AtMost k (m >>= f)
  AtMost-after k m f hm hf = AtMost-le (0 + k) k (m >>= f) (omega arith) (AtMost-bind 0 k m f hm hf)

  pub AtMost-after_got {μ} :
      {B : Type μ} (k : ℕ) (m : Action A) (f : A → Action B)
      → AtMost 0 m
      → ((a : A) (w : World) → (m w).0 ≡ ok a → AtMost k (f a))
      → AtMost k (m >>= f)
  unfolding AtMost
  AtMost-after_got k m f hm hf w = continue_with (m w).0 refl
    where
      continue_with :
          (r : Result A)
          → (m w).0 ≡ r
          → sends (◌>>=◌ (λ _. (r, (m w).1)) f w).1.trace ≤ k + sends w.trace
      continue_with (ok a) got = omega (arith, hm w, hf a w got (m w).1)
      continue_with (err x) got = omega (arith, hm w)

  pub AtMost-after_try {μ} :
      {B : Type μ} (k : ℕ) (m : Action A) (on_err : Error → Action B) (on_ok : A → Action B)
      → AtMost 0 m
      → ((x : Error) → AtMost k (on_err x))
      → ((a : A) → AtMost k (on_ok a))
      → AtMost k (try_else m on_err on_ok)
  AtMost-after_try k m on_err on_ok hm he ho =
      AtMost-le (0 + k) k (try_else m on_err on_ok) (omega arith)
        (AtMost-try_else 0 k m on_err on_ok hm he ho)

  -- The rules for a first action after which nothing is sent.
  pub AtMost-before {μ} :
      {B : Type μ} (k : ℕ) (m : Action A) (f : A → Action B)
      → AtMost k m
      → ((a : A) → AtMost 0 (f a))
      → AtMost k (m >>= f)
  AtMost-before k m f hm hf =
      AtMost-le (k + 0) k (m >>= f) (omega arith) (AtMost-bind k 0 m f hm hf)

  pub AtMost-one_try {μ} :
      {B : Type μ} (m : Action A) (on_err : Error → Action B) (on_ok : A → Action B)
      → AtMost 1 m
      → ((x : Error) → AtMost 0 (on_err x))
      → ((a : A) → AtMost 0 (on_ok a))
      → AtMost 1 (try_else m on_err on_ok)
  AtMost-one_try m on_err on_ok hm he ho =
      AtMost-le (1 + 0) 1 (try_else m on_err on_ok) (omega arith)
        (AtMost-try_else 1 0 m on_err on_ok hm he ho)

  -- The rule for a first action that does not fail.
  pub AtMost-sure_try {μ} :
      {B : Type μ} (m : Action A) (on_err : Error → Action B) (on_ok : A → Action B)
      → ((w : World) → is_ok (m w).0 ≡ true)
      → AtMost 1 m
      → ((a : A) → AtMost 0 (on_ok a))
      → AtMost 1 (try_else m on_err on_ok)
  unfolding AtMost try_else
  AtMost-sure_try {B} m on_err on_ok good hm ho w = continue_with (m w).0 (good w)
    where
      continue_with :
          (r : Result A)
          → is_ok r ≡ true
          → sends (try_else (λ _. (r, (m w).1)) on_err on_ok w).1.trace ≤ 1 + sends w.trace
      continue_with (ok a) up = omega (arith, hm w, ho a (m w).1)
      continue_with (err x) up = ground arith

pub AtMost-fail {ℓ} : (n : ℕ) (A : Type ℓ) (x : Error) → AtMost n (fail {A = A} x)
AtMost-fail n A x = quiet n (fail x) λ w. refl

pub AtMost-measure : (n : ℕ) (f : Metrics → Metrics) → AtMost n (measure f)
AtMost-measure n f = quiet n (measure f) λ w. refl

pub AtMost-slept : (n : ℕ) (d : ℤ) → AtMost n (emit (slept d))
unfolding AtMost sends
AtMost-slept n d w = omega arith

pub AtMost-then {μ} :
    {A : Type 0} {B : Type μ} (k : ℕ) (m : Action A) (f : Action B)
    → AtMost 0 m
    → AtMost k f
    → AtMost k (m >> f)
AtMost-then k m f hm hf = AtMost-after k m (λ _. f) hm (λ _. hf)

pub ruleset sends_rules = (
  AtMost-pure, AtMost-lift, AtMost-ask, AtMost-annotate, AtMost-attempt, AtMost-ignore, AtMost-if,
  AtMost-after, AtMost-after_try, AtMost-fail, AtMost-measure, AtMost-slept, AtMost-then,
)
