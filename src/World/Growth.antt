-- ===== src/World/Growth.antt =====
-- That what was sent stays sent, and that an action which returns no error has sent something, with
-- a rule for each way to build an action.
use tx_submitter.Base.{ap, ℕ, ◌+◌, ◌≤◌, ◌≡◌, refl, true, false, arith, List, [], ◌∷◌, ◌++◌}
use tx_submitter.Errors.{Error, Result, ok, err, is_ok}
use tx_submitter.World.{World, Event, sent, sent_fee_bump, slept, Action, ◌>>=◌, attempt, try_else}
use tx_submitter.World.Sends.{sends}
use tx_submitter.World.Adds.{Adds, Adds-run}

-- The action takes nothing back, and sends at least n.
unfoldable pub AtLeast {ℓ} : {A : Type ℓ} → ℕ → Action A → Type 0
AtLeast n m = (w : World) → n + sends w.trace ≤ sends (m w).1.trace

-- If it returns no error, it sends at least one.
unfoldable pub Pays {ℓ} : {A : Type ℓ} → Action A → Type 0
Pays m = (w : World) → is_ok (m w).0 ≡ true → 1 + sends w.trace ≤ sends (m w).1.trace

sends-append : (new old : List Event) → sends old ≤ sends (new ++ old)
unfolding sends
sends-append [] old = omega arith
sends-append (sent t ∷ new) old = omega (arith, sends-append new old)
sends-append (sent_fee_bump f ∷ new) old = omega (arith, sends-append new old)
sends-append (slept d ∷ new) old = sends-append new old

module _ {ℓ} {A : Type ℓ} where
  -- No action takes back what was sent.
  pub AtLeast-Adds : (P : Event → Type 0) (m : Action A) → Adds P m → AtLeast 0 m
  unfolding AtLeast
  AtLeast-Adds P m h w =
      let (new, same, _) = Adds-run P m h w in
      omega (arith, sends-append new w.trace, ap sends same)

  pub Pays-run :
      (m : Action A)
      → Pays m
      → (w : World) → is_ok (m w).0 ≡ true
      → 1 + sends w.trace ≤ sends (m w).1.trace
  unfolding Pays
  Pays-run m h = h

  pub AtLeast-try_else {μ} :
      {B : Type μ} (n : ℕ) (m : Action A) (on_err : Error → Action B) (on_ok : A → Action B)
      → AtLeast n m
      → ((x : Error) → AtLeast 0 (on_err x))
      → ((a : A) → AtLeast 0 (on_ok a))
      → AtLeast n (try_else m on_err on_ok)
  unfolding AtLeast try_else
  AtLeast-try_else {B} n m on_err on_ok hm he ho w = continue_with (m w).0
    where
      continue_with :
          (r : Result A)
          → n + sends w.trace ≤ sends (try_else (λ _. (r, (m w).1)) on_err on_ok w).1.trace
      continue_with (ok a) = omega (arith, hm w, ho a (m w).1)
      continue_with (err x) = omega (arith, hm w, he x (m w).1)

  -- An action that always sends pays.
  pub Pays-intro : (m : Action A) → AtLeast 1 m → Pays m
  unfolding AtLeast Pays
  Pays-intro m h w good = h w

  -- What comes after sends.
  pub Pays-after {μ} :
      {B : Type μ} (m : Action A) (f : A → Action B)
      → AtLeast 0 m
      → ((a : A) → Pays (f a))
      → Pays (m >>= f)
  unfolding AtLeast Pays
  Pays-after m f hm hf w = continue_with (m w).0
    where
      continue_with :
          (r : Result A)
          → is_ok (◌>>=◌ (λ _. (r, (m w).1)) f w).0 ≡ true
          → 1 + sends w.trace ≤ sends (◌>>=◌ (λ _. (r, (m w).1)) f w).1.trace
      continue_with (ok a) good = omega (arith, hm w, hf a (m w).1 good)
      continue_with (err x) good = ground arith

  -- A body whose error is a value, of which the rest makes the result.
  pub Pays-attempt {μ} :
      {B : Type μ} (m : Action A) (f : Result A → Action B)
      → Pays m
      → ((r : Result A) → AtLeast 0 (f r))
      → ((x : Error) (w : World) → is_ok (f (err x) w).0 ≡ false)
      → Pays (attempt m >>= f)
  unfolding AtLeast Pays
  Pays-attempt m f hm hf fails w = continue_with (m w).0 (hm w)
    where
      continue_with :
          (r : Result A)
          → (is_ok r ≡ true → 1 + sends w.trace ≤ sends (m w).1.trace)
          → is_ok (f r (m w).1).0 ≡ true
          → 1 + sends w.trace ≤ sends (f r (m w).1).1.trace
      continue_with (ok a) h good = omega (arith, h refl, hf (ok a) (m w).1)
      continue_with (err x) h good = ground (arith, fails x (m w).1)
