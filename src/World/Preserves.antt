-- ===== src/World/Preserves.antt =====
-- A predicate of the whole state that an action keeps.
use tx_submitter.Errors.{Result, ok, err}
use tx_submitter.World.{World, Action, ◌>>=◌, ◌>>◌, pure}

module _ (I : World → Type 0) where
  unfoldable pub Preserves {ℓ} : {A : Type ℓ} → Action A → Type 0
  Preserves m = (w : World) → I w → I (m w).1

  pub Preserves-intro {ℓ} :
      {A : Type ℓ} (m : Action A) → ((w : World) → I w → I (m w).1) → Preserves m
  unfolding Preserves
  Preserves-intro m h = h

  pub Preserves-run {ℓ} : {A : Type ℓ} (m : Action A) → Preserves m → (w : World) → I w → I (m w).1
  unfolding Preserves
  Preserves-run m h = h

  pub Preserves-pure {ℓ} : {A : Type ℓ} (a : A) → Preserves (pure a)
  unfolding Preserves
  Preserves-pure a w h = h

  pub Preserves-bind {ℓ μ} :
      {A : Type ℓ} {B : Type μ} (m : Action A) (f : A → Action B)
      → Preserves m
      → ((a : A) → Preserves (f a))
      → Preserves (m >>= f)
  unfolding Preserves
  Preserves-bind {A = A} m f hm hf w h = continue_with (m w).0
    where
      continue_with : (r : Result A) → I (◌>>=◌ (λ _. (r, (m w).1)) f w).1
      continue_with (ok a) = hf a (m w).1 (hm w h)
      continue_with (err x) = hm w h

  pub Preserves-then {μ} :
      {A : Type 0} {B : Type μ} (m : Action A) (k : Action B)
      → Preserves m
      → Preserves k
      → Preserves (m >> k)
  Preserves-then m k hm hk = Preserves-bind m (λ _. k) hm (λ _. hk)
