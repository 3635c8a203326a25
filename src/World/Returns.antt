-- ===== src/World/Returns.antt =====
-- What the result of a sequence of actions says of its parts.
use tx_submitter.Base.{◌≡◌, ◌≢◌, sym, ap, ◌∙◌, refl, ◌⊎◌, inl, inr, arith}
use tx_submitter.Errors.{Error, Result, ok, err}
use tx_submitter.World.{World, Action, ◌>>=◌, annotate}

pub Result-cases :
    {A : Type 0} (r : Result A) → ((a : A) × (r ≡ ok a)) ⊎ ((x : Error) × (r ≡ err x))
Result-cases (ok a) = inl (a, refl)
Result-cases (err x) = inr (x, refl)

pub err-ne-ok : {A : Type 0} (x : Error) (a : A) → err x ≢ ok a
err-ne-ok {A} x a h = ground arith

pub ok-injective : {A : Type 0} (a b : A) → ok a ≡ ok b → a ≡ b
ok-injective {A} a b h = ap (λ r. or_first r) h
  where
    or_first : Result A → A
    or_first (ok x) = x
    or_first (err _) = a

module _ {A B : Type 0} (m : Action A) (f : A → Action B) (w : World) where
  pub bind-ok : (a : A) → (m w).0 ≡ ok a → (m >>= f) w ≡ f a (m w).1
  bind-ok a got = rw (got, ◌>>=◌) refl

  pub bind-err : (x : Error) → (m w).0 ≡ err x → (m >>= f) w ≡ (err x, (m w).1)
  bind-err x got = rw (got, ◌>>=◌) refl

  -- If the sequence returns a value, the first action did, and the second went on with it.
  pub bind-returned :
      (b : B)
      → ((m >>= f) w).0 ≡ ok b
      → (a : A) × ((m w).0 ≡ ok a) × ((f a (m w).1).0 ≡ ok b) × ((m >>= f) w ≡ f a (m w).1)
  bind-returned b h = elim (Result-cases (m w).0) [
    | inl (a, got) ↦ (a, got, sym (ap (λ r. r.0) (bind-ok a got)) ∙ h, bind-ok a got)
    | inr (x, got) ↦ absurd (err-ne-ok x b (sym (ap (λ r. r.0) (bind-err x got)) ∙ h))
  ]

pub annotate-returned :
    {A : Type 0} (g : Error → Error) (m : Action A) (w : World) (a : A)
    → (annotate g m w).0 ≡ ok a
    → (m w).0 ≡ ok a
annotate-returned g m w a h = elim (Result-cases (m w).0) [
  | inl (b, got) ↦ ground arith
  | inr (x, got) ↦ absurd (ground arith)
]
