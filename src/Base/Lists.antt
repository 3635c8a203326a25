-- ===== src/Base/Lists.antt =====
-- Lists measured and cut by native numbers, under the library's names, and the tests on lists
-- that SQL's WHERE, ORDER BY and LIMIT are read by.
use Prim.Native.Nat.{ℕ, zero, suc, ◌+◌, ◌≤◌}
use mathlib.Core.Path.{◌≡◌, refl, subst}
use mathlib.Core.Logic.{inl, inr}
use mathlib.Core.Bool.{Bool, true, false}
use mathlib.Core.List.{List, [], ◌∷◌, ◌++◌}
use mathlib.Core.Option.{Option, none, some, none-ne-some, some-injective}
use native.Mathlib.Omega.{arith}
use tx_submitter.Base.Tests.{if◌then◌else◌, leb, Bool-cases}

module _ {ℓ} {A : Type ℓ} where
  abbrev pub length : List A → ℕ
  length [] = 0
  length (x ∷ xs) = suc (length xs)

  abbrev pub get_elem? : List A → ℕ → Option A
  get_elem? [] i = none
  get_elem? (x ∷ xs) zero = some x
  get_elem? (x ∷ xs) (suc i) = get_elem? xs i

  abbrev pub take : ℕ → List A → List A
  take zero xs = []
  take (suc n) [] = []
  take (suc n) (x ∷ xs) = x ∷ take n xs

  -- The rows that pass a test, in order.
  abbrev pub where_ : (A → Bool) → List A → List A
  where_ p [] = []
  where_ p (x ∷ xs) = let rest = where_ p xs in if p x then x ∷ rest else rest

  -- `SET … WHERE …`: the rows that pass a test are changed.
  abbrev pub update_where : (A → Bool) → (A → A) → List A → List A
  update_where p f [] = []
  update_where p f (x ∷ xs) = (if p x then f x else x) ∷ update_where p f xs

  -- A row goes before the first one with a greater key.
  abbrev pub insert_by : (A → ℕ) → A → List A → List A
  insert_by key x [] = x ∷ []
  insert_by key x (y ∷ ys) = if leb (key x) (key y) then x ∷ y ∷ ys else y ∷ insert_by key x ys

  -- `ORDER BY key ASC`; rows with equal keys keep the table's order.
  abbrev pub order_by : (A → ℕ) → List A → List A
  order_by key [] = []
  order_by key (x ∷ xs) = insert_by key x (order_by key xs)

  -- The first row that passes a test, as `QueryRow` reads it.
  abbrev pub find_where : (A → Bool) → List A → Option A
  find_where p [] = none
  find_where p (x ∷ xs) = if p x then some x else find_where p xs

  abbrev pub any : (A → Bool) → List A → Bool
  any p [] = false
  any p (x ∷ xs) = if p x then true else any p xs

  -- How many rows pass a test.
  abbrev pub count : (A → Bool) → List A → ℕ
  count p [] = 0
  count p (x ∷ xs) = let rest = count p xs in if p x then suc rest else rest

  abbrev pub All {κ} : (A → Type κ) → List A → Type κ
  All P [] = Unit
  All P (x ∷ xs) = P x × All P xs

  pub length-append : (xs ys : List A) → length (xs ++ ys) ≡ length xs + length ys
  length-append [] ys = omega arith
  length-append (x ∷ xs) ys = omega (arith, length-append xs ys)

  pub length-take-le : (n : ℕ) (xs : List A) → length (take n xs) ≤ n
  length-take-le zero xs = omega arith
  length-take-le (suc n) [] = omega arith
  length-take-le (suc n) (x ∷ xs) = omega (arith, length-take-le n xs)

module _ {ℓ} {A : Type ℓ} where
  pub All-append {κ} : (P : A → Type κ) (xs ys : List A) → All P xs → All P ys → All P (xs ++ ys)
  All-append P [] ys hx hy = hy
  All-append P (x ∷ xs) ys hx hy = (hx.0, All-append P xs ys hx.1 hy)

  pub All-map {κ μ} :
      (P : A → Type κ) (Q : A → Type μ) (xs : List A) → ((x : A) → P x → Q x) → All P xs → All Q xs
  All-map P Q [] f h = tt
  All-map P Q (x ∷ xs) f h = (f x h.0, All-map P Q xs f h.1)

  -- What holds of the rows before an update gives what holds of them after it.
  pub All-update_where {κ μ} :
      (P : A → Type κ) (Q : A → Type μ) (p : A → Bool) (f : A → A) (xs : List A)
      → ((x : A) → P x → p x ≡ true → Q (f x))
      → ((x : A) → P x → p x ≡ false → Q x)
      → All P xs
      → All Q (update_where p f xs)
  All-update_where P Q p f [] hit miss h = tt
  All-update_where P Q p f (x ∷ xs) hit miss h =
      let tail = All-update_where P Q p f xs hit miss h.1 in
      elim (Bool-cases (p x)) [
        | inl e ↦ rw e (hit x h.0 e, tail)
        | inr e ↦ rw e (miss x h.0 e, tail)
      ]

  -- The row that a query finds passes the query's test and is in the table.
  pub find_where-passes :
      (p : A → Bool) (xs : List A) (a : A) → find_where p xs ≡ some a → p a ≡ true
  find_where-passes p [] a h = absurd (none-ne-some a h)
  find_where-passes p (x ∷ xs) a h = elim (Bool-cases (p x)) [
    | inl e ↦ subst (λ b. p b ≡ true) (some-injective x a (rw e at h)) e
    | inr e ↦ find_where-passes p xs a (rw e at h)
  ]

  pub find_where-All {κ} :
      (P : A → Type κ) (p : A → Bool) (xs : List A) (a : A)
      → find_where p xs ≡ some a
      → All P xs
      → P a
  find_where-All P p [] a h all = absurd (none-ne-some a h)
  find_where-All P p (x ∷ xs) a h all = elim (Bool-cases (p x)) [
    | inl e ↦ subst P (some-injective x a (rw e at h)) all.0
    | inr e ↦ find_where-All P p xs a (rw e at h) all.1
  ]

  pub All-get_elem {κ} :
      (P : A → Type κ) (xs : List A) (i : ℕ) (a : A) → get_elem? xs i ≡ some a → All P xs → P a
  All-get_elem P [] i a h all = absurd (none-ne-some a h)
  All-get_elem P (x ∷ xs) zero a h all = subst P (some-injective x a h) all.0
  All-get_elem P (x ∷ xs) (suc i) a h all = All-get_elem P xs i a h all.1

  pub All-take {κ} : (P : A → Type κ) (n : ℕ) (xs : List A) → All P xs → All P (take n xs)
  All-take P zero xs h = tt
  All-take P (suc n) [] h = tt
  All-take P (suc n) (x ∷ xs) h = (h.0, All-take P n xs h.1)

  pub All-where_ : (p : A → Bool) (xs : List A) → All (λ x. p x ≡ true) (where_ p xs)
  All-where_ p [] = tt
  All-where_ p (x ∷ xs) = elim (Bool-cases (p x)) [
    | inl e ↦ rw e (e, All-where_ p xs)
    | inr e ↦ rw e (All-where_ p xs)
  ]

  All-insert_by {κ} :
      (P : A → Type κ) (key : A → ℕ) (x : A) (ys : List A)
      → P x
      → All P ys
      → All P (insert_by key x ys)
  All-insert_by P key x [] h all = (h, tt)
  All-insert_by P key x (y ∷ ys) h all = elim (Bool-cases (leb (key x) (key y))) [
    | inl e ↦ rw e (h, all)
    | inr e ↦ rw e (all.0, All-insert_by P key x ys h all.1)
  ]

  pub All-order_by {κ} :
      (P : A → Type κ) (key : A → ℕ) (xs : List A) → All P xs → All P (order_by key xs)
  All-order_by P key [] h = tt
  All-order_by P key (x ∷ xs) h =
      All-insert_by P key x (order_by key xs) h.0 (All-order_by P key xs h.1)

  length-insert_by :
      (key : A → ℕ) (x : A) (ys : List A) → length (insert_by key x ys) ≡ suc (length ys)
  length-insert_by key x [] = refl
  length-insert_by key x (y ∷ ys) = ground (arith, length-insert_by key x ys)

  pub length-order_by : (key : A → ℕ) (xs : List A) → length (order_by key xs) ≡ length xs
  length-order_by key [] = refl
  length-order_by key (x ∷ xs) =
      ground (arith, length-insert_by key x (order_by key xs), length-order_by key xs)

  pub length-where_ : (p : A → Bool) (xs : List A) → length (where_ p xs) ≡ count p xs
  length-where_ p [] = refl
  length-where_ p (x ∷ xs) = ground (arith, length-where_ p xs)

  -- What holds of every row holds of those that pass a test.
  pub All-where_of {κ} :
      (P : A → Type κ) (p : A → Bool) (xs : List A) → All P xs → All P (where_ p xs)
  All-where_of P p [] h = tt
  All-where_of P p (x ∷ xs) h = elim (Bool-cases (p x)) [
    | inl e ↦ rw e (h.0, All-where_of P p xs h.1)
    | inr e ↦ rw e (All-where_of P p xs h.1)
  ]

module _ {ℓ} {A : Type ℓ} (p : A → Bool) where
  pub count-take-le : (n : ℕ) (xs : List A) → count p (take n xs) ≤ count p xs
  count-take-le zero xs = omega arith
  count-take-le (suc n) [] = omega arith
  count-take-le (suc n) (x ∷ xs) = ground (arith, count-take-le n xs)

  pub count-where_-le : (q : A → Bool) (xs : List A) → count p (where_ q xs) ≤ count p xs
  count-where_-le q [] = omega arith
  count-where_-le q (x ∷ xs) = ground (arith, count-where_-le q xs)

  count-insert_by :
      (key : A → ℕ) (x : A) (ys : List A) → count p (insert_by key x ys) ≡ count p (x ∷ ys)
  count-insert_by key x [] = refl
  count-insert_by key x (y ∷ ys) = ground (arith, count-insert_by key x ys)

  pub count-order_by : (key : A → ℕ) (xs : List A) → count p (order_by key xs) ≡ count p xs
  count-order_by key [] = refl
  count-order_by key (x ∷ xs) =
      ground (arith, count-insert_by key x (order_by key xs), count-order_by key xs)
