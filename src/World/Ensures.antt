-- ===== src/World/Ensures.antt =====
-- What an action makes of the tables: from P to Q of the value if it returns one, to R if it returns
-- an error, with a rule for each way to build an action.
use tx_submitter.Base.{
  ℕ, inl, inr, Option-cases, ◌≡◌, refl, subst, Bool, true, false, if◌then◌else◌,
}
use tx_submitter.Errors.{Error, Result, ok, err}
use tx_submitter.External.{Env}
use tx_submitter.World.{
  statement, Db, World, Action, ◌>>=◌, ◌>>◌, pure, fail, annotate, attempt, ignore, lift, try_else,
}
use tx_submitter.World.Keeps.{Keeps, Keeps-run}

abbrev pub Outcome {ℓ} : {A : Type ℓ} → (A → Db → Type 0) → (Db → Type 0) → Result A → Db → Type 0
Outcome Q R (ok a) db = Q a db
Outcome Q R (err _) db = R db

pub Ensures {ℓ} :
    {A : Type ℓ} → (Db → Type 0) → Action A → (A → Db → Type 0) → (Db → Type 0) → Type 0
Ensures P m Q R = (w : World) → P w.db → Outcome Q R (m w).0 (m w).1.db

module _ {ℓ} {A : Type ℓ} where
  pub Ensures-intro :
      (P : Db → Type 0) (m : Action A) (Q : A → Db → Type 0) (R : Db → Type 0)
      → ((w : World) → P w.db → Outcome Q R (m w).0 (m w).1.db)
      → Ensures P m Q R
  unfolding Ensures
  Ensures-intro P m Q R h = h

  pub Ensures-at :
      (P : Db → Type 0) (m : Action A) (Q : A → Db → Type 0) (R : Db → Type 0)
      → Ensures P m Q R
      → (w : World) → P w.db
      → Outcome Q R (m w).0 (m w).1.db
  unfolding Ensures
  Ensures-at P m Q R h = h

  pub Ensures-ok :
      (P : Db → Type 0) (m : Action A) (Q : A → Db → Type 0) (R : Db → Type 0)
      → Ensures P m Q R
      → (w : World) (a : A) → P w.db
      → (m w).0 ≡ ok a
      → Q a (m w).1.db
  unfolding Ensures
  Ensures-ok P m Q R h w a p got = subst (λ r. Outcome Q R r (m w).1.db) got (h w p)

  -- By what the action returns.
  pub Ensures-cases :
      (P : Db → Type 0) (m : Action A) (Q : A → Db → Type 0) (R : Db → Type 0)
      → ((w : World) (a : A) → P w.db → (m w).0 ≡ ok a → Q a (m w).1.db)
      → ((w : World) (x : Error) → P w.db → (m w).0 ≡ err x → R (m w).1.db)
      → Ensures P m Q R
  unfolding Ensures
  Ensures-cases P m Q R good bad w p = split (m w).0 refl
    where
      split : (r : Result A) → (m w).0 ≡ r → Outcome Q R r (m w).1.db
      split (ok a) got = good w a p got
      split (err x) got = bad w x p got

  Outcome-both : (Q : Db → Type 0) (r : Result A) (db : Db) → Q db → Outcome (λ _. Q) Q r db
  Outcome-both Q (ok a) db h = h
  Outcome-both Q (err x) db h = h

  Outcome-same : (Q : Db → Type 0) (r : Result A) (db : Db) → Outcome (λ _. Q) Q r db → Q db
  Outcome-same Q (ok a) db h = h
  Outcome-same Q (err x) db h = h

  pub Ensures-run :
      (P : Db → Type 0) (m : Action A) (Q : Db → Type 0)
      → Ensures P m (λ _. Q) Q
      → (w : World) → P w.db
      → Q (m w).1.db
  unfolding Ensures
  Ensures-run P m Q h w p = Outcome-same Q (m w).0 (m w).1.db (h w p)

  pub Ensures-Keeps : (P : Db → Type 0) (m : Action A) → Keeps P m → Ensures P m (λ _. P) P
  unfolding Ensures
  Ensures-Keeps P m k w h = Outcome-both P (m w).0 (m w).1.db (Keeps-run P m k w h)

  pub Ensures-weaken :
      (P P' : Db → Type 0) (m : Action A) (Q Q' : A → Db → Type 0) (R R' : Db → Type 0)
      → ((db : Db) → P' db → P db)
      → ((a : A) (db : Db) → Q a db → Q' a db)
      → ((db : Db) → R db → R' db)
      → Ensures P m Q R
      → Ensures P' m Q' R'
  unfolding Ensures
  Ensures-weaken P P' m Q Q' R R' fp fq fr h w p = weaken (m w).0 (h w (fp w.db p))
    where
      weaken : (r : Result A) → Outcome Q R r (m w).1.db → Outcome Q' R' r (m w).1.db
      weaken (ok a) q = fq a _ q
      weaken (err x) q = fr _ q

  pub Ensures-annotate :
      (P : Db → Type 0) (f : Error → Error) (m : Action A) (Q : A → Db → Type 0) (R : Db → Type 0)
      → Ensures P m Q R
      → Ensures P (annotate f m) Q R
  unfolding Ensures
  Ensures-annotate P f m Q R h w p = renamed (m w).0 (h w p)
    where
      renamed :
          (r : Result A)
          → Outcome Q R r (m w).1.db
          → Outcome Q R (annotate f (λ _. (r, (m w).1)) w).0 (m w).1.db
      renamed (ok a) q = q
      renamed (err x) q = q

  pub Ensures-attempt :
      (P : Db → Type 0) (m : Action A) (Q : Db → Type 0)
      → Ensures P m (λ _. Q) Q
      → Ensures P (attempt m) (λ _. Q) Q
  unfolding Ensures
  Ensures-attempt P m Q h w p = Outcome-same Q (m w).0 (m w).1.db (h w p)

  pub Ensures-ignore :
      (P : Db → Type 0) (m : Action A) (Q : Db → Type 0)
      → Ensures P m (λ _. Q) Q
      → Ensures P (ignore m) (λ _. Q) Q
  unfolding Ensures
  Ensures-ignore P m Q h w p = Outcome-same Q (m w).0 (m w).1.db (h w p)

  pub Ensures-lift : (P : Db → Type 0) (r : Result A) → Ensures P (lift r) (λ _. P) P
  unfolding Ensures
  Ensures-lift P r w p = Outcome-both P r w.db p

  pub Ensures-pure :
      (P : Db → Type 0) (a : A) (Q : A → Db → Type 0) (R : Db → Type 0)
      → ((db : Db) → P db → Q a db)
      → Ensures P (pure a) Q R
  unfolding Ensures
  Ensures-pure P a Q R h w p = h w.db p

  pub Ensures-if :
      (P : Db → Type 0) (b : Bool) (m k : Action A) (Q : A → Db → Type 0) (R : Db → Type 0)
      → Ensures P m Q R
      → Ensures P k Q R
      → Ensures P (if b then m else k) Q R
  Ensures-if P true m k Q R hm hk = hm
  Ensures-if P false m k Q R hm hk = hk

  pub Ensures-bind {μ} :
      {B : Type μ} (P : Db → Type 0) (Q : A → Db → Type 0) (S : B → Db → Type 0) (R : Db → Type 0)
      (m : Action A) (f : A → Action B)
      → Ensures P m Q R
      → ((a : A) → Ensures (Q a) (f a) S R)
      → Ensures P (m >>= f) S R
  unfolding Ensures
  Ensures-bind P Q S R m f hm hf w p = continue_with (m w).0 (hm w p)
    where
      continue_with :
          (r : Result A)
          → Outcome Q R r (m w).1.db
          → Outcome S R (◌>>=◌ (λ _. (r, (m w).1)) f w).0 (◌>>=◌ (λ _. (r, (m w).1)) f w).1.db
      continue_with (ok a) q = hf a (m w).1 q
      continue_with (err x) q = q

  pub Ensures-try_else {μ} :
      {B : Type μ} (P : Db → Type 0) (Q : A → Db → Type 0) (E : Db → Type 0) (S : B → Db → Type 0)
      (R : Db → Type 0) (m : Action A) (on_err : Error → Action B) (on_ok : A → Action B)
      → Ensures P m Q E
      → ((x : Error) → Ensures E (on_err x) S R)
      → ((a : A) → Ensures (Q a) (on_ok a) S R)
      → Ensures P (try_else m on_err on_ok) S R
  unfolding Ensures try_else
  Ensures-try_else {B} P Q E S R m on_err on_ok hm he ho w p = continue_with (m w).0 (hm w p)
    where
      continue_with :
          (r : Result A)
          → Outcome Q E r (m w).1.db
          → Outcome S R
              (try_else (λ _. (r, (m w).1)) on_err on_ok w).0
              (try_else (λ _. (r, (m w).1)) on_err on_ok w).1.db
      continue_with (ok a) q = ho a (m w).1 q
      continue_with (err x) q = he x (m w).1 q

-- A statement that the driver refuses changes nothing.
pub Ensures-statement {ℓ} :
    {A : Type ℓ} (P : Db → Type 0) (e : Env) (run : ℕ → Db → Result A × Db) (Q : A → Db → Type 0)
    (R : Db → Type 0)
    → ((db : Db) → P db → R db)
    → ((n : ℕ) (db : Db) → P db → Outcome Q R (run n db).0 (run n db).1)
    → Ensures P (statement e run) Q R
unfolding Ensures
Ensures-statement P e run Q R refused k w p = elim (Option-cases (e.db_fault w.calls)) [
  | inl up ↦ rw (up, statement) (k w.calls w.db p)
  | inr (text, down) ↦ rw (down, statement) (refused w.db p)
]

pub Ensures-fail {ℓ} :
    (P : Db → Type 0) (A : Type ℓ) (x : Error) (Q : A → Db → Type 0)
    → Ensures P (fail {A = A} x) Q P
unfolding Ensures
Ensures-fail P A x Q w p = p

pub Ensures-then {μ} :
    {A : Type 0} {B : Type μ} (P Q : Db → Type 0) (S : B → Db → Type 0) (R : Db → Type 0)
    (m : Action A) (k : Action B)
    → Ensures P m (λ _. Q) R
    → Ensures Q k S R
    → Ensures P (m >> k) S R
Ensures-then P Q S R m k hm hk = Ensures-bind P (λ _. Q) S R m (λ _. k) hm (λ _. hk)

-- What does not depend on the tables is a hypothesis.
pub Ensures-given :
    {A : Type 0} (G : Type 0) (P : Db → Type 0) (m : Action A) (Q : A → Db → Type 0)
    (R : Db → Type 0)
    → (G → Ensures P m Q R)
    → Ensures (λ db. G × P db) m Q R
Ensures-given G P m Q R h =
    Ensures-intro (λ db. G × P db) m Q R λ w (given, p). Ensures-at P m Q R (h given) w p
