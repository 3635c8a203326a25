-- ===== src/World/Keeps.antt =====
-- A predicate of the tables that an action keeps, with a rule for each way to build an action.
use tx_submitter.Base.{ℕ, inl, inr, Option-cases, Bool, if◌then◌else◌, true, false}
use tx_submitter.Errors.{Error, Result, ok, err}
use tx_submitter.External.{Env}
use tx_submitter.Metrics.{Metrics}
use tx_submitter.World.{
  Db, World, Event, Action, ◌>>=◌, ◌>>◌, pure, fail, annotate, attempt, ignore, try_else, lift, ask,
  emit, measure, statement, gets,
}

module _ {κ} (P : Db → Type κ) where
  pub Keeps {ℓ} : {A : Type ℓ} → Action A → Type κ
  Keeps m = (w : World) → P w.db → P (m w).1.db

  module _ {ℓ} {A : Type ℓ} where
    pub Keeps-intro : (m : Action A) → ((w : World) → P w.db → P (m w).1.db) → Keeps m
    unfolding Keeps
    Keeps-intro m h = h

    pub Keeps-run : (m : Action A) → Keeps m → (w : World) → P w.db → P (m w).1.db
    unfolding Keeps
    Keeps-run m h = h

    pub Keeps-pure : (a : A) → Keeps (pure a)
    unfolding Keeps
    Keeps-pure a w h = h

    pub Keeps-lift : (r : Result A) → Keeps (lift r)
    unfolding Keeps
    Keeps-lift r w h = h

    pub Keeps-gets : (f : World → A) → Keeps (gets f)
    unfolding Keeps
    Keeps-gets f w h = h

    pub Keeps-ask : (f : ℕ → Result A) → Keeps (ask f)
    unfolding Keeps
    Keeps-ask f w h = h

    pub Keeps-annotate : (f : Error → Error) (m : Action A) → Keeps m → Keeps (annotate f m)
    unfolding Keeps
    Keeps-annotate f m k w h = k w h

    pub Keeps-attempt : (m : Action A) → Keeps m → Keeps (attempt m)
    unfolding Keeps
    Keeps-attempt m k w h = k w h

    pub Keeps-ignore : (m : Action A) → Keeps m → Keeps (ignore m)
    unfolding Keeps
    Keeps-ignore m k w h = k w h

    pub Keeps-if : (b : Bool) (m k : Action A) → Keeps m → Keeps k → Keeps (if b then m else k)
    Keeps-if true m k hm hk = hm
    Keeps-if false m k hm hk = hk

    pub Keeps-bind {μ} :
        {B : Type μ} (m : Action A) (f : A → Action B)
        → Keeps m
        → ((a : A) → Keeps (f a))
        → Keeps (m >>= f)
    unfolding Keeps
    Keeps-bind m f km kf w h = continue_with (m w).0
      where
        continue_with : (r : Result A) → P (◌>>=◌ (λ _. (r, (m w).1)) f w).1.db
        continue_with (ok a) = kf a (m w).1 (km w h)
        continue_with (err x) = km w h

    -- A statement that changes no table.
    pub Keeps-query : (e : Env) (f : ℕ → Db → Result A) → Keeps (statement e λ n db. (f n db, db))
    unfolding Keeps
    Keeps-query e f w h = elim (Option-cases (e.db_fault w.calls)) [
      | inl up ↦ rw (up, statement) h
      | inr (text, down) ↦ rw (down, statement) h
    ]

    pub Keeps-statement :
        (e : Env) (run : ℕ → Db → Result A × Db)
        → ((n : ℕ) (db : Db) → P db → P (run n db).1)
        → Keeps (statement e run)
    unfolding Keeps
    Keeps-statement e run k w h = elim (Option-cases (e.db_fault w.calls)) [
      | inl up ↦ rw (up, statement) (k w.calls w.db h)
      | inr (text, down) ↦ rw (down, statement) h
    ]

  pub Keeps-fail {ℓ} : (A : Type ℓ) (x : Error) → Keeps (fail {A = A} x)
  unfolding Keeps
  Keeps-fail A x w h = h

  pub Keeps-then {μ} :
      {A : Type 0} {B : Type μ} (m : Action A) (k : Action B) → Keeps m → Keeps k → Keeps (m >> k)
  Keeps-then m k hm hk = Keeps-bind m (λ _. k) hm (λ _. hk)

  pub Keeps-try_else {ℓ μ} :
      {A : Type ℓ} {B : Type μ} (m : Action A) (on_err : Error → Action B) (on_ok : A → Action B)
      → Keeps m
      → ((x : Error) → Keeps (on_err x))
      → ((a : A) → Keeps (on_ok a))
      → Keeps (try_else m on_err on_ok)
  unfolding Keeps try_else
  Keeps-try_else {A} m on_err on_ok km ke ko w h = continue_with (m w).0
    where
      continue_with : (r : Result A) → P (try_else (λ _. (r, (m w).1)) on_err on_ok w).1.db
      continue_with (ok a) = ko a (m w).1 (km w h)
      continue_with (err x) = ke x (m w).1 (km w h)

  pub Keeps-emit : (v : Event) → Keeps (emit v)
  unfolding Keeps
  Keeps-emit v w h = h

  pub Keeps-measure : (f : Metrics → Metrics) → Keeps (measure f)
  unfolding Keeps
  Keeps-measure f w h = h

pub ruleset keeps_rules = (
  Keeps-pure, Keeps-fail, Keeps-lift, Keeps-gets, Keeps-ask, Keeps-annotate, Keeps-attempt,
  Keeps-ignore, Keeps-if, Keeps-bind, Keeps-then, Keeps-try_else, Keeps-query, Keeps-emit,
  Keeps-measure,
)
