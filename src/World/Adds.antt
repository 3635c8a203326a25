-- ===== src/World/Adds.antt =====
-- What an action adds to what was sent, and what it returns, with a rule for each way to build an
-- action.
use tx_submitter.Base.{
  ℕ, ◌≡◌, refl, ap, ◌∙◌, Bool, true, false, if◌then◌else◌, List, [], ◌∷◌, ◌++◌, All, All-append,
}
use tx_submitter.Errors.{Error, Result, ok, err}
use tx_submitter.Metrics.{Metrics}
use tx_submitter.World.{
  World, Event, Action, ◌>>=◌, ◌>>◌, pure, fail, attempt, annotate, ignore, lift, try_else, ask,
  emit, measure, gets,
}
use tx_submitter.World.Returns.{bind-returned, annotate-returned}

-- What the action returns, if it returns a value, satisfies Q.
unfoldable pub Gives {ℓ} : {A : Type ℓ} → (A → Type 0) → Action A → Type ℓ
Gives {A = A} Q m = (w : World) (a : A) → (m w).0 ≡ ok a → Q a

pub Gives-bind :
    {A B : Type 0} (R : A → Type 0) (Q : B → Type 0) (m : Action A) (f : A → Action B)
    → Gives R m
    → ((a : A) → R a → Gives Q (f a))
    → Gives Q (m >>= f)
unfolding Gives
Gives-bind R Q m f hm hf w b h =
    let (a, got, then_b, _) = bind-returned m f w b h in hf a (hm w a got) (m w).1 b then_b

pub Gives-annotate :
    {A : Type 0} (Q : A → Type 0) (g : Error → Error) (m : Action A)
    → Gives Q m
    → Gives Q (annotate g m)
unfolding Gives
Gives-annotate Q g m hm w a h = hm w a (annotate-returned g m w a h)

pub Gives-lift :
    {A : Type 0} (Q : A → Type 0) (r : Result A) → ((a : A) → r ≡ ok a → Q a) → Gives Q (lift r)
unfolding Gives
Gives-lift Q r h w a got = h a got

pub Gives-any : {A : Type 0} (m : Action A) → Gives (λ a. Unit {0}) m
unfolding Gives
Gives-any m w a h = tt

-- New events are put in front of the old ones.
abbrev pub Extended : (Event → Type 0) → List Event → List Event → Type 0
Extended P old all = (new : List Event) × (all ≡ new ++ old) × All P new

pub Extended-refl : (P : Event → Type 0) (xs : List Event) → Extended P xs xs
Extended-refl P xs = ([], refl, tt)

append_assoc : (xs ys zs : List Event) → xs ++ (ys ++ zs) ≡ (xs ++ ys) ++ zs
append_assoc [] ys zs = refl
append_assoc (x ∷ xs) ys zs = ap (λ rest. x ∷ rest) (append_assoc xs ys zs)

pub Extended-trans :
    (P : Event → Type 0) (xs ys zs : List Event)
    → Extended P xs ys
    → Extended P ys zs
    → Extended P xs zs
Extended-trans P xs ys zs (a, ea, ha) (b, eb, hb) =
    (b ++ a, eb ∙ ap (λ l. b ++ l) ea ∙ append_assoc b a xs, All-append P b a hb ha)

module _ (P : Event → Type 0) where
  -- Everything that the action adds to the trace satisfies P.
  unfoldable pub Adds {ℓ} : {A : Type ℓ} → Action A → Type 0
  Adds m = (w : World) → Extended P w.trace (m w).1.trace

  module _ {ℓ} {A : Type ℓ} where
    pub Adds-run : (m : Action A) → Adds m → (w : World) → Extended P w.trace (m w).1.trace
    unfolding Adds
    Adds-run m h = h

    pub Adds-still : (m : Action A) → ((w : World) → (m w).1.trace ≡ w.trace) → Adds m
    unfolding Adds
    Adds-still m same w = ([], same w, tt)

    pub Adds-pure : (a : A) → Adds (pure a)
    Adds-pure a = Adds-still (pure a) λ w. refl

    pub Adds-lift : (r : Result A) → Adds (lift r)
    Adds-lift r = Adds-still (lift r) λ w. refl

    pub Adds-gets : (f : World → A) → Adds (gets f)
    Adds-gets f = Adds-still (gets f) λ w. refl

    pub Adds-ask : (f : ℕ → Result A) → Adds (ask f)
    Adds-ask f = Adds-still (ask f) λ w. refl

    pub Adds-annotate : (f : Error → Error) (m : Action A) → Adds m → Adds (annotate f m)
    unfolding Adds
    Adds-annotate f m h w = h w

    pub Adds-attempt : (m : Action A) → Adds m → Adds (attempt m)
    unfolding Adds
    Adds-attempt m h w = h w

    pub Adds-ignore : (m : Action A) → Adds m → Adds (ignore m)
    unfolding Adds
    Adds-ignore m h w = h w

    pub Adds-if : (b : Bool) (m k : Action A) → Adds m → Adds k → Adds (if b then m else k)
    Adds-if true m k hm hk = hm
    Adds-if false m k hm hk = hk

    -- What follows may use what is known of the value.
    pub Adds-given {μ} :
        {B : Type μ} (Q : A → Type 0) (m : Action A) (f : A → Action B)
        → Gives Q m
        → Adds m
        → ((a : A) → Q a → Adds (f a))
        → Adds (m >>= f)
    unfolding Adds Gives
    Adds-given Q m f gives hm hf w = continue_with (m w).0 refl
      where
        continue_with :
            (r : Result A)
            → (m w).0 ≡ r
            → Extended P w.trace (◌>>=◌ (λ _. (r, (m w).1)) f w).1.trace
        continue_with (ok a) got =
            Extended-trans P w.trace (m w).1.trace _ (hm w) (hf a (gives w a got) (m w).1)
        continue_with (err x) got = hm w

    pub Adds-bind {μ} :
        {B : Type μ} (m : Action A) (f : A → Action B)
        → Adds m
        → ((a : A) → Adds (f a))
        → Adds (m >>= f)
    unfolding Gives
    Adds-bind m f hm hf = Adds-given (λ a. Unit {0}) m f (λ w a h. tt) hm (λ a h. hf a)

    pub Adds-try_given {μ} :
        {B : Type μ} (Q : A → Type 0) (m : Action A) (on_err : Error → Action B)
        (on_ok : A → Action B)
        → Gives Q m
        → Adds m
        → ((x : Error) → Adds (on_err x))
        → ((a : A) → Q a → Adds (on_ok a))
        → Adds (try_else m on_err on_ok)
    unfolding Adds Gives try_else
    Adds-try_given {B} Q m on_err on_ok gives hm he ho w = continue_with (m w).0 refl
      where
        continue_with :
            (r : Result A)
            → (m w).0 ≡ r
            → Extended P w.trace (try_else (λ _. (r, (m w).1)) on_err on_ok w).1.trace
        continue_with (ok a) got =
            Extended-trans P w.trace (m w).1.trace _ (hm w) (ho a (gives w a got) (m w).1)
        continue_with (err x) got = Extended-trans P w.trace (m w).1.trace _ (hm w) (he x (m w).1)

    pub Adds-try_else {μ} :
        {B : Type μ} (m : Action A) (on_err : Error → Action B) (on_ok : A → Action B)
        → Adds m
        → ((x : Error) → Adds (on_err x))
        → ((a : A) → Adds (on_ok a))
        → Adds (try_else m on_err on_ok)
    unfolding Gives
    Adds-try_else m on_err on_ok hm he ho =
        Adds-try_given (λ a. Unit {0}) m on_err on_ok (λ w a h. tt) hm he (λ a h. ho a)

  pub Adds-fail {ℓ} : (A : Type ℓ) (x : Error) → Adds (fail {A = A} x)
  Adds-fail A x = Adds-still (fail x) λ w. refl

  pub Adds-measure : (f : Metrics → Metrics) → Adds (measure f)
  Adds-measure f = Adds-still (measure f) λ w. refl

  pub Adds-emit : (v : Event) → P v → Adds (emit v)
  unfolding Adds
  Adds-emit v h w = (v ∷ [], refl, (h, tt))

  pub Adds-then {μ} :
      {A : Type 0} {B : Type μ} (m : Action A) (k : Action B) → Adds m → Adds k → Adds (m >> k)
  Adds-then m k hm hk = Adds-bind m (λ _. k) hm (λ _. hk)

pub ruleset adds_rules = (
  Adds-pure, Adds-lift, Adds-gets, Adds-ask, Adds-annotate, Adds-attempt, Adds-ignore, Adds-if,
  Adds-bind, Adds-try_else, Adds-fail, Adds-measure, Adds-then,
)
