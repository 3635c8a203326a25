-- ===== src/Submitter/Contents.antt =====
-- What is in the transactions that the engine builds.
use tx_submitter.Base.{ℕ, ◌≡◌, refl, sym, subst, [], ◌∷◌, arith}
use tx_submitter.Base.Int.{ℤ, ◌≤ℤ◌}
use tx_submitter.Base.Text.{Text, text_eq, codes}
use tx_submitter.State.{Transaction, ChannelAccount}
use tx_submitter.Errors.{wrap, ok}
use tx_submitter.External.{
  Env, KeyPair, Envelope, FeeBump, FeeBumpParams, TransactionParams, payment,
}
use tx_submitter.World.{Action, ◌>>=◌, annotate, lift, Event, sent, sent_fee_bump, slept}
use tx_submitter.World.Adds.{Gives, Gives-bind, Gives-annotate, Gives-lift, Gives-any}
use tx_submitter.Retry.{Floats}
use tx_submitter.Submitter.Builder.{Builder, build, payment_transaction, resolve_asset}
use tx_submitter.Submitter.Signing.{
  Engine, build_signed_payment, build_fee_bump, current_ledger_bound, payment_params,
  sign_as_source, fee_bump_params,
}
use tx_submitter.Submitter.Fees.{capped_fee-le}

-- The SDK builds what it is given, and a signature leaves it as it is.
pub record KeepsContents (e : Env) : Type 0 where
  pub builds : (p : TransactionParams) (t : Envelope) → e.new_transaction p ≡ ok t → t.params ≡ p
  pub signs :
      (pass : Text) (kp : KeyPair) (t t' : Envelope)
      → e.sign pass kp t ≡ ok t'
      → t'.params ≡ t.params
  pub bumps : (p : FeeBumpParams) (f : FeeBump) → e.new_fee_bump p ≡ ok f → f.params ≡ p
  pub signs_bump :
      (pass : Text) (kp : KeyPair) (f f' : FeeBump)
      → e.sign_fee_bump pass kp f ≡ ok f'
      → f'.params ≡ f.params

-- One payment, to the transaction's destination, of its amount and asset, with a base fee that is
-- not above the maximum, for at most five minutes.
pub record PaysFor (e : Env) (b : Builder) (tx : Transaction) (p : TransactionParams) : Type 0 where
  pub operations :
      p.operations
      ≡ payment tx.destination
          (e.decimal_string tx.amount)
          (resolve_asset tx.asset_code tx.asset_issuer)
        ∷ []
  pub base_fee : p.base_fee ≤ℤ b.max_base_fee
  pub timeout : p.timeout ≡ 300

-- What is sent for a transaction is such a payment, or a fee bump around one.
abbrev pub IsFor : Env → Builder → Transaction → Event → Type 0
IsFor e b tx (sent t) = PaysFor e b tx t.params
IsFor e b tx (sent_fee_bump f) = PaysFor e b tx f.params.inner.params
IsFor e b tx (slept d) = Unit

module _ (F : Floats) (e : Env) (g : Engine F) (tx : Transaction) (k : KeepsContents e) where
  abbrev pub Paying : Envelope → Type 0
  Paying t = PaysFor e g.builder tx t.params

  payment_PaysFor :
      (ca : ChannelAccount) (ledger : ℕ) (fee : ℤ)
      → PaysFor e g.builder tx (payment_transaction g.builder (payment_params e tx ca ledger fee))
  payment_PaysFor ca ledger fee = record {
    operations = refl;
    base_fee = capped_fee-le g.builder fee;
    timeout = refl;
  }

  build-Paying :
      (ca : ChannelAccount) (ledger : ℕ) (fee : ℤ) (t : Envelope)
      → build e g.builder (payment_params e tx ca ledger fee) ≡ ok t
      → Paying t
  unfolding build
  build-Paying ca ledger fee t h =
      let same : t.params ≡ payment_transaction g.builder (payment_params e tx ca ledger fee) =
        ground
          (arith, k.builds (payment_transaction g.builder (payment_params e tx ca ledger fee)) t) in
      subst (PaysFor e g.builder tx) (sym same) (payment_PaysFor ca ledger fee)

  sign-Paying :
      (pass : Text) (kp : KeyPair) (t t' : Envelope)
      → Paying t
      → e.sign pass kp t ≡ ok t'
      → Paying t'
  sign-Paying pass kp t t' h got = subst (PaysFor e g.builder tx) (sym (k.signs pass kp t t' got)) h

  source_params :
      (ca : ChannelAccount) (t t' : Envelope)
      → sign_as_source F e g tx ca t ≡ ok t'
      → t'.params ≡ t.params
  unfolding sign_as_source
  source_params ca t t' got = grind (arith, k.signs)

  sign_as_source-Paying :
      (ca : ChannelAccount) (t t' : Envelope)
      → Paying t
      → sign_as_source F e g tx ca t ≡ ok t'
      → Paying t'
  sign_as_source-Paying ca t t' h got =
      subst (PaysFor e g.builder tx) (sym (source_params ca t t' got)) h

  -- `buildSignedPayment` from each of its steps on.
  abbrev signing : ChannelAccount → KeyPair → Envelope → Action Envelope
  signing ca kp built = do
    signed ←
        annotate (wrap (codes "signing with channel key")) (lift (e.sign g.network_pass kp built))
    lift (sign_as_source F e g tx ca signed)

  abbrev building : ChannelAccount → ℤ → KeyPair → ℕ → Action Envelope
  building ca fee kp ledger = do
    built ← lift (build e g.builder (payment_params e tx ca ledger fee))
    signing ca kp built

  signing-Paying :
      (ca : ChannelAccount) (kp : KeyPair) (built : Envelope)
      → Paying built
      → Gives Paying (signing ca kp built)
  signing-Paying ca kp built h =
      Gives-bind Paying Paying
        (annotate (wrap (codes "signing with channel key")) (lift (e.sign g.network_pass kp built)))
        (λ signed. lift (sign_as_source F e g tx ca signed))
        (Gives-annotate Paying (wrap (codes "signing with channel key"))
          (lift (e.sign g.network_pass kp built))
          (Gives-lift Paying (e.sign g.network_pass kp built)
            λ t got. sign-Paying g.network_pass kp built t h got))
        λ signed h'.
          Gives-lift Paying (sign_as_source F e g tx ca signed)
            λ t got. sign_as_source-Paying ca signed t h' got

  building-Paying :
      (ca : ChannelAccount) (fee : ℤ) (kp : KeyPair) (ledger : ℕ)
      → Gives Paying (building ca fee kp ledger)
  building-Paying ca fee kp ledger =
      Gives-bind Paying Paying (lift (build e g.builder (payment_params e tx ca ledger fee)))
        (signing ca kp) (Gives-lift Paying _ (build-Paying ca ledger fee)) (signing-Paying ca kp)

  pub build_signed_payment-Paying :
      (ca : ChannelAccount) (fee : ℤ) → Gives Paying (build_signed_payment F e g tx ca fee)
  unfolding build_signed_payment
  build_signed_payment-Paying ca fee =
      Gives-bind (λ _. Unit {0}) Paying
        (annotate (wrap (codes "parsing channel key")) (lift (e.parse_full ca.secret_key)))
        (λ kp. current_ledger_bound e >>= building ca fee kp) (Gives-any _)
        λ kp _.
          Gives-bind (λ _. Unit {0}) Paying (current_ledger_bound e) (building ca fee kp)
            (Gives-any _) λ ledger _. building-Paying ca fee kp ledger

  abbrev pub Bumping : FeeBump → Type 0
  Bumping f = Paying f.params.inner

  -- `buildFeeBump` from each of its steps on.
  abbrev bumping : ℤ → Envelope → Action FeeBump
  bumping fee inner = do
    fee_bump ←
        annotate (wrap (codes "building fee-bump tx"))
          (lift (e.new_fee_bump (fee_bump_params F e g inner fee)))
    annotate (wrap (codes "signing fee-bump tx"))
        (lift (e.sign_fee_bump g.network_pass g.distribution_kp fee_bump))

  abbrev inner_signing : ℤ → KeyPair → Envelope → Action FeeBump
  inner_signing fee kp built = do
    inner ← annotate (wrap (codes "signing inner tx")) (lift (e.sign g.network_pass kp built))
    bumping fee inner

  abbrev inner_building : ChannelAccount → ℤ → KeyPair → ℕ → Action FeeBump
  inner_building ca fee kp ledger = do
    built ←
        annotate (wrap (codes "building inner tx for fee-bump"))
          (lift (build e g.builder (payment_params e tx ca ledger fee)))
    inner_signing fee kp built

  bumping-Bumping : (fee : ℤ) (inner : Envelope) → Paying inner → Gives Bumping (bumping fee inner)
  bumping-Bumping fee inner h =
      Gives-bind Bumping Bumping
        (annotate (wrap (codes "building fee-bump tx"))
          (lift (e.new_fee_bump (fee_bump_params F e g inner fee))))
        (λ fee_bump.
          annotate (wrap (codes "signing fee-bump tx"))
            (lift (e.sign_fee_bump g.network_pass g.distribution_kp fee_bump)))
        (Gives-annotate Bumping _ _ (
          Gives-lift Bumping (e.new_fee_bump (fee_bump_params F e g inner fee))
            λ f got. subst (λ p. PaysFor e g.builder tx p.inner.params) (sym (k.bumps _ f got)) h))
        λ f h'. Gives-annotate Bumping _ _ (
          Gives-lift Bumping (e.sign_fee_bump g.network_pass g.distribution_kp f) λ f' got.
            subst (λ p. PaysFor e g.builder tx p.inner.params)
              (sym (k.signs_bump g.network_pass g.distribution_kp f f' got)) h')

  inner_signing-Bumping :
      (fee : ℤ) (kp : KeyPair) (built : Envelope)
      → Paying built
      → Gives Bumping (inner_signing fee kp built)
  inner_signing-Bumping fee kp built h =
      Gives-bind Paying Bumping
        (annotate (wrap (codes "signing inner tx")) (lift (e.sign g.network_pass kp built)))
        (bumping fee)
        (Gives-annotate Paying _ _ (
          Gives-lift Paying (e.sign g.network_pass kp built)
            λ t got. sign-Paying g.network_pass kp built t h got))
        (bumping-Bumping fee)

  inner_building-Bumping :
      (ca : ChannelAccount) (fee : ℤ) (kp : KeyPair) (ledger : ℕ)
      → Gives Bumping (inner_building ca fee kp ledger)
  inner_building-Bumping ca fee kp ledger =
      Gives-bind Paying Bumping
        (annotate (wrap (codes "building inner tx for fee-bump"))
          (lift (build e g.builder (payment_params e tx ca ledger fee))))
        (inner_signing fee kp)
        (Gives-annotate Paying _ _ (
          Gives-lift Paying (build e g.builder (payment_params e tx ca ledger fee))
            (build-Paying ca ledger fee)))
        (inner_signing-Bumping fee kp)

  pub build_fee_bump-Bumping :
      (ca : ChannelAccount) (fee : ℤ) → Gives Bumping (build_fee_bump F e g tx ca fee)
  unfolding build_fee_bump
  build_fee_bump-Bumping ca fee =
      Gives-bind (λ _. Unit {0}) Bumping
        (annotate (wrap (codes "parsing channel key for fee-bump"))
          (lift (e.parse_full ca.secret_key)))
        (λ kp. current_ledger_bound e >>= inner_building ca fee kp) (Gives-any _)
        λ kp _.
          Gives-bind (λ _. Unit {0}) Bumping (current_ledger_bound e) (inner_building ca fee kp)
            (Gives-any _) λ ledger _. inner_building-Bumping ca fee kp ledger
