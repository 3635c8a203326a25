-- ===== src/Pool/Provision/Keys.antt =====
-- The keys of the accounts that `ProvisionAccounts` creates.
use tx_submitter.Base.{
  ℕ, zero, suc, ◌≤◌, ◌≡◌, refl, ap, subst, List, [], ◌∷◌, ◌++◌, arith, map, count, length,
}
use tx_submitter.Base.Int.{ℤ, pos, negsuc, pos_part}
use tx_submitter.Base.Text.{Text, text_eq, codes, decimal}
use tx_submitter.Errors.{wrap, ok}
use tx_submitter.External.{Env, KeyPair}
use tx_submitter.World.{Db, World, Action, ◌>>=◌, annotate, Event, lift, emit, ask, pure, ◌>>◌}
use tx_submitter.World.Keeps.{Keeps, Keeps-pure, Keeps-run, keeps_rules}
use tx_submitter.World.Ensures.{Ensures, Ensures-Keeps, Ensures-bind, Ensures-cases, Ensures-pure}
use tx_submitter.World.Returns.{ok-injective, bind-returned, annotate-returned}
use tx_submitter.Pool.Provision.{
  provision_params, Provisioner, generate_keys, provision_some, provision_accounts,
}

-- Keys that `keypair.Random` gave, each at a later call than the one before.
abbrev pub Given : Env → ℕ → List KeyPair → Type 0
Given e from [] = Unit
Given e from (kp ∷ rest) = (n : ℕ) × (from ≤ n) × (e.random_key n ≡ ok kp) × Given e (suc n) rest

module _ (e : Env) where
  generate_keys-same : (db : Db) (rounds i : ℕ) → Keeps (λ d. d ≡ db) (generate_keys e rounds i)
  unfolding generate_keys
  generate_keys-same db zero i = Keeps-pure (λ d. d ≡ db) []
  generate_keys-same db (suc rounds) i =
      search (keeps_rules, generate_keys-same db rounds (suc i)) depth 8

  abbrev one_key : ℕ → Action KeyPair
  one_key i = annotate (wrap (codes "generating keypair " ++ decimal i)) (ask e.random_key)

  abbrev more_keys : ℕ → ℕ → KeyPair → Action (List KeyPair)
  more_keys rounds i kp = do rest ← generate_keys e rounds (suc i); pure (kp ∷ rest)

  generate_keys-Given :
      (rounds i : ℕ) (w : World) (ks : List KeyPair)
      → (generate_keys e rounds i w).0 ≡ ok ks
      → Given e w.calls ks × (length ks ≡ rounds)
  unfolding generate_keys
  generate_keys-Given zero i w ks h =
      subst (λ x. Given e w.calls x × (length x ≡ 0)) (ok-injective [] ks h) (tt, refl)
  generate_keys-Given (suc rounds) i w ks h =
      let (kp, got, then, _) = bind-returned (one_key i) (more_keys rounds i) w ks h in
      let asked = (one_key i w).1 in
      let (rest, got', last, _) =
        bind-returned (generate_keys e rounds (suc i)) (λ rest. pure (kp ∷ rest)) asked ks then in
      let (later, long) = generate_keys-Given rounds (suc i) asked rest got' in
      subst (λ x. Given e w.calls x × (length x ≡ suc rounds)) (ok-injective (kp ∷ rest) ks last)
        (
          (
            w.calls,
            omega arith,
            annotate-returned (wrap (codes "generating keypair " ++ decimal i)) (ask e.random_key) w
                kp got,
            later,
          ),
          ap suc long,
        )

  -- What `ProvisionAccounts` returns: the seeds of that many keys.
  abbrev pub Seeds : Db → ℕ → List Text → Db → Type 0
  Seeds before count seeds db =
      (ks : List KeyPair) × Given e 0 ks
      × (length ks ≡ count)
      × (seeds ≡ map (λ kp. kp.seed) ks)
      × (db ≡ before)

  module _ (before : Db) where
    abbrev Same : Db → Type 0
    Same db = db ≡ before

    abbrev Keys : ℕ → List KeyPair → Db → Type 0
    Keys count ks db = Given e 0 ks × (length ks ≡ count) × (db ≡ before)

    from_start : (n : ℕ) (ks : List KeyPair) → Given e n ks → Given e 0 ks
    from_start n [] h = tt
    from_start n (kp ∷ ks) (m, le, given, rest) = (m, omega arith, given, rest)

    generate_keys-Keys : (rounds : ℕ) → Ensures Same (generate_keys e rounds 0) (Keys rounds) Same
    generate_keys-Keys rounds =
        Ensures-cases Same (generate_keys e rounds 0) (Keys rounds) Same
          (λ w ks same got.
            let (given, long) = generate_keys-Given rounds 0 w ks got in
            (
              from_start w.calls ks given,
              long,
              Keeps-run Same _ (generate_keys-same before rounds 0) w same,
            ))
          (λ w x same got. Keeps-run Same _ (generate_keys-same before rounds 0) w same)

    -- What follows the keys.
    abbrev sending : Provisioner → ℕ → Text → ℤ → List KeyPair → Action (List Text)
    sending p count starting_balance sequence keys = do
      built ←
          annotate (wrap (codes "building provision transaction"))
            (lift (e.new_transaction (provision_params e p sequence starting_balance count keys)))
      signed ←
          annotate (wrap (codes "signing provision transaction"))
            (lift (e.sign p.network_pass p.distribution_kp built))
      emit (Event.sent signed)
      hash ←
          annotate (wrap (codes "submitting provision transaction"))
            (ask λ n. e.submit_transaction n signed)
      pure (map (λ kp. kp.seed) keys)

    sending-Seeds :
        (p : Provisioner) (count rounds : ℕ) (b : Text) (z : ℤ) (ks : List KeyPair)
        → Ensures (Keys rounds ks) (sending p count b z ks) (Seeds before rounds) Same
    sending-Seeds p count rounds b z ks =
        Ensures-cases (Keys rounds ks) (sending p count b z ks) (Seeds before rounds) Same
          (λ w ss (given, long, same) got. (
            ks,
            given,
            long,
            ground arith,
            Keeps-run Same (sending p count b z ks) (search keeps_rules depth 12) w same,
          ))
          (λ w x (given, long, same) got.
            Keeps-run Same (sending p count b z ks) (search keeps_rules depth 12) w same)

    provision_some-Seeds :
        (p : Provisioner) (count : ℕ) (b : Text)
        → Ensures Same (provision_some e p count b) (Seeds before count) Same
    unfolding provision_some
    provision_some-Seeds p count b =
        Ensures-bind Same (λ _. Same) (Seeds before count) Same _ _
          (Ensures-Keeps Same
            (annotate (wrap (codes "fetching distribution account"))
              (ask λ n. e.account_detail n p.distribution_kp.address))
            (search keeps_rules))
          λ z.
            Ensures-bind Same (Keys count) (Seeds before count) Same (generate_keys e count 0)
              (sending p count b z) (generate_keys-Keys count)
              λ ks. sending-Seeds p count count b z ks

    pub provision_accounts-Seeds :
        (p : Provisioner) (z : ℤ) (b : Text)
        → Ensures Same (provision_accounts e p z b) (Seeds before (pos_part z)) Same
    unfolding provision_accounts
    provision_accounts-Seeds p (pos zero) b =
        Ensures-pure Same [] _ Same λ db same. ([], tt, refl, refl, same)
    provision_accounts-Seeds p (pos (suc n)) b = provision_some-Seeds p (suc n) b
    provision_accounts-Seeds p (negsuc n) b =
        Ensures-pure Same [] _ Same λ db same. ([], tt, refl, refl, same)
