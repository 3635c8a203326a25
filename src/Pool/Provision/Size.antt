-- ===== src/Pool/Provision/Size.antt =====
-- `EnsurePoolSize` brings the pool to the size that it is asked for.
use tx_submitter.Base.{
  ℕ, suc, ◌+◌, ◌-◌, ◌≤◌, ◌≡◌, ◌≢◌, refl, sym, ap, ◌∙◌, subst, Bool, true, false, none, List, [],
  ◌∷◌, ◌++◌, arith, map, length-order_by, length-where_, find_where, where_, count, length, All,
  if◌then◌else◌,
}
use tx_submitter.Base.Int.{ℤ, pos, negsuc, leb_ℤ, ◌-ℤ◌, pos_part}
use tx_submitter.Base.Text.{Text, text_eq, codes, decimal}
use tx_submitter.State.{ChannelAccount}
use tx_submitter.Errors.{wrap, ok}
use tx_submitter.External.{Env, KeyPair}
use tx_submitter.World.{Db, World, Action, ◌>>=◌, annotate, pure}
use tx_submitter.World.Ensures.{Ensures-ok, Ensures-annotate}
use tx_submitter.World.Returns.{bind-returned, annotate-returned}
use tx_submitter.Store.Accounts.{
  has_key, new_account, create_channel_account, list_channel_accounts,
}
use tx_submitter.Pool
use tx_submitter.Pool.Provision.Keys.{Given, Seeds, provision_accounts-Seeds}
use tx_submitter.Pool.Provision.{Provisioner, provision_accounts, add_provisioned, ensure_pool_size}

-- The seed of a random key pair parses to that pair, no two are alike, and none is in the table.
pub record IsFresh (e : Env) (db : Db) : Type 0 where
  pub parses : (n : ℕ) (kp : KeyPair) → e.random_key n ≡ ok kp → e.parse_full kp.seed ≡ ok kp
  pub apart :
      (n m : ℕ) (a b : KeyPair)
      → e.random_key n ≡ ok a
      → e.random_key m ≡ ok b
      → a.address ≡ b.address
      → n ≡ m
  pub unused :
      (n : ℕ) (kp : KeyPair)
      → e.random_key n ≡ ok kp
      → find_where (has_key kp.address) db.accounts ≡ none

-- How many accounts are in use.
abbrev pub active : List ChannelAccount → ℕ
active cas = count (λ ca. ca.is_active) cas

active-append :
    (cas : List ChannelAccount) (ca : ChannelAccount)
    → ca.is_active ≡ true
    → active (cas ++ (ca ∷ [])) ≡ suc (active cas)
active-append [] ca h = ground arith
active-append (x ∷ cas) ca h = ground (arith, active-append cas ca h)

find_key-append :
    (k : Text) (cas : List ChannelAccount) (ca : ChannelAccount)
    → find_where (has_key k) cas ≡ none
    → ca.public_key ≢ k
    → find_where (has_key k) (cas ++ (ca ∷ [])) ≡ none
find_key-append k [] ca h ne = ground arith
find_key-append k (x ∷ cas) ca h ne = ground (arith, find_key-append k cas ca)

module _ (e : Env) where
  -- A key that is not in the table gets a row of its own.
  create_new :
      (kp : KeyPair) (w : World) (ca : ChannelAccount)
      → e.parse_full kp.seed ≡ ok kp
      → find_where (has_key kp.address) w.db.accounts ≡ none
      → (create_channel_account e kp.seed w).0 ≡ ok ca
      → (create_channel_account e kp.seed w).1.db.accounts
        ≡ w.db.accounts ++ (new_account e kp.seed kp.address w.calls ∷ [])
  unfolding create_channel_account
  create_new kp w ca parsed new h = ground arith

  -- The keys are not in the table.
  abbrev Unused : List KeyPair → List ChannelAccount → Type 0
  Unused ks cas = All (λ kp. find_where (has_key kp.address) cas ≡ none) ks

  module _ (before : Db) (fresh : IsFresh e before) where
    Given-Unused : (from : ℕ) (ks : List KeyPair) → Given e from ks → Unused ks before.accounts
    Given-Unused from [] given = tt
    Given-Unused from (kp ∷ ks) (n, le, drawn, rest) =
        (fresh.unused n kp drawn, Given-Unused (suc n) ks rest)

    -- The row of one key leaves the later ones unused.
    Unused-append :
        (n from : ℕ) (kp : KeyPair) (ks : List KeyPair) (cas : List ChannelAccount)
        (ca : ChannelAccount)
        → e.random_key n ≡ ok kp
        → suc n ≤ from
        → ca.public_key ≡ kp.address
        → Given e from ks
        → Unused ks cas
        → Unused ks (cas ++ (ca ∷ []))
    Unused-append n from kp [] cas ca drawn le key given unused = tt
    Unused-append n from kp (k ∷ ks) cas ca drawn le key (m, after, drawn', rest) (free, unused) = (
      find_key-append k.address cas ca free λ same.
          let equal = fresh.apart n m kp k drawn drawn' (sym key ∙ same) in omega (arith, equal),
      Unused-append n (suc m) kp ks cas ca drawn (omega arith) key rest unused,
    )

    add_provisioned-active :
        (from : ℕ) (ks : List KeyPair) (w : World)
        → Given e from ks
        → Unused ks w.db.accounts
        → (add_provisioned e (map (λ kp. kp.seed) ks) w).0 ≡ ok tt
        → active (add_provisioned e (map (λ kp. kp.seed) ks) w).1.db.accounts
          ≡ active w.db.accounts + length ks
    unfolding add_provisioned Pool.add_account
    add_provisioned-active from [] w given unused h = omega arith
    add_provisioned-active from (kp ∷ ks) w (n, le, drawn, rest) (free, unused) h =
        let adding : Action ChannelAccount =
          annotate (wrap (codes "adding provisioned account to pool"))
            (create_channel_account e kp.seed) in
        let (ca, got, others, path) =
          bind-returned adding (λ _. add_provisioned e (map (λ kp. kp.seed) ks)) w tt h in
        let row = new_account e kp.seed kp.address w.calls in
        let added = create_new kp w ca (fresh.parses n kp drawn) free (
          annotate-returned (wrap (codes "adding provisioned account to pool"))
            (create_channel_account e kp.seed) w ca got) in
        ap (λ r. active r.1.db.accounts) path
        ∙ add_provisioned-active (suc n) ks (adding w).1 rest
            (subst (Unused ks) (sym added) (
              Unused-append n (suc n) kp ks w.db.accounts row drawn (omega arith) refl rest unused))
            others
        ∙ omega (arith, ap active added, active-append w.db.accounts row refl)

  size_counts :
      (w : World) (n : ℕ)
      → (Pool.pool_size e w).0 ≡ ok n
      → (n ≡ active w.db.accounts) × ((Pool.pool_size e w).1.db ≡ w.db)
  unfolding Pool.pool_size list_channel_accounts
  size_counts w n h = ground (
    arith,
    length-order_by (λ ca. ca.created_at) (where_ (λ ca. ca.is_active) w.db.accounts),
    length-where_ (λ ca. ca.is_active) w.db.accounts,
  )

  lacking :
      (target : ℤ) (n : ℕ)
      → leb_ℤ target (pos n) ≡ false
      → n + pos_part (target -ℤ pos n) ≡ pos_part target
  unfolding ◌-ℤ◌
  lacking (pos t) n h = ground arith
  lacking (negsuc t) n h = ground arith

  -- Once it is known that n accounts are in use and more are asked for.
  abbrev provisioning : Provisioner → ℤ → Text → ℕ → Action (List Text)
  provisioning p target b n =
      annotate
        (wrap (codes "provisioning " ++ (decimal (pos_part target - n) ++ codes " accounts")))
        (provision_accounts e p (target -ℤ pos n) b)

  provisioning_reaches :
      (p : Provisioner) (target : ℤ) (b : Text) (n : ℕ) (w : World)
      → IsFresh e w.db
      → n ≡ active w.db.accounts
      → leb_ℤ target (pos n) ≡ false
      → ((provisioning p target b n >>= add_provisioned e) w).0 ≡ ok tt
      → active ((provisioning p target b n >>= add_provisioned e) w).1.db.accounts ≡ pos_part target
  provisioning_reaches p target b n w fresh counted short h =
      let (ss, got, added, path) =
        bind-returned (provisioning p target b n) (add_provisioned e) w tt h in
      let (ks, given, long, seeds, same) =
        Ensures-ok (λ db. db ≡ w.db) (provisioning p target b n)
          (Seeds e w.db (pos_part (target -ℤ pos n))) (λ db. db ≡ w.db)
          (Ensures-annotate _ _ _ _ _ (provision_accounts-Seeds e w.db p (target -ℤ pos n) b)) w ss
          refl got in
      let w' = (provisioning p target b n w).1 in
      let counts =
        add_provisioned-active w.db fresh 0 ks w' given
          (subst (λ db. Unused ks db.accounts) (sym same) (Given-Unused w.db fresh 0 ks given))
          (subst (λ x. (add_provisioned e x w').0 ≡ ok tt) seeds added) in
      ap (λ r. active r.1.db.accounts) (path ∙ ap (λ x. add_provisioned e x w') seeds)
      ∙ counts
      ∙ omega (arith, ap (λ db. active db.accounts) same, long, counted, lacking target n short)

  -- The rest of `EnsurePoolSize`, by the comparison of the sizes.
  abbrev grow : Provisioner → ℤ → Text → ℕ → Bool → Action (Unit {0})
  grow p target b n enough =
      if enough then pure tt else provisioning p target b n >>= add_provisioned e

  grow_reaches :
      (p : Provisioner) (target : ℤ) (b : Text) (n : ℕ) (w : World) (enough : Bool)
      → IsFresh e w.db
      → n ≡ active w.db.accounts
      → leb_ℤ target (pos n) ≡ enough
      → (grow p target b n enough w).0 ≡ ok tt
      → active (grow p target b n enough w).1.db.accounts ≡ (if enough then n else pos_part target)
  grow_reaches p target b n w true fresh counted compared h = sym counted
  grow_reaches p target b n w false fresh counted compared h =
      provisioning_reaches p target b n w fresh counted compared h

  -- If the seeds of random keys parse to the keys that they came with, no two of those keys are
  -- alike and none is in the table, then an `EnsurePoolSize` that returns nil leaves as many active
  -- accounts as it is asked for, or as many as there were if these were enough.
  pub ensure_pool_size_reaches :
      (p : Provisioner) (target : ℤ) (b : Text) (w : World)
      → IsFresh e w.db
      → (ensure_pool_size e p target b w).0 ≡ ok tt
      → active (ensure_pool_size e p target b w).1.db.accounts ≡ (
          if leb_ℤ target (pos (active w.db.accounts))
          then active w.db.accounts
          else pos_part target)
  unfolding ensure_pool_size
  ensure_pool_size_reaches p target b w fresh h =
      let sizing : Action ℕ = annotate (wrap (codes "checking pool size")) (Pool.pool_size e) in
      let (n, got, rest, path) =
        bind-returned sizing (λ n. grow p target b n (leb_ℤ target (pos n))) w tt h in
      let (counted, same) =
        size_counts w n
          (annotate-returned (wrap (codes "checking pool size")) (Pool.pool_size e) w n got) in
      ap (λ r. active r.1.db.accounts) path
      ∙ grow_reaches p target b n (sizing w).1 (leb_ℤ target (pos n))
          (subst (IsFresh e) (sym same) fresh) (counted ∙ ap (λ db. active db.accounts) (sym same))
          refl rest
      ∙ ap (λ size. if leb_ℤ target (pos size) then size else pos_part target) counted
