-- ===== src/Store/Exclusion.antt =====
-- An acquired channel account is given out to nobody else until it is released, whatever other
-- operations on the pool come in between.
use mathlib.Core.Bool.{true≢false}
use tx_submitter.Base.{
  ℕ, ◌≡◌, ◌≢◌, refl, sym, ◌∙◌, subst, Bool, true, false, none, some, List, [], ◌∷◌, ◌++◌, arith,
  inl, inr, Option-cases, Bool-cases, All, any, All-update_where, All-append, update_where,
  find_where, ◌==◌,
}
use tx_submitter.Base.Int.{ℤ, pos, add64}
use tx_submitter.Base.Text.{Text, text_eq}
use tx_submitter.State.{ChannelAccount}
use tx_submitter.Errors.{Result, ok}
use tx_submitter.External.{Env, KeyPair}
use tx_submitter.World.{Db, World}
use tx_submitter.World.Keeps.{Keeps, Keeps-intro, Keeps-statement, keeps_rules}
use tx_submitter.Store.Accounts.{
  is_available, least_used, has_key, lock, unlock, on_accounts, acquire_channel_account,
  release_channel_account, create_channel_account, update_channel_account_seq,
  deactivate_channel_account, upsert_account, insert_account, new_account,
}
use tx_submitter.Store.Leases.{
  least_used-nil, least_used-cons, least_used-All, least_used_available, acquire_found,
  acquire_none, acquired,
}

-- There is an account with the key, and it is not available.
pub record IsHeld (k : Text) (db : Db) : Type 0 where
  pub present : any (has_key k) db.accounts ≡ true
  pub taken : All (λ x. has_key k x ≡ true → is_available x ≡ false) db.accounts

pub any-update_where :
    (p : ChannelAccount → Bool) (f : ChannelAccount → ChannelAccount)
    → ((ca : ChannelAccount) → (f ca).public_key ≡ ca.public_key)
    → (k : Text) (cas : List ChannelAccount) → any (has_key k) cas ≡ true
    → any (has_key k) (update_where p f cas) ≡ true
any-update_where p f same k [] h = h
any-update_where p f same k (x ∷ cas) h = ground (arith, same x, any-update_where p f same k cas)

-- An update that keeps the keys, and makes no row of this key available, keeps the hold.
pub update-IsHeld :
    (k : Text) (p : ChannelAccount → Bool) (f : ChannelAccount → ChannelAccount) (db : Db)
    → ((ca : ChannelAccount) → (f ca).public_key ≡ ca.public_key)
    → ((ca : ChannelAccount)
        → p ca ≡ true
        → has_key k ca ≡ true
        → is_available ca ≡ false
        → is_available (f ca) ≡ false)
    → IsHeld k db
    → IsHeld k (on_accounts (update_where p f) db)
update-IsHeld k p f db same shut h = record {
  present = any-update_where p f same k db.accounts h.present;
  taken =
      All-update_where (λ x. has_key k x ≡ true → is_available x ≡ false) _ p f db.accounts
        (λ x r hit key.
          let here : has_key k x ≡ true = rw (← same x) key in shut x hit here (r here))
        (λ x r miss. r) h.taken;
}

pub any-find_where :
    (p : ChannelAccount → Bool) (cas : List ChannelAccount)
    → any p cas ≡ true
    → find_where p cas ≢ none
any-find_where p [] h e = cc
any-find_where p (x ∷ cas) h e = ground (arith, any-find_where p cas)

any-append_right :
    (p : ChannelAccount → Bool) (xs ys : List ChannelAccount)
    → any p xs ≡ true
    → any p (xs ++ ys) ≡ true
any-append_right p [] ys h = absurd (true≢false (sym h))
any-append_right p (x ∷ xs) ys h = ground (arith, any-append_right p xs ys)

insert-IsHeld :
    (k : Text) (e : Env) (ca : ChannelAccount) (db : Db)
    → find_where (has_key ca.public_key) db.accounts ≡ none
    → IsHeld k db
    → IsHeld k (insert_account e ca db).1
insert-IsHeld k e ca db new h = elim (Bool-cases (any (λ a. a.id == ca.id) db.accounts)) [
  | inl clash ↦ rw clash h
  | inr free ↦ rw free (record {
    present = any-append_right (has_key k) db.accounts (ca ∷ []) h.present;
    taken =
        All-append _ db.accounts (ca ∷ []) h.taken ((λ key. absurd (other (ground arith) new)), tt);
  })
]
  where
    other : ca.public_key ≡ k → find_where (has_key ca.public_key) db.accounts ≢ none
    other same =
        subst (λ j. find_where (has_key j) db.accounts ≢ none) (sym same)
          (any-find_where (has_key k) db.accounts h.present)

pub upsert-present :
    (k : Text) (e : Env) (secret key : Text) (n : ℕ) (db : Db)
    → any (has_key k) db.accounts ≡ true
    → any (has_key k) (upsert_account e secret key n db).1.accounts ≡ true
upsert-present k e secret key n db h = elim (Option-cases (find_where (has_key key) db.accounts)) [
  | inl new ↦ rw (new, upsert_account) (inserted (new_account e secret key n))
  | inr (ca, old) ↦
      rw (old, upsert_account)
        (any-update_where (has_key key) (λ a. record a { secret_key = secret }) (λ a. refl) k
          db.accounts h)
]
  where
    inserted : (ca : ChannelAccount) → any (has_key k) (insert_account e ca db).1.accounts ≡ true
    inserted ca = elim (Bool-cases (any (λ a. a.id == ca.id) db.accounts)) [
      | inl clash ↦ rw clash h
      | inr free ↦ rw free (any-append_right (has_key k) db.accounts (ca ∷ []) h)
    ]

pub upsert-IsHeld :
    (k : Text) (e : Env) (secret key : Text) (n : ℕ) (db : Db)
    → IsHeld k db
    → IsHeld k (upsert_account e secret key n db).1
upsert-IsHeld k e secret key n db h = elim (Option-cases (find_where (has_key key) db.accounts)) [
  | inl new ↦ rw (new, upsert_account) (insert-IsHeld k e (new_account e secret key n) db new h)
  | inr (ca, old) ↦
      rw (old, upsert_account)
        (update-IsHeld k (has_key key) (λ a. record a { secret_key = secret }) db (λ a. refl)
          (λ a hit mine shut. shut) h)
]

module _ (e : Env) (k : Text) where
  pub release-IsHeld : (j : Text) → j ≢ k → Keeps (IsHeld k) (release_channel_account e j)
  unfolding release_channel_account
  release-IsHeld j ne = Keeps-statement (IsHeld k) e _ λ n db h.
      update-IsHeld k (has_key j) unlock db (λ ca. refl) (λ ca hit mine shut. absurd (ground arith))
        h

  pub set_seq-IsHeld : (j : Text) (z : ℤ) → Keeps (IsHeld k) (update_channel_account_seq e j z)
  unfolding update_channel_account_seq
  set_seq-IsHeld j z = Keeps-statement (IsHeld k) e _ λ n db h.
      update-IsHeld k (has_key j) (λ ca. record ca { current_seq = z }) db (λ ca. refl)
        (λ ca hit mine shut. shut) h

  pub deactivate-IsHeld : (j : Text) → Keeps (IsHeld k) (deactivate_channel_account e j)
  unfolding deactivate_channel_account
  deactivate-IsHeld j = Keeps-statement (IsHeld k) e _ λ n db h.
      update-IsHeld k (has_key j) (λ ca. record ca { is_active = false }) db (λ ca. refl)
        (λ ca hit mine shut. ground arith) h

  pub create-IsHeld : (secret : Text) → Keeps (IsHeld k) (create_channel_account e secret)
  unfolding create_channel_account
  create-IsHeld secret =
      search
        (
          keeps_rules,
          λ (kp : KeyPair).
              Keeps-statement (IsHeld k) e (upsert_account e secret kp.address)
                (upsert-IsHeld k e secret kp.address),
        )
        depth 8

  acquired-IsHeld : (w : World) (ca : ChannelAccount) → IsHeld k w.db → IsHeld k (acquired e w ca)
  acquired-IsHeld w ca h =
      update-IsHeld k (has_key ca.public_key) (lock (add64 ca.current_seq (pos 1)) (e.now w.calls))
        w.db (λ x. refl) (λ x hit mine shut. refl) h

  pub acquire-IsHeld : Keeps (IsHeld k) (acquire_channel_account e)
  acquire-IsHeld = Keeps-intro (IsHeld k) _ λ w h. elim (Option-cases (least_used w.db.accounts)) [
    | inl empty ↦ subst (IsHeld k) (sym (acquire_none e w empty).1) h
    | inr (ca, found) ↦ elim (acquire_found e w ca found) [
      | inl failed ↦ subst (IsHeld k) (sym failed.1) h
      | inr taken ↦ subst (IsHeld k) (sym taken.1) (acquired-IsHeld w ca h)
    ]
  ]

pub any-least_used :
    (p : ChannelAccount → Bool) (cas : List ChannelAccount) (ca : ChannelAccount)
    → least_used cas ≡ some ca
    → p ca ≡ true
    → any p cas ≡ true
any-least_used p [] ca h yes_p = absurd (least_used-nil ca h)
any-least_used p (x ∷ cas) ca h yes_p = elim (least_used-cons x cas ca h) [
  | inl same ↦ rw (same, yes_p)
  | inr later ↦ let rest = any-least_used p cas ca later yes_p in ground arith
]

same_key :
    (a ca : ChannelAccount)
    → ◌≡◌ {A = Result ChannelAccount}
        (ok (record ca { current_seq = add64 ca.current_seq (pos 1) }))
        (ok a)
    → ca.public_key ≡ a.public_key
same_key a ca h = cc

pub All-Unit : (cas : List ChannelAccount) → All (λ _. Unit {0}) cas
All-Unit [] = tt
All-Unit (x ∷ cas) = (tt, All-Unit cas)

-- Locking the rows of a key that is there holds it.
pub lock-IsHeld :
    (k : Text) (z : ℤ) (now : ℕ) (db : Db)
    → any (has_key k) db.accounts ≡ true
    → IsHeld k (on_accounts (update_where (has_key k) (lock z now)) db)
lock-IsHeld k z now db there = record {
  present = any-update_where (has_key k) (lock z now) (λ x. refl) k db.accounts there;
  taken =
      All-update_where (λ _. Unit {0}) _ (has_key k) (lock z now) db.accounts (λ x _ hit key. refl)
        (λ x _ miss key. absurd (true≢false (sym key ∙ miss))) (All-Unit db.accounts);
}

acquired_holds :
    (e : Env) (w : World) (ca : ChannelAccount)
    → least_used w.db.accounts ≡ some ca
    → IsHeld ca.public_key (acquired e w ca)
acquired_holds e w ca found =
    lock-IsHeld ca.public_key (add64 ca.current_seq (pos 1)) (e.now w.calls) w.db
      (any-least_used (has_key ca.public_key) w.db.accounts ca found (ground arith))

module _ (e : Env) (w : World) where
  -- The account that a call returns is held afterwards.
  pub acquire_holds :
      (a : ChannelAccount)
      → (acquire_channel_account e w).0 ≡ ok a
      → IsHeld a.public_key (acquire_channel_account e w).1.db
  acquire_holds a got = elim (Option-cases (least_used w.db.accounts)) [
    | inl empty ↦ absurd (ground (arith, acquire_none e w empty))
    | inr (ca, found) ↦ elim (acquire_found e w ca found) [
      | inl failed ↦ absurd (ground arith)
      | inr taken ↦ subst (IsHeld a.public_key) (sym taken.1) (
          subst (λ j. IsHeld j (acquired e w ca)) (same_key a ca (sym taken.0 ∙ got))
            (acquired_holds e w ca found))
    ]
  ]

  -- A held account is not given out.
  pub acquire_skips_held :
      (k : Text) (a : ChannelAccount)
      → IsHeld k w.db
      → (acquire_channel_account e w).0 ≡ ok a
      → a.public_key ≢ k
  acquire_skips_held k a h got same = elim (Option-cases (least_used w.db.accounts)) [
    | inl empty ↦ ground (arith, acquire_none e w empty)
    | inr (ca, found) ↦ elim (acquire_found e w ca found) [
      | inl failed ↦ ground arith
      | inr taken ↦ ground (
        arith,
        least_used_available w.db.accounts ca found,
        least_used-All (λ x. has_key k x ≡ true → is_available x ≡ false) w.db.accounts ca found
            h.taken,
      )
    ]
  ]
