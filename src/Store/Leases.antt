-- ===== src/Store/Leases.antt =====
-- Which channel account `AcquireChannelAccount` gives out, and for how long it stays given out.
use mathlib.Core.Bool.{true≢false}
use tx_submitter.Base.{
  suc, ◌≡◌, ◌≢◌, sym, ◌∙◌, subst, true, false, none, some, List, [], ◌∷◌, arith, ◌⊎◌, inl, inr,
  Option-cases, All, All-map, update_where, ℕ, get_elem?, All-get_elem,
}
use tx_submitter.Base.Int.{pos, add64, ◌≤ℤ◌}
use tx_submitter.Base.Text.{text_eq}
use tx_submitter.State.{ChannelAccount}
use tx_submitter.Errors.{ok, err, no_channel_accounts, is_ok}
use tx_submitter.External.{Env}
use tx_submitter.World.{Db, World}
use tx_submitter.Store.Accounts.{
  is_available, least_used, has_key, lock, on_accounts, acquire_channel_account,
}

pub least_used_available :
    (cas : List ChannelAccount) (ca : ChannelAccount)
    → least_used cas ≡ some ca
    → is_available ca ≡ true
unfolding least_used
least_used_available [] ca h = cc
least_used_available (x ∷ cas) ca h = ground (arith, least_used_available cas ca)

pub least_used-cons :
    (x : ChannelAccount) (cas : List ChannelAccount) (ca : ChannelAccount)
    → least_used (x ∷ cas) ≡ some ca
    → (x ≡ ca) ⊎ (least_used cas ≡ some ca)
unfolding least_used
least_used-cons x cas ca h = elim (Option-cases (least_used cas)) [
  | inl alone ↦ inl (ground arith)
  | inr (best, e) ↦ ground arith
]

pub least_used-nil : (ca : ChannelAccount) → least_used [] ≢ some ca
unfolding least_used
least_used-nil ca h = cc

least_le :
    (a b c : ChannelAccount)
    → a.current_seq ≤ℤ b.current_seq
    → b.current_seq ≤ℤ c.current_seq
    → a.current_seq ≤ℤ c.current_seq
least_le a b c h k = omega arith

-- Whatever holds of every row holds of the row that is chosen.
pub least_used-All {κ} :
    (P : ChannelAccount → Type κ) (cas : List ChannelAccount) (ca : ChannelAccount)
    → least_used cas ≡ some ca
    → All P cas
    → P ca
least_used-All P [] ca h all = absurd (least_used-nil ca h)
least_used-All P (x ∷ cas) ca h all = elim (least_used-cons x cas ca h) [
  | inl same ↦ subst P same all.0
  | inr later ↦ least_used-All P cas ca later all.1
]

pub least_used-none :
    (cas : List ChannelAccount) → least_used cas ≡ none → All (λ x. is_available x ≡ false) cas
unfolding least_used
least_used-none [] h = tt
least_used-none (x ∷ cas) h = elim (Option-cases (least_used cas)) [
  | inl e ↦ (ground arith, least_used-none cas e)
  | inr (best, e) ↦ absurd (ground arith)
]

least_used_head :
    (x : ChannelAccount) (cas : List ChannelAccount) (ca : ChannelAccount)
    → least_used (x ∷ cas) ≡ some ca
    → is_available x ≡ true
    → ca.current_seq ≤ℤ x.current_seq
unfolding least_used
least_used_head x cas ca h up = elim (Option-cases (least_used cas)) [
  | inl alone ↦ ground arith
  | inr (best, e) ↦ ground arith
]

least_used_tail :
    (x : ChannelAccount) (cas : List ChannelAccount) (ca best : ChannelAccount)
    → least_used (x ∷ cas) ≡ some ca
    → least_used cas ≡ some best
    → ca.current_seq ≤ℤ best.current_seq
unfolding least_used
least_used_tail x cas ca best h e = ground arith

-- No available row has a lower sequence than the one that is chosen.
pub least_used_least :
    (cas : List ChannelAccount) (ca : ChannelAccount)
    → least_used cas ≡ some ca
    → All (λ x. is_available x ≡ true → ca.current_seq ≤ℤ x.current_seq) cas
least_used_least [] ca h = tt
least_used_least (x ∷ cas) ca h = (
  least_used_head x cas ca h,
  elim (Option-cases (least_used cas)) [
    | inl e ↦
        All-map (λ y. is_available y ≡ false) _ cas
          (λ y down up. absurd (true≢false (sym up ∙ down))) (least_used-none cas e)
    | inr (best, e) ↦
        All-map (λ y. is_available y ≡ true → best.current_seq ≤ℤ y.current_seq) _ cas
          (λ y f up. least_le ca best y (least_used_tail x cas ca best h e) (f up))
          (least_used_least cas best e)
  ],
)

module _ (e : Env) (w : World) where
  -- The accounts after a call that went through. The database's transaction begins with its first
  -- call of the driver, and `now()` is that time.
  abbrev pub acquired : ChannelAccount → Db
  acquired ca =
      on_accounts
        (update_where (has_key ca.public_key) (lock (add64 ca.current_seq (pos 1)) (e.now w.calls)))
        w.db

  -- With an account to give out: an error and no change, or that account with its next sequence, of
  -- which the row is locked.
  pub acquire_found :
      (ca : ChannelAccount)
      → least_used w.db.accounts ≡ some ca
      → ((is_ok (acquire_channel_account e w).0 ≡ false)
          × ((acquire_channel_account e w).1.db ≡ w.db))
        ⊎ (((acquire_channel_account e w).0
              ≡ ok (record ca { current_seq = add64 ca.current_seq (pos 1) }))
            × ((acquire_channel_account e w).1.db ≡ acquired ca))
  unfolding acquire_channel_account
  acquire_found ca h = ground arith

  pub acquire_none :
      least_used w.db.accounts ≡ none
      → (is_ok (acquire_channel_account e w).0 ≡ false)
        × ((acquire_channel_account e w).1.db ≡ w.db)
  unfolding acquire_channel_account
  acquire_none h = ground arith

  acquire_ok_found :
      (a ca : ChannelAccount)
      → least_used w.db.accounts ≡ some ca
      → (acquire_channel_account e w).0 ≡ ok a
      → (a ≡ record ca { current_seq = add64 ca.current_seq (pos 1) })
        × ((acquire_channel_account e w).1.db ≡ acquired ca)
  acquire_ok_found a ca h got = elim (acquire_found ca h) [
    | inl failed ↦ absurd (ground arith)
    | inr taken ↦ (ground arith, taken.1)
  ]

  -- If `AcquireChannelAccount` returns an account a, and x is any available row of the table, then
  -- a comes from an available row with a sequence not above that of x; a has the next sequence of
  -- that row, and the tables differ only in the sequence and the lock of the rows with its key.
  pub acquire_least :
      (a : ChannelAccount) (i : ℕ) (x : ChannelAccount)
      → (acquire_channel_account e w).0 ≡ ok a
      → get_elem? w.db.accounts i ≡ some x
      → is_available x ≡ true
      → (ca : ChannelAccount) × (is_available ca ≡ true)
        × (ca.current_seq ≤ℤ x.current_seq)
        × (a ≡ record ca { current_seq = add64 ca.current_seq (pos 1) })
        × ((acquire_channel_account e w).1.db ≡ acquired ca)
  acquire_least a i x got there up = elim (Option-cases (least_used w.db.accounts)) [
    | inl empty ↦ absurd (ground (arith, acquire_none empty))
    | inr (ca, found) ↦ (
      ca,
      least_used_available w.db.accounts ca found,
      All-get_elem (λ y. is_available y ≡ true → ca.current_seq ≤ℤ y.current_seq) w.db.accounts i x
          there (least_used_least w.db.accounts ca found) up,
      (acquire_ok_found a ca found got).0,
      (acquire_ok_found a ca found got).1,
    )
  ]

  -- An empty pool is the error `ErrNoChannelAccounts`.
  pub acquire_empty :
      least_used w.db.accounts ≡ none
      → e.db_fault w.calls ≡ none
      → e.db_fault (suc w.calls) ≡ none
      → (acquire_channel_account e w).0 ≡ err no_channel_accounts
  unfolding acquire_channel_account
  acquire_empty h up up' = ground arith
