-- ===== src/Pool/Provision/Sequences.antt =====
-- `SyncSequences` gives the accounts in use the sequences of the network.
use mathlib.Core.Path.{fun_ext}
use tx_submitter.Base.{
  ℕ, suc, ◌≡◌, refl, sym, ap, ◌∙◌, Bool, ◌&&◌, List, [], ◌∷◌, map, arith, inl, inr, if◌then◌else◌,
  any, where_, order_by, insert_by, update_where, ◌==◌,
}
use tx_submitter.Base.Int.{ℤ}
use tx_submitter.Base.Text.{Text, text_eq, codes}
use tx_submitter.State.{ChannelAccount}
use tx_submitter.Errors.{wrap, Error, Result, ok, err}
use tx_submitter.External.{Env}
use tx_submitter.World.{World, Action, annotate}
use tx_submitter.World.Returns.{Result-cases, bind-returned, annotate-returned}
use tx_submitter.Store.Accounts.{has_key, list_channel_accounts, update_channel_account_seq}
use tx_submitter.Pool
use tx_submitter.Pool.{AccountInfo, account_info}
use tx_submitter.Pool.Provision.{sync_account, sync_accounts, sync_sequences}

-- An account with the sequence that the network reports for it, if it reports one.
abbrev pub synced : (Text → Result ℤ) → ChannelAccount → ChannelAccount
synced chain ca = elim (chain ca.public_key) [ ok z ↦ record ca { current_seq = z } | err _ ↦ ca ]

abbrev names : List AccountInfo → ChannelAccount → Bool
names infos ca = any (λ i. i.public_key == ca.public_key) infos

-- The accounts that a list names get their sequences.
abbrev synced_in : (Text → Result ℤ) → List AccountInfo → List ChannelAccount → List ChannelAccount
synced_in chain infos cas = map (λ ca. if names infos ca then synced chain ca else ca) cas

synced_in-nobody :
    (chain : Text → Result ℤ) (cas : List ChannelAccount) → synced_in chain [] cas ≡ cas
synced_in-nobody chain [] = refl
synced_in-nobody chain (ca ∷ cas) = ap (λ rest. ca ∷ rest) (synced_in-nobody chain cas)

-- One account more, of which the network reports the sequence z, or nothing.
synced_in-next :
    (chain : Text → Result ℤ) (i : AccountInfo) (infos : List AccountInfo) (z : ℤ)
    (cas : List ChannelAccount)
    → chain i.public_key ≡ ok z
    → synced_in chain infos
        (update_where (has_key i.public_key) (λ ca. record ca { current_seq = z }) cas)
      ≡ synced_in chain (i ∷ infos) cas
synced_in-next chain i infos z [] h = refl
synced_in-next chain i infos z (ca ∷ cas) h = ground (arith, synced_in-next chain i infos z cas h)

synced_in-skipped :
    (chain : Text → Result ℤ) (i : AccountInfo) (infos : List AccountInfo) (x : Error)
    (cas : List ChannelAccount)
    → chain i.public_key ≡ err x
    → synced_in chain infos cas ≡ synced_in chain (i ∷ infos) cas
synced_in-skipped chain i infos x [] h = refl
synced_in-skipped chain i infos x (ca ∷ cas) h =
    ground (arith, synced_in-skipped chain i infos x cas h)

-- The list of the accounts names the keys in use.
abbrev pub in_use : List ChannelAccount → Text → Bool
in_use cas key = any (λ ca. ca.is_active && ca.public_key == key) cas

abbrev holds_key : Text → List ChannelAccount → Bool
holds_key key cas = any (has_key key) cas

holds_key-insert_by :
    (key : Text) (ca : ChannelAccount) (cas : List ChannelAccount)
    → holds_key key (insert_by (λ x. x.created_at) ca cas) ≡ holds_key key (ca ∷ cas)
holds_key-insert_by key ca [] = refl
holds_key-insert_by key ca (x ∷ cas) = ground (arith, holds_key-insert_by key ca cas)

holds_key-order_by :
    (key : Text) (cas : List ChannelAccount)
    → holds_key key (order_by (λ x. x.created_at) cas) ≡ holds_key key cas
holds_key-order_by key [] = refl
holds_key-order_by key (ca ∷ cas) = ground (
  arith,
  holds_key-insert_by key ca (order_by (λ x. x.created_at) cas),
  holds_key-order_by key cas,
)

holds_key-where_ :
    (key : Text) (cas : List ChannelAccount)
    → holds_key key (where_ (λ ca. ca.is_active) cas) ≡ in_use cas key
holds_key-where_ key [] = refl
holds_key-where_ key (ca ∷ cas) = ground (arith, holds_key-where_ key cas)

names-account_info :
    (ca : ChannelAccount) (cas : List ChannelAccount)
    → names (map account_info cas) ca ≡ holds_key ca.public_key cas
names-account_info ca [] = refl
names-account_info ca (x ∷ cas) = ground (arith, names-account_info ca cas)

names-in_use :
    (cas : List ChannelAccount) (ca : ChannelAccount)
    → names (map account_info (order_by (λ x. x.created_at) (where_ (λ x. x.is_active) cas))) ca
      ≡ in_use cas ca.public_key
names-in_use cas ca =
    names-account_info ca (order_by (λ x. x.created_at) (where_ (λ x. x.is_active) cas))
    ∙ holds_key-order_by ca.public_key (where_ (λ x. x.is_active) cas)
    ∙ holds_key-where_ ca.public_key cas

module _ (e : Env) (chain : Text → Result ℤ)
    (steady : (n : ℕ) (key : Text) → e.account_detail n key ≡ chain key) where
  account-written :
      (i : AccountInfo) (answer : Result ℤ) (z : ℤ) (w : World)
      → answer ≡ ok z
      → (sync_account e i answer w).0 ≡ ok tt
      → (sync_account e i answer w).1.db.accounts
        ≡ update_where (has_key i.public_key) (λ ca. record ca { current_seq = z }) w.db.accounts
  unfolding sync_account Pool.refresh_sequence update_channel_account_seq
  account-written i answer z w got h = ground arith

  account-skipped :
      (i : AccountInfo) (answer : Result ℤ) (x : Error) (w : World)
      → answer ≡ err x
      → (sync_account e i answer w).1.db.accounts ≡ w.db.accounts
  unfolding sync_account
  account-skipped i answer x w got = ground arith

  sync_accounts-synced :
      (infos : List AccountInfo) (w : World)
      → (sync_accounts e infos w).0 ≡ ok tt
      → (sync_accounts e infos w).1.db.accounts ≡ synced_in chain infos w.db.accounts
  unfolding sync_accounts
  sync_accounts-synced [] w h = sym (synced_in-nobody chain w.db.accounts)
  sync_accounts-synced (i ∷ infos) w h =
      let answer = e.account_detail w.calls i.public_key in
      let asked = record w { calls = suc w.calls } in
      let (_, got, rest, path) =
        bind-returned (sync_account e i answer) (λ _. sync_accounts e infos) asked tt h in
      ap (λ r. r.1.db.accounts) path
      ∙ sync_accounts-synced infos (sync_account e i answer asked).1 rest
      ∙ elim (Result-cases (chain i.public_key)) [
        | inl (z, known) ↦
            ap (synced_in chain infos)
              (account-written i answer z asked (steady w.calls i.public_key ∙ known) got)
            ∙ synced_in-next chain i infos z w.db.accounts known
        | inr (x, unknown) ↦
            ap (synced_in chain infos)
              (account-skipped i answer x asked (steady w.calls i.public_key ∙ unknown))
            ∙ synced_in-skipped chain i infos x w.db.accounts unknown
      ]

  listing :
      (w : World) (infos : List AccountInfo)
      → (Pool.list_active e w).0 ≡ ok infos
      → (infos
          ≡ map account_info
              (order_by (λ x. x.created_at) (where_ (λ x. x.is_active) w.db.accounts)))
        × ((Pool.list_active e w).1.db ≡ w.db)
  unfolding Pool.list_active list_channel_accounts
  listing w infos h = ground arith

  -- If the network gives the same answer on an account at each call, a `SyncSequences` that returns
  -- nil sets the sequence of each account whose key is that of an active account, and that the
  -- network knows, to the network's, and leaves every other account, and every other field, as it
  -- was.
  pub sync_sequences_lem :
      (w : World)
      → (sync_sequences e w).0 ≡ ok tt
      → (sync_sequences e w).1.db.accounts
        ≡ map
            (λ ca. if in_use w.db.accounts ca.public_key then synced chain ca else ca)
            w.db.accounts
  unfolding sync_sequences
  sync_sequences_lem w h =
      let reading : Action (List AccountInfo) =
        annotate (wrap (codes "listing active accounts for sequence sync")) (Pool.list_active e) in
      let (infos, got, rest, path) = bind-returned reading (sync_accounts e) w tt h in
      let (rows, same) = listing w infos (
        annotate-returned (wrap (codes "listing active accounts for sequence sync"))
          (Pool.list_active e) w infos got) in
      ap (λ r. r.1.db.accounts) path
      ∙ sync_accounts-synced infos (reading w).1 rest
      ∙ ap (λ db. synced_in chain infos db.accounts) same
      ∙ ap (λ is. synced_in chain is w.db.accounts) rows
      ∙ ap (λ p. map (λ ca. if p ca then synced chain ca else ca) w.db.accounts)
          (fun_ext (names-in_use w.db.accounts))
