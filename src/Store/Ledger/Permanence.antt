-- ===== src/Store/Ledger/Permanence.antt =====
-- What the steps of the ledger keep: the payment of a transaction, and its history so far.
use mathlib.Core.Logic.{if_neg}
use mathlib.Core.Option.{none-ne-some}
use tx_submitter.Base.{
  ◌≡◌, refl, sym, ◌∙◌, ap, Bool, some, List, [], ◌∷◌, ◌++◌, arith, inl, inr, ◌&&◌, Bool-cases, ◌==◌,
}
use tx_submitter.Base.Text.{Text, text_eq}
use tx_submitter.State.{Transaction, Transition}
use tx_submitter.Store.{has_id, is_pending, set_status}
use tx_submitter.Store.Ledger.{
  amended, assigned, Ledger, ◌⟹◌, ◌⟹*◌, entry, move, assign, stay, onward,
}

-- The same payment: only the status, the channel account, the hash, the message and the time of
-- the last change may differ.
pub record SamePayment (t t' : Transaction) : Type 0 where
  pub id : t'.id ≡ t.id
  pub external_id : t'.external_id ≡ t.external_id
  pub source_account : t'.source_account ≡ t.source_account
  pub destination : t'.destination ≡ t.destination
  pub amount : t'.amount ≡ t.amount
  pub asset_code : t'.asset_code ≡ t.asset_code
  pub asset_issuer : t'.asset_issuer ≡ t.asset_issuer
  pub created_at : t'.created_at ≡ t.created_at

pub SamePayment-refl : (t : Transaction) → SamePayment t t
SamePayment-refl t = record {
  id = refl;
  external_id = refl;
  source_account = refl;
  destination = refl;
  amount = refl;
  asset_code = refl;
  asset_issuer = refl;
  created_at = refl;
}

pub SamePayment-trans : {t u v : Transaction} → SamePayment t u → SamePayment u v → SamePayment t v
SamePayment-trans a b = record {
  id = b.id ∙ a.id;
  external_id = b.external_id ∙ a.external_id;
  source_account = b.source_account ∙ a.source_account;
  destination = b.destination ∙ a.destination;
  amount = b.amount ∙ a.amount;
  asset_code = b.asset_code ∙ a.asset_code;
  asset_issuer = b.asset_issuer ∙ a.asset_issuer;
  created_at = b.created_at ∙ a.created_at;
}

-- A transaction in the ledger, as it was and as it is.
abbrev pub Stays : Text → Transaction → Ledger → Type 0
Stays id t l = (t' : Transaction) × (l.by_id id ≡ some t') × SamePayment t t'

-- A history with more rows at its end.
abbrev pub Extends : List Transition → List Transition → Type 0
Extends rows all = (more : List Transition) × (all ≡ rows ++ more)

append_nil : (xs : List Transition) → xs ≡ xs ++ []
append_nil [] = refl
append_nil (x ∷ xs) = ap (λ ys. x ∷ ys) (append_nil xs)

append_assoc : (xs ys zs : List Transition) → (xs ++ ys) ++ zs ≡ xs ++ (ys ++ zs)
append_assoc [] ys zs = refl
append_assoc (x ∷ xs) ys zs = ap (λ rest. x ∷ rest) (append_assoc xs ys zs)

Extends-refl : (xs : List Transition) → Extends xs xs
Extends-refl xs = ([], append_nil xs)

Extends-snoc :
    (xs ys : List Transition) (row : Transition) → Extends xs ys → Extends xs (ys ++ (row ∷ []))
Extends-snoc xs ys row (more, e) =
    (more ++ (row ∷ []), ap (λ zs. zs ++ (row ∷ [])) e ∙ append_assoc xs more (row ∷ []))

change-Stays :
    (id : Text) (t : Transaction) (l : Ledger) (p : Transaction → Bool)
    (f : Transaction → Transaction)
    → ((x : Transaction) → SamePayment x (f x))
    → Stays id t l
    → Stays id t (amended p f l)
change-Stays id t l p f keeps (t', found, same) = elim (Bool-cases (p t')) [
  | inl hit ↦ (f t', ground arith, SamePayment-trans same (keeps t'))
  | inr miss ↦ (t', ground arith, same)
]

step-Stays : {l l' : Ledger} (id : Text) (t : Transaction) → l ⟹ l' → Stays id t l → Stays id t l'
step-Stays id t (entry l u pending absent absent') (t', found, same) = elim (text_eq.dec u.id id) [
  | yes mine ↦ absurd (none-ne-some t' (sym absent ∙ ap l.by_id mine ∙ found))
  | no other ↦ (t', rw (if_neg _ other) found, same)
]
step-Stays id t (move l u tx new detail hid n now found' legal) (t', found, same) =
    change-Stays id t l (has_id tx) (set_status new hid detail now)
      (λ x. record {
        id = refl;
        external_id = refl;
        source_account = refl;
        destination = refl;
        amount = refl;
        asset_code = refl;
        asset_issuer = refl;
        created_at = refl;
      })
      (t', found, same)
step-Stays id t (assign l tx channel now) (t', found, same) =
    change-Stays id t l (λ x. has_id tx x && is_pending x) (assigned channel now)
      (λ x. record {
        id = refl;
        external_id = refl;
        source_account = refl;
        destination = refl;
        amount = refl;
        asset_code = refl;
        asset_issuer = refl;
        created_at = refl;
      })
      (t', found, same)

step-Extends :
    {l l' : Ledger} (id : Text)
    → (xs : List Transition) → l ⟹ l'
    → Extends xs (l.history id)
    → Extends xs (l'.history id)
step-Extends id xs (entry l u pending absent absent') h = h
step-Extends id xs (move l u tx new detail hid n now found legal) h = elim (Bool-cases (tx == id)) [
  | inl e ↦ rw e (Extends-snoc xs (l.history id) _ h)
  | inr e ↦ rw e h
]
step-Extends id xs (assign l tx channel now) h = h

pub run-Stays :
    {l l' : Ledger} (id : Text) (t : Transaction) → l ⟹* l' → l.by_id id ≡ some t → Stays id t l'
run-Stays id t (stay l) found = (t, found, SamePayment-refl t)
run-Stays id t (onward l m n run step) found = step-Stays id t step (run-Stays id t run found)

pub run-Extends : {l l' : Ledger} (id : Text) → l ⟹* l' → Extends (l.history id) (l'.history id)
run-Extends id (stay l) = Extends-refl (l.history id)
run-Extends id (onward l m n run step) = step-Extends id (l.history id) step (run-Extends id run)
