-- ===== src/Store/Ids.antt =====
-- Rows by their ids: what a lookup by id finds, which rows clash, and which updates leave that.
use mathlib.Core.Bool.{true≢false}
use tx_submitter.Base.{
  ◌≡◌, refl, sym, Bool, true, false, some, List, [], ◌∷◌, ◌++◌, arith, any, find_where,
  update_where, count,
}
use tx_submitter.Base.Text.{Text, text_eq}
use tx_submitter.State.{Transaction}
use tx_submitter.Store.{has_id, clashes}

pub unclashed :
    (t : Transaction) (id : Text) (ts : List Transaction)
    → any (clashes t) ts ≡ false
    → id ≡ t.id
    → any (has_id id) ts ≡ false
unclashed t id [] h same = refl
unclashed t id (x ∷ ts) h same = ground (arith, unclashed t id ts)

pub any-append :
    (p : Transaction → Bool) (xs ys : List Transaction) → any p xs ≡ true → any p (xs ++ ys) ≡ true
any-append p [] ys h = absurd (true≢false (sym h))
any-append p (x ∷ xs) ys h = ground (arith, any-append p xs ys)

pub clashes_sym : (x y : Transaction) → clashes x y ≡ clashes y x
clashes_sym x y = ground arith

pub any-snoc :
    (p : Transaction → Bool) (t : Transaction) (xs : List Transaction)
    → any p xs ≡ false
    → p t ≡ false
    → any p (xs ++ (t ∷ [])) ≡ false
any-snoc p t [] h k = rw k
any-snoc p t (x ∷ xs) h k = ground (arith, any-snoc p t xs)

pub has_id-eq : (id : Text) (t : Transaction) → has_id id t ≡ true → t.id ≡ id
has_id-eq id t h = ground arith

pub any-found :
    (p : Transaction → Bool) (ts : List Transaction) (t : Transaction)
    → find_where p ts ≡ some t
    → any p ts ≡ true
any-found p [] t h = cc
any-found p (x ∷ ts) t h = ground (arith, any-found p ts t)

-- An update that keeps the ids keeps what refers to them.
pub any-update_where :
    (p : Transaction → Bool) (f : Transaction → Transaction)
    → ((t : Transaction) → (f t).id ≡ t.id)
    → (id : Text) (ts : List Transaction) → any (has_id id) ts ≡ true
    → any (has_id id) (update_where p f ts) ≡ true
any-update_where p f same id [] h = h
any-update_where p f same id (t ∷ ts) h = ground (arith, same t, any-update_where p f same id ts)

pub none_clash :
    (t : Transaction) (ts : List Transaction)
    → any (clashes t) ts ≡ false
    → count (has_id t.id) ts ≡ 0
none_clash t [] h = refl
none_clash t (x ∷ ts) h = ground (arith, none_clash t ts)
