-- ===== src/Submitter/Frame.antt =====
-- What `SubmitProcess` leaves alone in the table of transactions: every row but its own.
use tx_submitter.Base.{
  suc, ◌≡◌, refl, sym, subst, Bool, true, false, ◌&&◌, some, List, [], ◌∷◌, arith, inl, inr,
  Bool-cases, Option-cases, find_where, update_where, count,
}
use tx_submitter.Base.Text.{Text, text_eq}
use tx_submitter.State.{Transaction}
use tx_submitter.External.{Env}
use tx_submitter.World.{Db, World}
use tx_submitter.World.Keeps.{Keeps-intro, Keeps-run, Keeps-statement}
use tx_submitter.Store.{has_id, is_pending, mark_channel_used}
use tx_submitter.Store.Updates.{update_status_missing, update_status_found}
use tx_submitter.Store.Consistency.{Distinct}
use tx_submitter.Retry.{Floats}
use tx_submitter.Submitter.{submit_process}
use tx_submitter.Submitter.Signing.{Engine}
use tx_submitter.Submitter.Keeping.{StoreKeeps, submit_process-Keeps}
use tx_submitter.Submitter.Invariants.{acquire-Keeps, release-Keeps, set_seq-Keeps}
use tx_submitter.Store.Ids.{none_clash}

-- The same rows in the same order, but for what the row with the id holds.
abbrev pub SameBut : Text → List Transaction → List Transaction → Type 0
SameBut id [] [] = Unit
SameBut id [] (_ ∷ _) = ⊥
SameBut id (_ ∷ _) [] = ⊥
SameBut id (x ∷ xs) (y ∷ ys) = (y.id ≡ x.id) × (has_id id x ≡ false → y ≡ x) × SameBut id xs ys

SameBut-refl : (id : Text) (xs : List Transaction) → SameBut id xs xs
SameBut-refl id [] = tt
SameBut-refl id (x ∷ xs) = (refl, (λ other. refl), SameBut-refl id xs)

SameBut-update_where :
    (id : Text) (p : Transaction → Bool) (f : Transaction → Transaction)
    → ((x : Transaction) → (f x).id ≡ x.id)
    → ((x : Transaction) → has_id id x ≡ false → p x ≡ false)
    → (xs ys : List Transaction) → SameBut id xs ys
    → SameBut id xs (update_where p f ys)
SameBut-update_where id p f same miss [] [] h = tt
SameBut-update_where id p f same miss [] (y ∷ ys) h = absurd h
SameBut-update_where id p f same miss (x ∷ xs) [] h = absurd h
SameBut-update_where id p f same miss (x ∷ xs) (y ∷ ys) (kept, others, rest) = (
  ground (arith, same y),
  (λ other. ground (arith, others other, miss y)),
  SameBut-update_where id p f same miss xs ys rest,
)

SameBut-count :
    (id : Text) (xs ys : List Transaction)
    → SameBut id xs ys
    → count (has_id id) xs ≡ 0
    → count is_pending ys ≡ count is_pending xs
SameBut-count id [] [] h absent = refl
SameBut-count id [] (y ∷ ys) h absent = absurd h
SameBut-count id (x ∷ xs) [] h absent = absurd h
SameBut-count id (x ∷ xs) (y ∷ ys) (kept, others, rest) absent =
    ground (arith, SameBut-count id xs ys rest)

same_count :
    (id : Text) (x : Transaction) (xs : List Transaction)
    → x.id ≡ id
    → count (has_id x.id) xs ≡ 0
    → count (has_id id) xs ≡ 0
same_count id x xs same h = subst (λ i. count (has_id i) xs ≡ 0) same h

-- If the row was pending and no longer is, one row less is pending.
pub count-SameBut :
    (id : Text) (xs ys : List Transaction) (t t' : Transaction)
    → SameBut id xs ys
    → Distinct xs
    → find_where (has_id id) xs ≡ some t
    → is_pending t ≡ true
    → find_where (has_id id) ys ≡ some t'
    → is_pending t' ≡ false
    → suc (count is_pending ys) ≡ count is_pending xs
count-SameBut id [] [] t t' h d found was found' now = absurd (ground arith)
count-SameBut id [] (y ∷ ys) t t' h d found was found' now = absurd h
count-SameBut id (x ∷ xs) [] t t' h d found was found' now = absurd h
count-SameBut id (x ∷ xs) (y ∷ ys) t t' (kept, others, rest) d found was found' now =
    elim (Bool-cases (has_id id x)) [
      | inl mine ↦ ground (
        arith,
        same_count id x xs (ground arith) (none_clash x xs d.0),
        SameBut-count id xs ys rest,
      )
      | inr other ↦ ground (arith, others other, count-SameBut id xs ys t t' rest d.1)
    ]

module _ (F : Floats) (e : Env) (g : Engine F) (id : Text) (before : List Transaction) where
  abbrev Framed : Db → Type 0
  Framed db = SameBut id before db.transactions

  frame_kept : StoreKeeps Framed e id
  unfolding mark_channel_used
  frame_kept = record {
    update = λ new _ detail hid. Keeps-intro Framed _ λ w h.
        elim (Option-cases (find_where (has_id id) w.db.transactions)) [
          | inl gone ↦ subst Framed (sym (update_status_missing e id new detail hid w gone)) h
          | inr (t, found) ↦ elim (update_status_found e id new detail hid w t found) [
            | inl same ↦ subst Framed (sym same) h
            | inr (legal, written) ↦ subst Framed (sym written) (
                SameBut-update_where id (has_id id) _ (λ x. refl) (λ x miss. miss) before
                  w.db.transactions h)
          ]
        ];
    mark = λ k. Keeps-statement Framed e _ λ n db h.
        SameBut-update_where id (λ x. has_id id x && is_pending x) _ (λ x. refl)
          (λ x miss. ground arith) before db.transactions h;
    set_seq = set_seq-Keeps Framed e (λ cas db h. h);
  }

module _ (F : Floats) (e : Env) (g : Engine F) where
  -- Whatever happens, `SubmitProcess` writes its own row only.
  pub submit_process-SameBut :
      (tx : Transaction) (w : World)
      → SameBut tx.id w.db.transactions (submit_process F e g tx w).1.db.transactions
  submit_process-SameBut tx w =
      Keeps-run (Framed F e g tx.id w.db.transactions) _
        (submit_process-Keeps (Framed F e g tx.id w.db.transactions) e tx
          (frame_kept F e g tx.id w.db.transactions) F g
          (acquire-Keeps (Framed F e g tx.id w.db.transactions) e (λ cas db h. h))
          (release-Keeps (Framed F e g tx.id w.db.transactions) e (λ cas db h. h)))
        w (SameBut-refl tx.id w.db.transactions)
