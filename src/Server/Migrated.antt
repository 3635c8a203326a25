-- ===== src/Server/Migrated.antt =====
-- `main` on the schema of migrations/0001_init.up.sql, which gives the channel account's column no default.
use tx_submitter.Base.{
  ◌≡◌, refl, sym, subst, ◌∙◌, Bool, none, List, [], ◌∷◌, arith, inl, inr, Option-cases, map,
  find_where, update_where,
}
use tx_submitter.Base.Text.{Text}
use tx_submitter.State.{Transaction}
use tx_submitter.External.{Env}
use tx_submitter.World.{Db, World}
use tx_submitter.World.Keeps.{Keeps-intro, Keeps-run, Keeps-statement}
use tx_submitter.Store.{has_id, mark_channel_used}
use tx_submitter.Store.Updates.{
  create_transaction_impossible, update_status_missing, update_status_found,
}
use tx_submitter.Submitter.Keeping.{StoreKeeps}
use tx_submitter.Submitter.Invariants.{set_seq-Keeps}
use tx_submitter.Retry.{Floats}
use tx_submitter.Server.Process.{Occurrence, main, main-Keeps}

abbrev pub ids : Db → List Text
ids db = map (λ t. t.id) db.transactions

ids_updated :
    (p : Transaction → Bool) (f : Transaction → Transaction)
    → ((t : Transaction) → (f t).id ≡ t.id)
    → (ts : List Transaction) → map (λ t. t.id) (update_where p f ts) ≡ map (λ t. t.id) ts
ids_updated p f same [] = refl
ids_updated p f same (t ∷ ts) = ground (arith, same t, ids_updated p f same ts)

module _ (e : Env) (before : List Text) where
  abbrev HasIds : Db → Type 0
  HasIds db = ids db ≡ before

  ids_kept : (tx_id : Text) → StoreKeeps HasIds e tx_id
  unfolding mark_channel_used
  ids_kept tx_id = record {
    update = λ new _ detail hid. Keeps-intro HasIds _ λ w h.
        elim (Option-cases (find_where (has_id tx_id) w.db.transactions)) [
          | inl gone ↦ subst HasIds (sym (update_status_missing e tx_id new detail hid w gone)) h
          | inr (t, found) ↦ elim (update_status_found e tx_id new detail hid w t found) [
            | inl same ↦ subst HasIds (sym same) h
            | inr (legal, written) ↦
                subst HasIds (sym written)
                  (ids_updated (has_id tx_id) _ (λ x. refl) w.db.transactions ∙ h)
          ]
        ];
    mark =
        λ k. Keeps-statement HasIds e _ λ n db h. ids_updated _ _ (λ x. refl) db.transactions ∙ h;
    set_seq = set_seq-Keeps HasIds e (λ cas db h. h);
  }

module _ (F : Floats) (e : Env) where
  -- On a schema that gives the channel account's column no default, as migrations/0001_init.up.sql
  -- leaves it, `main` takes no payment: over any sequence of requests and ticks, whatever the
  -- configuration and the environment answer, the ids in the table of transactions are what they
  -- were.
  pub main_takes_none :
      (occurrences : List Occurrence) (w : World)
      → e.schema.channel_account_default ≡ none
      → ids (main F e occurrences w).1.db ≡ ids w.db
  main_takes_none occurrences w no_default =
      Keeps-run (HasIds e (ids w.db)) (main F e occurrences)
        (main-Keeps F e (HasIds e (ids w.db)) (λ cas db h. h) (ids_kept e (ids w.db))
          (λ p. Keeps-intro (HasIds e (ids w.db)) _ λ w' h.
            subst (HasIds e (ids w.db)) (sym (create_transaction_impossible e p w' no_default).0) h)
          occurrences)
        w refl
