-- ===== src/Api/Answers.antt =====
-- What `Submit` and `Transaction` answer, and what they do to the tables.
use tx_submitter.Base.{
  ℕ, suc, ◌≤◌, ◌≡◌, ◌≢◌, refl, ap, ◌∙◌, ◌⊎◌, Option, none, some, [], ◌∷◌, ◌++◌, arith, false, any,
  find_where,
}
use tx_submitter.Base.Text.{Text, text_eq, codes, has_prefix}
use tx_submitter.State.{Status, Decimal, Transaction}
use tx_submitter.Errors.{Result, ok}
use tx_submitter.External.{Env, SubmitRequest}
use tx_submitter.World.{World}
use tx_submitter.Store.{has_id, clashes, get_transaction, transition_history, history_of}
use tx_submitter.Api.{
  Request, Response, Body, answer_found, routed, route, show_transaction, transaction, router,
  extract_id_from_path, transaction_response, to_transactions,
}
use tx_submitter.Api.Paths.{NoSlash, extract_id_from_path-append}

-- The answer 201, with a new pending row of the request's fields at the end of the table.
abbrev pub Enqueues : Env → SubmitRequest → Decimal → World → Result Response × World → Type 0
Enqueues e req amount w r =
    (tx : Transaction) × (tx.status ≡ Status.pending)
    × (tx.id ≡ e.gen_random_uuid w.calls)
    × (tx.external_id ≡ req.external_id)
    × (tx.source_account ≡ req.source)
    × (tx.destination ≡ req.destination)
    × (tx.amount ≡ e.to_numeric amount)
    × (tx.asset_code ≡ req.asset_code)
    × (tx.asset_issuer ≡ req.asset_issuer)
    × (any (clashes tx) w.db.transactions ≡ false)
    × (r.0
        ≡ ok (record {
          code = 201;
          body =
              Body.submit_json (record { id = tx.id; status = codes "pending"; transitions = [] });
        }))
    × (r.1.db ≡ record w.db { transactions = w.db.transactions ++ (tx ∷ []) })

-- An answer of another kind, and no change.
abbrev pub Refuses : World → Result Response × World → Type 0
Refuses w r = (resp : Response) × (r.0 ≡ ok resp) × (400 ≤ resp.code) × (r.1.db ≡ w.db)

module _ (e : Env) where
  abbrev Submitted : Option SubmitRequest → World → Result Response × World → Type 0
  Submitted decoded w result =
      ((req : SubmitRequest) × (amount : Decimal) × (decoded ≡ some req)
        × (e.decimal_from_string req.amount ≡ some amount)
        × Enqueues e req amount w result)
      ⊎ Refuses w result

  route-transactions : (id : Text) → route (codes "/transactions/" ++ id) ≡ to_transactions
  unfolding route text_eq has_prefix
  route-transactions id = refl

  abbrev shown : Text → Transaction → World → Response
  shown id t w = record {
    code = 200;
    body = Body.submit_json (transaction_response e t (history_of e id w.db));
  }

  show_transaction_ok :
      (id : Text) (t : Transaction) (w : World)
      → ((n : ℕ) → e.db_fault n ≡ none)
      → find_where (has_id id) w.db.transactions ≡ some t
      → (show_transaction e id w).0 ≡ ok (shown id t w)
  unfolding show_transaction answer_found get_transaction transition_history
  show_transaction_ok id t w up found = ground (arith, up w.calls, up (suc w.calls))

  transaction_get :
      (id : Text) (r : Request)
      → NoSlash id
      → id ≢ []
      → r.method ≡ codes "GET"
      → r.path ≡ codes "/transactions/" ++ id
      → transaction e r ≡ show_transaction e id
  unfolding transaction
  transaction_get id r plain nonempty get path = ground (
    arith,
    ap extract_id_from_path path ∙ extract_id_from_path-append id plain nonempty,
    get,
    nonempty,
  )

  routed_to :
      (r : Request) (id : Text)
      → r.path ≡ codes "/transactions/" ++ id
      → router e r ≡ transaction e r
  unfolding router routed
  routed_to r id path = ap (routed e r) (ap route path ∙ route-transactions id)

  -- If every call of the database goes through, GET /transactions/{id} of an id that is not empty
  -- and has no slash, and that is in the table, answers 200 with the row's status and its history.
  pub transaction_shows :
      (id : Text) (r : Request) (t : Transaction) (w : World)
      → ((n : ℕ) → e.db_fault n ≡ none)
      → NoSlash id
      → id ≢ []
      → r.method ≡ codes "GET"
      → r.path ≡ codes "/transactions/" ++ id
      → find_where (has_id id) w.db.transactions ≡ some t
      → (router e r w).0
        ≡ ok (record {
          code = 200;
          body = Body.submit_json (transaction_response e t (history_of e id w.db));
        })
  transaction_shows id r t w up plain nonempty get path found =
      ap (λ m. (m w).0) (routed_to r id path ∙ transaction_get id r plain nonempty get path)
      ∙ show_transaction_ok id t w up found
