-- ===== src/Server/Service.antt =====
-- A payment from the queue to the answer that it is confirmed: the engine, the store and the API
-- together.
use tx_submitter.Base.{
  ℕ, ◌*◌, ◌≤◌, ◌≡◌, ◌≢◌, refl, ap, ◌∙◌, some, List, [], ◌++◌, arith, find_where, find_where-passes,
  count, map,
}
use tx_submitter.Base.Text.{Text, text_eq, codes}
use tx_submitter.State.{Status, Transaction, status_text}
use tx_submitter.Errors.{Result, ok}
use tx_submitter.External.{Env}
use tx_submitter.World.{World}
use tx_submitter.Store.{has_id, is_pending, history_of}
use tx_submitter.Retry.{Floats}
use tx_submitter.Submitter.{start}
use tx_submitter.Submitter.Signing.{Engine}
use tx_submitter.Submitter.Draining.{Idle}
use tx_submitter.Submitter.Payable.{AllPayable}
use tx_submitter.Submitter.Delivery.{IsHealthy}
use tx_submitter.Submitter.Backlog.{ticks, start_confirms}
use tx_submitter.Api.{Request, Response, Body, TransitionResponse, router, transition_response}
use tx_submitter.Api.Paths.{NoSlash}
use tx_submitter.Api.Answers.{transaction_shows}

abbrev pub get_request : Text → Request
get_request id = record { method = codes "GET"; path = codes "/transactions/" ++ id; body = [] }

abbrev shows : Text → Text → List TransitionResponse → Result Response
shows id status transitions = ok (record {
  code = 200;
  body = Body.submit_json (record { id = id; status = status; transitions = transitions });
})

found_id :
    {id : Text} (t : Transaction) (ts : List Transaction)
    → find_where (has_id id) ts ≡ some t
    → t.id ≡ id
found_id {id} t ts found = let hit = find_where-passes (has_id id) ts t found in ground arith

module _ (F : Floats) (e : Env) (g : Engine F) (h : IsHealthy F e g) where
  abbrev history : Text → World → List TransitionResponse
  history id w = map (transition_response e) (history_of e id w.db)

  answered_confirmed :
      (id : Text) (w : World) (t : Transaction)
      → NoSlash id
      → id ≢ []
      → find_where (has_id id) w.db.transactions ≡ some t
      → t.status ≡ Status.confirmed
      → (transitions : List TransitionResponse) × ((router e (get_request id) w).0
          ≡ shows id (codes "confirmed") transitions)
  answered_confirmed id w t plain nonempty found done = (
    history id w,
    transaction_shows e id (get_request id) t w h.up plain nonempty refl refl found
        ∙ ap (λ i. shows i (status_text t.status) (history id w))
            (found_id t w.db.transactions found)
        ∙ ap (λ s. shows id (status_text s) (history id w)) done,
  )

  -- Where nothing outside fails, keys that parse also sign, and Horizon reports what it accepts as
  -- successful within the polls: if the tables are consistent, no account is locked, one is active,
  -- the keys of the channel accounts parse, each pending payment is one that the SDK takes and
  -- builds and Horizon accepts, and at most 10 n rows are pending, then after n ticks GET
  -- /transactions/{id} of an id that is not empty, has no slash and is that of a pending row
  -- answers 200 with that id and the status confirmed.
  pub waiting_confirmed :
      (n : ℕ) (id : Text) (t : Transaction) (w : World)
      → NoSlash id
      → id ≢ []
      → AllPayable F e g w.db
      → Idle F e g w.db
      → count is_pending w.db.transactions ≤ 10 * n
      → find_where (has_id id) w.db.transactions ≡ some t
      → t.status ≡ Status.pending
      → (transitions : List TransitionResponse) × ((router e
            (get_request id)
            (start F e g (ticks n) w).1).0
          ≡ ok (record {
            code = 200;
            body =
                Body.submit_json
                  (record { id = id; status = codes "confirmed"; transitions = transitions });
          }))
  waiting_confirmed n id t w plain nonempty pay idle few found waits =
      let (t', found', done) = start_confirms F e g h id n w t pay idle few found waits in
      answered_confirmed id (start F e g (ticks n) w).1 t' plain nonempty found' done
