-- ===== src/Api/Requests.antt =====
-- What a request keeps of the tables: what `CreateTransaction` keeps.
use tx_submitter.Base.{Option, none, some}
use tx_submitter.Base.Text.{Text}
use tx_submitter.State.{Decimal, Transaction, NewTransactionParams}
use tx_submitter.Errors.{Result, ok, err}
use tx_submitter.External.{Env, SubmitRequest}
use tx_submitter.World.{Db, World}
use tx_submitter.World.Keeps.{Keeps, Keeps-run, keeps_rules}
use tx_submitter.Store.{create_transaction, get_transaction, transition_history}
use tx_submitter.Store.Consistency.{IsConsistent}
use tx_submitter.Store.Histories.{create_transaction-IsConsistent}
use tx_submitter.Api.{
  Request, answer_created, submit_amount, submit_body, answer_found, Route, to_health, to_ready,
  to_submit, to_transactions, to_metrics, redirected, to_root, routed, route, enqueue,
  submit_decoded, submit, show_transaction, transaction, router,
}

module _ {κ} (P : Db → Type κ) (e : Env) where
  answer_found-Keeps :
      (tx_id : Text) (found : Result Transaction) → Keeps P (answer_found e tx_id found)
  unfolding answer_found transition_history
  answer_found-Keeps tx_id (err _) = search keeps_rules
  answer_found-Keeps tx_id (ok tx) = search keeps_rules depth 9

  pub transaction-Keeps : (r : Request) → Keeps P (transaction e r)
  unfolding transaction show_transaction get_transaction
  transaction-Keeps r = search (keeps_rules, answer_found-Keeps) depth 9

module _ (P : Db → Type 0) (e : Env)
    (creates : (p : NewTransactionParams) → Keeps P (create_transaction e p)) where
  answer_created-Keeps : (created : Result Transaction) → Keeps P (answer_created e created)
  unfolding answer_created
  answer_created-Keeps (err _) = search keeps_rules
  answer_created-Keeps (ok tx) = search keeps_rules

  submit_amount-Keeps :
      (req : SubmitRequest) (amount : Option Decimal) → Keeps P (submit_amount e req amount)
  unfolding submit_amount enqueue
  submit_amount-Keeps req none = search keeps_rules
  submit_amount-Keeps req (some amount) = search (keeps_rules, creates, answer_created-Keeps)

  submit_body-Keeps : (body : Option SubmitRequest) → Keeps P (submit_body e body)
  unfolding submit_body submit_decoded
  submit_body-Keeps none = search keeps_rules
  submit_body-Keeps (some req) = search (keeps_rules, submit_amount-Keeps)

  submit-Keeps : (r : Request) → Keeps P (submit e r)
  unfolding submit
  submit-Keeps r = search (keeps_rules, submit_body-Keeps)

  routed-Keeps : (r : Request) (to : Route) → Keeps P (routed e r to)
  unfolding routed
  routed-Keeps r to_submit = submit-Keeps r
  routed-Keeps r to_transactions = transaction-Keeps P e r
  routed-Keeps r to_health = search keeps_rules
  routed-Keeps r to_ready = search keeps_rules
  routed-Keeps r to_metrics = search keeps_rules
  routed-Keeps r redirected = search keeps_rules
  routed-Keeps r to_root = search keeps_rules

  -- A request keeps what `CreateTransaction` keeps.
  pub router-Keeps : (r : Request) → Keeps P (router e r)
  unfolding router
  router-Keeps r = routed-Keeps r (route r.path)

module _ (e : Env) where
  -- If the tables are consistent before a request, they are consistent after it, whatever the
  -- request is and whatever the environment answers.
  pub router-IsConsistent :
      (r : Request) (w : World) → IsConsistent w.db → IsConsistent (router e r w).1.db
  router-IsConsistent r =
      Keeps-run IsConsistent (router e r)
        (router-Keeps IsConsistent e (create_transaction-IsConsistent e) r)
