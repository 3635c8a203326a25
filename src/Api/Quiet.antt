-- ===== src/Api/Quiet.antt =====
-- A request sends nothing to Horizon.
use tx_submitter.Base.{Option, none, some, arith}
use tx_submitter.Base.Text.{Text}
use tx_submitter.State.{Decimal, Transaction, NewTransactionParams}
use tx_submitter.Errors.{Result, ok, err}
use tx_submitter.External.{Env, SubmitRequest}
use tx_submitter.World.{Event}
use tx_submitter.World.Adds.{Adds, Adds-still, adds_rules}
use tx_submitter.Store.{create_transaction, get_transaction, transition_history}
use tx_submitter.Api.{
  Request, answer_created, submit_amount, submit_body, answer_found, Route, to_health, to_ready,
  to_submit, to_transactions, to_metrics, redirected, to_root, routed, route, enqueue,
  submit_decoded, submit, show_transaction, transaction, router,
}

module _ (P : Event → Type 0) (e : Env) where
  create_transaction-Adds : (p : NewTransactionParams) → Adds P (create_transaction e p)
  unfolding create_transaction
  create_transaction-Adds p = Adds-still P _ λ w. ground arith

  get_transaction-Adds : (id : Text) → Adds P (get_transaction e id)
  unfolding get_transaction
  get_transaction-Adds id = Adds-still P _ λ w. ground arith

  transition_history-Adds : (id : Text) → Adds P (transition_history e id)
  unfolding transition_history
  transition_history-Adds id = Adds-still P _ λ w. ground arith

  answer_created-Adds : (created : Result Transaction) → Adds P (answer_created e created)
  unfolding answer_created
  answer_created-Adds (err _) = search adds_rules
  answer_created-Adds (ok tx) = search adds_rules

  submit_amount-Adds :
      (req : SubmitRequest) (amount : Option Decimal) → Adds P (submit_amount e req amount)
  unfolding submit_amount enqueue
  submit_amount-Adds req none = search adds_rules
  submit_amount-Adds req (some amount) =
      search (adds_rules, create_transaction-Adds, answer_created-Adds)

  submit_body-Adds : (body : Option SubmitRequest) → Adds P (submit_body e body)
  unfolding submit_body submit_decoded
  submit_body-Adds none = search adds_rules
  submit_body-Adds (some req) = search (adds_rules, submit_amount-Adds)

  submit-Adds : (r : Request) → Adds P (submit e r)
  unfolding submit
  submit-Adds r = search (adds_rules, submit_body-Adds)

  answer_found-Adds :
      (tx_id : Text) (found : Result Transaction) → Adds P (answer_found e tx_id found)
  unfolding answer_found
  answer_found-Adds tx_id (err _) = search adds_rules
  answer_found-Adds tx_id (ok tx) = search (adds_rules, transition_history-Adds) depth 9

  transaction-Adds : (r : Request) → Adds P (transaction e r)
  unfolding transaction show_transaction
  transaction-Adds r = search (adds_rules, get_transaction-Adds, answer_found-Adds) depth 9

  routed-Adds : (r : Request) (to : Route) → Adds P (routed e r to)
  unfolding routed
  routed-Adds r to_submit = submit-Adds r
  routed-Adds r to_transactions = transaction-Adds r
  routed-Adds r to_health = search adds_rules
  routed-Adds r to_ready = search adds_rules
  routed-Adds r to_metrics = search adds_rules
  routed-Adds r redirected = search adds_rules
  routed-Adds r to_root = search adds_rules

  -- Whatever P is: nothing is added.
  pub router-Adds : (r : Request) → Adds P (router e r)
  unfolding router
  router-Adds r = routed-Adds r (route r.path)
