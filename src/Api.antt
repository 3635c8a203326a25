-- ===== src/Api.antt =====
-- internal/api/handlers.go and router.go: the HTTP handlers as actions that give a response. The
-- headers are left out; a JSON body is the value that is encoded.
pub mod Paths
pub mod Requests
pub mod Answers
pub mod Quiet
use tx_submitter.Base.{
  ℕ, ◌||◌, Option, none, some, List, [], ◌∷◌, map, if◌then◌else◌, ◌==◌, ◌!=◌, ◌==ℕ◌,
}
use tx_submitter.Base.Text.{Text, text_eq, codes, split, trim, has_prefix}
use tx_submitter.State.{Transaction, Transition, Decimal, status_text, Status}
use tx_submitter.Errors.{Error, Result, ok, err}
use tx_submitter.External.{Env, SubmitRequest}
use tx_submitter.Metrics.{increment_submission}
use tx_submitter.World.{Action, ◌>>=◌, ◌>>◌, pure, attempt, measure}
use tx_submitter.Store.{create_transaction, get_transaction, transition_history}

pub record Request : Type 0 where
  pub method : Text
  pub path : Text
  pub body : Text

pub record TransitionResponse : Type 0 where
  pub from_status : Option Text
  pub to_status : Text
  pub detail : Text
  pub attempted_at : Text

pub record SubmitResponse : Type 0 where
  pub id : Text
  pub status : Text
  pub transitions : List TransitionResponse

pub data Body : Type 0 where
  plain : Text → Body
  status_json : Text → Body
  submit_json : SubmitResponse → Body

pub record Response : Type 0 where
  pub code : ℕ
  pub body : Body

-- `http.Error`
abbrev pub http_error : Text → ℕ → Response
http_error message code = record { code = code; body = plain message }

abbrev pub write_json : ℕ → Body → Response
write_json code body = record { code = code; body = body }

abbrev method_get : Text
method_get = codes "GET"

abbrev method_post : Text
method_post = codes "POST"

abbrev pub method_not_allowed : Response
method_not_allowed = http_error (codes "method not allowed") 405

unfoldable pub health : Request → Response
health r =
    if r.method != method_get then method_not_allowed else write_json 200 (status_json (codes "ok"))

unfoldable pub ready : Request → Response
ready r =
    if r.method != method_get
    then method_not_allowed
    else write_json 200 (status_json (codes "ready"))

-- The loop over the parts of the path.
unfoldable pub id_after : List Text → Text
id_after [] = []
id_after (p ∷ []) = []
id_after (p ∷ q ∷ rest) =
    let later = id_after (q ∷ rest) in if p == codes "transactions" then q else later

unfoldable pub extract_id_from_path : Text → Text
unfolding id_after trim split
extract_id_from_path path = id_after (split b'/' (trim (λ c. c ==ℕ b'/') path))

abbrev text_or_empty : Option Text → Text
text_or_empty none = []
text_or_empty (some s) = s

abbrev optional_status : Option Status → Option Text
optional_status none = none
optional_status (some s) = some (status_text s)

abbrev pub rows_or_none {ℓ} : {A : Type ℓ} → Result (List A) → List A
rows_or_none (ok rows) = rows
rows_or_none (err _) = []

module _ (e : Env) where
  -- What `Submit` answers after `CreateTransaction`.
  unfoldable pub answer_created : Result Transaction → Action Response
  answer_created (err _) = pure (http_error (codes "failed to create transaction") 409)
  answer_created (ok tx) = do
    measure (increment_submission (codes "pending"))
    pure (
        write_json 201
          (submit_json (record { id = tx.id; status = status_text tx.status; transitions = [] })))

  -- `Submit` after the checks of the fields.
  unfoldable pub enqueue : SubmitRequest → Decimal → Action Response
  unfolding answer_created
  enqueue req amount = do
    created ← attempt (
        create_transaction e (record {
          external_id = req.external_id;
          source_account = req.source;
          destination = req.destination;
          amount = amount;
          asset_code = req.asset_code;
          asset_issuer = req.asset_issuer;
        }))
    answer_created created

  unfoldable pub submit_amount : SubmitRequest → Option Decimal → Action Response
  unfolding enqueue
  submit_amount req none = pure (http_error (codes "amount must be a valid decimal string") 400)
  submit_amount req (some amount) = enqueue req amount

  unfoldable pub submit_decoded : SubmitRequest → Action Response
  unfolding submit_amount
  submit_decoded req =
      if req.source == [] || req.destination == [] || req.amount == []
      then pure (http_error (codes "source, destination, and amount are required") 400)
      else submit_amount req (e.decimal_from_string req.amount)

  unfoldable pub submit_body : Option SubmitRequest → Action Response
  unfolding submit_decoded
  submit_body none = pure (http_error (codes "invalid request body") 400)
  submit_body (some req) = submit_decoded req

  unfoldable pub submit : Request → Action Response
  unfolding submit_body
  submit r =
      if r.method != method_post
      then pure method_not_allowed
      else submit_body (e.decode_request r.body)

  abbrev pub transition_response : Transition → TransitionResponse
  transition_response t = record {
    from_status = optional_status t.from_status;
    to_status = status_text t.to_status;
    detail = text_or_empty t.detail;
    attempted_at = e.format_time t.attempted_at;
  }

  abbrev pub transaction_response : Transaction → List Transition → SubmitResponse
  transaction_response tx transitions = record {
    id = tx.id;
    status = status_text tx.status;
    transitions = map transition_response transitions;
  }

  abbrev get_failure : Error → Response
  get_failure Error.not_found = http_error (codes "transaction not found") 404
  get_failure _ = http_error (codes "failed to get transaction") 500

  -- What `Transaction` answers after `GetTransaction`.
  unfoldable pub answer_found : Text → Result Transaction → Action Response
  answer_found tx_id (err er) = pure (get_failure er)
  answer_found tx_id (ok tx) = do
    transitions ← attempt (transition_history e tx_id)
    pure (write_json 200 (submit_json (transaction_response tx (rows_or_none transitions))))

  -- `Transaction` for an id.
  unfoldable pub show_transaction : Text → Action Response
  unfolding answer_found
  show_transaction tx_id = do found ← attempt (get_transaction e tx_id); answer_found tx_id found

  unfoldable pub transaction : Request → Action Response
  unfolding show_transaction
  transaction r =
      if r.method != method_get
      then pure method_not_allowed
      else if extract_id_from_path r.path == []
      then pure (http_error (codes "transaction ID required") 400)
      else show_transaction (extract_id_from_path r.path)

-- The patterns of the mux. A path of the subtree without its slash is redirected. Paths are clean:
-- `ServeMux` redirects any other before it looks at the patterns.
pub data Route : Type 0 where
  to_health to_ready to_submit to_transactions to_metrics redirected to_root : Route

unfoldable pub route : Text → Route
unfolding has_prefix
route path =
    if path == codes "/health"
    then to_health
    else if path == codes "/ready"
    then to_ready
    else if path == codes "/submit"
    then to_submit
    else if has_prefix (codes "/transactions/") path
    then to_transactions
    else if path == codes "/transactions"
    then redirected
    else if path == codes "/metrics"
    then to_metrics
    else to_root

unfoldable pub routed : Env → Request → Route → Action Response
routed e r to = elim to [
  | to_health ↦ pure (health r)
  | to_ready ↦ pure (ready r)
  | to_submit ↦ submit e r
  | to_transactions ↦ transaction e r
  | to_metrics ↦ pure (http_error (codes "metrics endpoint available on separate port") 502)
  | redirected ↦ pure (http_error (codes "Moved Permanently") 301)
  | to_root ↦ pure (http_error (codes "not found") 404)
]

unfoldable pub router : Env → Request → Action Response
unfolding routed route
router e r = routed e r (route r.path)
