-- ===== src/Aggregator/Routes.antt =====
-- The routes of the account aggregator (account-aggregator/src/main.py), the runs of its tasks, and
-- the events that the service goes through. Between two events the service has no code running: a
-- handler waits for no other one, since `requests` blocks the event loop, and the only other wait,
-- the delay before an artifact is created, stands at the beginning of its task.
use fiu_data_governance.Prelude.{ℕ, String, List, [], ◌∷◌, ◌++◌, Option, none, some}
use fiu_data_governance.Host.{Host, Action, pure, lift, gets, modify, ask, ◌>>=◌, ◌>>◌}
use fiu_data_governance.Host.Tasks.{take_task}
use fiu_data_governance.Python.Json.{Json, null, str, object}
use fiu_data_governance.Python.Subscript.{index}
use fiu_data_governance.Aggregator.{Aggregator, Task, create_artifact, request_fi}
use fiu_data_governance.Aggregator.Consent.{
  setup_certificate, handle_consent, handle_consent_handle, create_consent_artifact,
  get_consent_artifact,
}
use fiu_data_governance.Aggregator.Session.{handle_fi_request, handle_fi_fetch}

-- `asyncio.ensure_future`
abbrev pub ensure_future : {W : Type 0} → Task → Action Aggregator W (Unit {0})
ensure_future t = modify (λ s. record s { tasks = s.tasks ++ t ∷ [] })

abbrev pub accepted_response : String → Json → Json → String → Json
accepted_response timestamp txn_id consent_id session_id = object (
    ("ver", str "1.0")
    ∷ ("timestamp", str timestamp)
    ∷ ("txnid", txn_id)
    ∷ ("consentId", consent_id)
    ∷ ("sessionId", str session_id)
    ∷ [])

pub data Event : Type 0 where
  post_cr_info post_statements post_consent post_fi_request : Json → Event
  get_consent_handle get_consent fetch : String → Event
  -- the event loop runs the task at a position
  run_task : ℕ → Event

module _ {W : Type 0} (host : Host W) where
  -- POST /setup/cr-info
  unfoldable pub setup_cr_url : Json → Action Aggregator W Json
  setup_cr_url request = do setup_certificate host request; pure null

  -- POST /setup/statements
  unfoldable pub setup_statements : Json → Action Aggregator W Json
  setup_statements statements = do modify (λ s. record s { fi_data_json = statements }); pure null

  -- POST /Consent
  unfoldable pub process_consent : Json → Action Aggregator W Json
  process_consent request = do
    consent_handle ← ask host.uuid4
    answer ← handle_consent host consent_handle request
    ensure_future (create_artifact consent_handle request)
    pure answer

  -- POST /FI/request
  unfoldable pub process_fi_request : Json → Action Aggregator W Json
  process_fi_request request = do
    session_id ← ask host.uuid4
    ensure_future (request_fi session_id request)
    timestamp ← ask host.now
    txn_id ← lift (index request "txnid")
    consent ← lift (index request "Consent")
    consent_id ← lift (index consent "id")
    pure (accepted_response timestamp txn_id consent_id session_id)

  unfoldable pub start_task : Task → Action Aggregator W (Unit {0})
  start_task (create_artifact consent_handle request) =
      create_consent_artifact host consent_handle request
  start_task (request_fi session_id request) = handle_fi_request host session_id request

  -- The task that is taken from the list runs to its end; what it raises goes nowhere.
  unfoldable pub run_taken : Option (Task × List Task) → Action Aggregator W Json
  run_taken none = pure null
  run_taken (some (t, ts)) = do modify (λ s. record s { tasks = ts }); start_task t; pure null

  unfoldable pub run_at : ℕ → Action Aggregator W Json
  unfolding run_taken
  run_at n = do taken ← gets (λ s. take_task n s.tasks); run_taken taken

  unfoldable pub handle_event : Event → Action Aggregator W Json
  handle_event (post_cr_info request) = setup_cr_url request
  handle_event (post_statements statements) = setup_statements statements
  handle_event (post_consent request) = process_consent request
  handle_event (post_fi_request request) = process_fi_request request
  handle_event (get_consent_handle consent_handle) = handle_consent_handle host consent_handle
  handle_event (get_consent consent_id) = get_consent_artifact host consent_id
  handle_event (fetch session_id) = handle_fi_fetch host session_id
  handle_event (run_task n) = run_at n
