-- ===== src/FinancialUser/Routes.antt =====
-- The routes of the financial information user (financial-information-user/src/main.py), and the
-- runs of its tasks.
use fiu_data_governance.Prelude.{ℕ, String, List, [], ◌∷◌, ◌++◌, Option, none, some}
use fiu_data_governance.Host.{Host, Action, pure, lift, gets, modify, ask, ◌>>=◌, ◌>>◌}
use fiu_data_governance.Host.Tasks.{take_task}
use fiu_data_governance.Python.Json.{Json, null, str, object}
use fiu_data_governance.Python.Subscript.{index}
use fiu_data_governance.FinancialUser.{
  FinancialUser, Task, workflow, consent_notification, fi_notification,
}
use fiu_data_governance.FinancialUser.Handlers.{
  configure_bre_info, start_workflow, handle_consent_notification, handle_fi_notification,
}

-- `asyncio.ensure_future`
abbrev ensure_future : {W : Type 0} → Task → Action FinancialUser W (Unit {0})
ensure_future t = modify (λ s. record s { tasks = s.tasks ++ t ∷ [] })

abbrev pub acknowledgement : String → Json → Json
acknowledgement timestamp txn_id = object (
    ("ver", str "1.0")
    ∷ ("timestamp", str timestamp)
    ∷ ("txnid", txn_id)
    ∷ ("response", str "OK")
    ∷ [])

pub data Event : Type 0 where
  post_bre_info post_request post_consent_notification post_fi_notification : Json → Event
  -- the event loop runs the task at a position
  run_task : ℕ → Event

module _ {W : Type 0} (host : Host W) where
  -- POST /setup/bre-info
  unfoldable pub setup_bre_url : Json → Action FinancialUser W Json
  setup_bre_url request = do configure_bre_info host request; pure null

  -- POST /request
  unfoldable pub process_request : Json → Action FinancialUser W Json
  process_request request = do ensure_future (workflow request); pure null

  -- What both notifications answer once their task has been started.
  abbrev acknowledge : Json → Action FinancialUser W Json
  acknowledge request = do
    timestamp ← ask host.now
    txn_id ← lift (index request "txnid")
    pure (acknowledgement timestamp txn_id)

  -- POST /Consent/Notification
  unfoldable pub process_consent_notification : Json → Action FinancialUser W Json
  process_consent_notification request = do
    ensure_future (consent_notification request)
    acknowledge request

  -- POST /FI/Notification
  unfoldable pub process_fi_notification : Json → Action FinancialUser W Json
  process_fi_notification request = do ensure_future (fi_notification request); acknowledge request

  unfoldable pub start_task : Task → Action FinancialUser W (Unit {0})
  start_task (workflow request) = start_workflow host request
  start_task (consent_notification request) = handle_consent_notification host request
  start_task (fi_notification request) = handle_fi_notification host request

  -- The task that is taken from the list runs to its end; what it raises goes nowhere.
  unfoldable pub run_taken : Option (Task × List Task) → Action FinancialUser W Json
  run_taken none = pure null
  run_taken (some (t, ts)) = do modify (λ s. record s { tasks = ts }); start_task t; pure null

  unfoldable pub run_at : ℕ → Action FinancialUser W Json
  unfolding run_taken
  run_at n = do taken ← gets (λ s. take_task n s.tasks); run_taken taken

  unfoldable pub handle_event : Event → Action FinancialUser W Json
  handle_event (post_bre_info request) = setup_bre_url request
  handle_event (post_request request) = process_request request
  handle_event (post_consent_notification request) = process_consent_notification request
  handle_event (post_fi_notification request) = process_fi_notification request
  handle_event (run_task n) = run_at n
