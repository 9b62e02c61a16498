-- ===== src/FinancialUser/Reach.antt =====
-- The states that the financial information user reaches by requests and task runs, in any order, and
-- what it sends to the clean room from them (financial-information-user/src, main.py and controller.py).
use fiu_data_governance.Prelude.{◌≡◌, String, none, some, Option, List, ◌∷◌, [], ◌++◌}
use fiu_data_governance.Prelude.Dict.{lookup}
use fiu_data_governance.Host.{Host, Sys}
use fiu_data_governance.Host.Effects.Keeps.{Keeps, Keeps-pure, keeps_rules}
use fiu_data_governance.Python.Errors.{ok}
use fiu_data_governance.Python.Json.{Json}
use fiu_data_governance.Python.Key.{Key, key_eq}
use fiu_data_governance.Python.Subscript.{index}
use fiu_data_governance.FinancialUser.{
  FinancialUser, Task, workflow, consent_notification, fi_notification, initial,
}
use fiu_data_governance.FinancialUser.Messages as Messages
use fiu_data_governance.FinancialUser.Handlers.{configure_bre_info, prepare_process_request}
use fiu_data_governance.FinancialUser.Routes.{
  Event, post_bre_info, post_request, post_consent_notification, post_fi_notification, run_task,
  setup_bre_url, process_request, process_consent_notification, process_fi_notification, start_task,
  run_taken, run_at, handle_event,
}
use fiu_data_governance.FinancialUser.Transactions.{prepare_process_request-IsFor}
use fiu_data_governance.FinancialUser.Artifacts.{
  HasKeyedTables, IsOf, tasks-Keeps, url_bre-Keeps, start_workflow-Keeps,
  handle_consent_notification-Keeps, handle_fi_notification-Keeps,
}

module _ {W : Type 0} (host : Host W) where
  pub data Reach (start : Sys FinancialUser W) : Sys FinancialUser W → Type 0 where
    here : Reach start start
    next :
        {s : Sys FinancialUser W}
        → Reach start s
        → (e : Event) → Reach start (handle_event host e s).1

  start_task-Keeps : (t : Task) → Keeps HasKeyedTables (start_task host t)
  unfolding start_task
  start_task-Keeps (workflow request) = start_workflow-Keeps host request
  start_task-Keeps (consent_notification request) = handle_consent_notification-Keeps host request
  start_task-Keeps (fi_notification request) = handle_fi_notification-Keeps host request

  run_taken-Keeps : (o : Option (Task × List Task)) → Keeps HasKeyedTables (run_taken host o)
  unfolding run_taken
  run_taken-Keeps none = Keeps-pure _
  run_taken-Keeps (some (t, ts)) =
      search (keeps_rules, tasks-Keeps (λ _. ts), start_task-Keeps) depth 20

  pub handle_event-Keeps : (e : Event) → Keeps HasKeyedTables (handle_event host e)
  unfolding handle_event setup_bre_url process_request process_consent_notification
      process_fi_notification configure_bre_info run_at
  handle_event-Keeps (post_bre_info request) = search (keeps_rules, url_bre-Keeps) depth 20
  handle_event-Keeps (post_request request) =
      search (keeps_rules, tasks-Keeps (λ ts. ts ++ workflow request ∷ [])) depth 20
  handle_event-Keeps (post_consent_notification request) =
      search (keeps_rules, tasks-Keeps (λ ts. ts ++ consent_notification request ∷ [])) depth 20
  handle_event-Keeps (post_fi_notification request) =
      search (keeps_rules, tasks-Keeps (λ ts. ts ++ fi_notification request ∷ [])) depth 20
  handle_event-Keeps (run_task n) = search (keeps_rules, run_taken-Keeps) depth 20

  pub initial-HasKeyedTables : (url_bre url_aa : String) → HasKeyedTables (initial url_bre url_aa)
  unfolding lookup
  initial-HasKeyedTables url_bre url_aa = record {
    requests_keyed = λ k v e. absurd (cc e);
    artifacts_keyed = λ k v e. absurd (cc e);
  }

  -- In every state that the service reaches from its start, by requests and task runs in any order,
  -- each consent request and each consent artifact is kept under its own transaction id.
  pub Reach-HasKeyedTables :
      (url_bre url_aa : String) (w : W) {s : Sys FinancialUser W}
      → Reach (record { self = initial url_bre url_aa; world = w }) s
      → HasKeyedTables s.self
  Reach-HasKeyedTables url_bre url_aa w here = initial-HasKeyedTables url_bre url_aa
  Reach-HasKeyedTables url_bre url_aa w (next {s} r e) =
      (handle_event-Keeps e).at s (Reach-HasKeyedTables url_bre url_aa w r)

  -- If a request to the clean room is prepared in a state that the service reaches from its start, then
  -- it is made from a response, parsed from some text, and an artifact with the same transaction id, up
  -- to Python's equality of keys: its payload is the converted information of the response, it holds
  -- the artifact, and it goes under the clean room's id that is kept for this same transaction.
  pub prepare_process_request-SameTransaction :
      (url_bre url_aa : String) (w : W) {s : Sys FinancialUser W}
      → Reach (record { self = initial url_bre url_aa; world = w }) s
      → (request body : Json) → (prepare_process_request host request s).0 ≡ ok body
      → (answer timestamp : String) × (fetched artifact ccr_txn_id fi payload : Json) × (key : Key)
        × (host.loads answer ≡ ok fetched)
        × IsOf key fetched
        × IsOf key artifact
        × (lookup key s.self.txn_ids ≡ some ccr_txn_id)
        × (index fetched "FI" ≡ ok fi)
        × (Messages.convert_fi_data_to_ccr_json fi ≡ ok payload)
        × (body ≡ Messages.process_request timestamp ccr_txn_id payload artifact)
  prepare_process_request-SameTransaction url_bre url_aa w {s} r request body h =
      let keyed = Reach-HasKeyedTables url_bre url_aa w r in
      let (answer, fetched, e0, sent) = prepare_process_request-IsFor host request body s h in
      let (txn_id, ccr, artifact, fi, payload, key, timestamp, e1, e2, e3, e4, e5, e6, e7) = sent in
      (
        answer,
        timestamp,
        fetched,
        artifact,
        ccr,
        fi,
        payload,
        key,
        e0,
        (txn_id, e1, e2),
        keyed.artifacts_keyed key artifact e4,
        e3,
        e5,
        e6,
        e7,
      )
