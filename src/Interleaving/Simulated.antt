-- ===== src/Interleaving/Simulated.antt =====
-- All handlers of the account aggregator and of the financial information user run with peers that
-- answer at once as they run with the answers (main.py and controller.py of both).
use fiu_data_governance.Prelude.{Option, none, some, String, List}
use fiu_data_governance.Host.{Host, HttpRequest, Outcome}
use fiu_data_governance.Python.Json.{Json}
use fiu_data_governance.Interleaving.Replay.{replay}
use fiu_data_governance.Interleaving.Beside.{beside, Sim}
use fiu_data_governance.Interleaving.Simulation.{sim_rules}
use fiu_data_governance.Aggregator.{Task, create_artifact, request_fi}
use fiu_data_governance.Aggregator.Consent.{
  setup_certificate, handle_consent, store_consent, handle_consent_handle, create_consent_artifact,
  sign_artifact, get_consent_signature, notify_fiu, get_consent_artifact,
}
use fiu_data_governance.Aggregator.Session.{
  ensure_crypto_keys, encrypt_fi, notify_fi, handle_fi_request, handle_fi_fetch,
}
use fiu_data_governance.Aggregator.Routes as AaRoutes
use fiu_data_governance.FinancialUser.{workflow, consent_notification, fi_notification}
use fiu_data_governance.FinancialUser as User
use fiu_data_governance.FinancialUser.Handlers.{
  configure_bre_info, get_ccr_public_key, open_transaction, start_workflow,
  handle_consent_notification, assemble, prepare_process_request, handle_fi_notification,
}
use fiu_data_governance.FinancialUser.Routes as FiuRoutes

module _ {W Y : Type 0} (answer : HttpRequest → Y → Outcome × Y) (host : Host W) where
  setup_cr_url-Sim :
      (request : Json)
      → Sim answer
          (AaRoutes.setup_cr_url (beside answer host) request)
          (AaRoutes.setup_cr_url (replay host) request)
  unfolding AaRoutes.setup_cr_url setup_certificate
  setup_cr_url-Sim request = search sim_rules depth 30

  process_consent-Sim :
      (request : Json)
      → Sim answer
          (AaRoutes.process_consent (beside answer host) request)
          (AaRoutes.process_consent (replay host) request)
  unfolding AaRoutes.process_consent handle_consent store_consent
  process_consent-Sim request = search sim_rules depth 30

  create_consent_artifact-Sim :
      (h : String) (request : Json)
      → Sim answer
          (create_consent_artifact (beside answer host) h request)
          (create_consent_artifact (replay host) h request)
  unfolding create_consent_artifact sign_artifact get_consent_signature notify_fiu
  create_consent_artifact-Sim h request = search sim_rules depth 40

  ensure_crypto_keys-Sim :
      Sim answer (ensure_crypto_keys (beside answer host)) (ensure_crypto_keys (replay host))
  unfolding ensure_crypto_keys
  ensure_crypto_keys-Sim = search sim_rules depth 30

  handle_fi_request-Sim :
      (session_id : String) (request : Json)
      → Sim answer
          (handle_fi_request (beside answer host) session_id request)
          (handle_fi_request (replay host) session_id request)
  unfolding handle_fi_request encrypt_fi notify_fi
  handle_fi_request-Sim session_id request = search (sim_rules, ensure_crypto_keys-Sim) depth 40

  aa_task-Sim :
      (t : Task)
      → Sim answer
          (AaRoutes.start_task (beside answer host) t)
          (AaRoutes.start_task (replay host) t)
  unfolding AaRoutes.start_task
  aa_task-Sim (create_artifact h request) = create_consent_artifact-Sim h request
  aa_task-Sim (request_fi session_id request) = handle_fi_request-Sim session_id request

  aa_run-Sim :
      (o : Option (Task × List Task))
      → Sim answer (AaRoutes.run_taken (beside answer host) o) (AaRoutes.run_taken (replay host) o)
  unfolding AaRoutes.run_taken
  aa_run-Sim none = search sim_rules
  aa_run-Sim (some (t, ts)) = search (sim_rules, aa_task-Sim) depth 20

  pub aa-Sim :
      (e : AaRoutes.Event)
      → Sim answer
          (AaRoutes.handle_event (beside answer host) e)
          (AaRoutes.handle_event (replay host) e)
  unfolding AaRoutes.handle_event AaRoutes.setup_statements AaRoutes.process_fi_request
      AaRoutes.run_at handle_consent_handle get_consent_artifact handle_fi_fetch
  aa-Sim (AaRoutes.post_cr_info request) = setup_cr_url-Sim request
  aa-Sim (AaRoutes.post_statements statements) = search sim_rules depth 20
  aa-Sim (AaRoutes.post_consent request) = process_consent-Sim request
  aa-Sim (AaRoutes.post_fi_request request) = search sim_rules depth 20
  aa-Sim (AaRoutes.get_consent_handle h) = search sim_rules depth 20
  aa-Sim (AaRoutes.get_consent i) = search sim_rules depth 20
  aa-Sim (AaRoutes.fetch k) = search sim_rules depth 20
  aa-Sim (AaRoutes.run_task n) = search (sim_rules, aa_run-Sim) depth 20

  start_workflow-Sim :
      (data_json : Json)
      → Sim answer
          (start_workflow (beside answer host) data_json)
          (start_workflow (replay host) data_json)
  unfolding start_workflow open_transaction get_ccr_public_key
  start_workflow-Sim data_json = search sim_rules depth 60

  handle_consent_notification-Sim :
      (request : Json)
      → Sim answer
          (handle_consent_notification (beside answer host) request)
          (handle_consent_notification (replay host) request)
  unfolding handle_consent_notification
  handle_consent_notification-Sim request = search sim_rules depth 60

  handle_fi_notification-Sim :
      (request : Json)
      → Sim answer
          (handle_fi_notification (beside answer host) request)
          (handle_fi_notification (replay host) request)
  unfolding handle_fi_notification prepare_process_request assemble
  handle_fi_notification-Sim request = search sim_rules depth 60

  fiu_task-Sim :
      (t : User.Task)
      → Sim answer
          (FiuRoutes.start_task (beside answer host) t)
          (FiuRoutes.start_task (replay host) t)
  unfolding FiuRoutes.start_task
  fiu_task-Sim (workflow request) = start_workflow-Sim request
  fiu_task-Sim (consent_notification request) = handle_consent_notification-Sim request
  fiu_task-Sim (fi_notification request) = handle_fi_notification-Sim request

  fiu_run-Sim :
      (o : Option (User.Task × List User.Task))
      → Sim answer
          (FiuRoutes.run_taken (beside answer host) o)
          (FiuRoutes.run_taken (replay host) o)
  unfolding FiuRoutes.run_taken
  fiu_run-Sim none = search sim_rules
  fiu_run-Sim (some (t, ts)) = search (sim_rules, fiu_task-Sim) depth 20

  pub fiu-Sim :
      (e : FiuRoutes.Event)
      → Sim answer
          (FiuRoutes.handle_event (beside answer host) e)
          (FiuRoutes.handle_event (replay host) e)
  unfolding FiuRoutes.handle_event FiuRoutes.setup_bre_url FiuRoutes.process_request
      configure_bre_info FiuRoutes.process_consent_notification FiuRoutes.process_fi_notification
      FiuRoutes.run_at
  fiu-Sim (FiuRoutes.post_bre_info request) = search sim_rules depth 20
  fiu-Sim (FiuRoutes.post_request request) = search sim_rules depth 20
  fiu-Sim (FiuRoutes.post_consent_notification request) = search sim_rules depth 20
  fiu-Sim (FiuRoutes.post_fi_notification request) = search sim_rules depth 20
  fiu-Sim (FiuRoutes.run_task n) = search (sim_rules, fiu_run-Sim) depth 20
