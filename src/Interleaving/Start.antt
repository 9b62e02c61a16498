-- ===== src/Interleaving/Start.antt =====
-- The start of a workflow while the account aggregator and the financial information user are side by side
-- (financial-information-user/src/controller.py, start_workflow; account-aggregator/src/main.py,
-- process_consent and get_consent_handle).
use Prim.Native.String.{◌++◌ as ◌<>◌}
use fiu_data_governance.Prelude.{ℕ, ◌≡◌, ap, ◌∙◌, String, false, Option, some, List, string_eq}
use fiu_data_governance.Prelude.Dict.{insert}
use fiu_data_governance.Host.{Host, HttpRequest, Outcome, response, Sys, ◌>>=◌}
use fiu_data_governance.Host.Effects.{state-then_pure}
use fiu_data_governance.Host.Tasks.{take_task}
use fiu_data_governance.Python.Errors.{Result, ok}
use fiu_data_governance.Python.Json.{Json, null}
use fiu_data_governance.Python.Key.{text, key_eq}
use fiu_data_governance.Python.Subscript.{index}
use fiu_data_governance.Client.{make_url}
use fiu_data_governance.Client.Failures.{post_request, get_request}
use fiu_data_governance.Aggregator.{Aggregator}
use fiu_data_governance.Aggregator.Routes as AaRoutes
use fiu_data_governance.FinancialUser.{FinancialUser, Task, workflow}
use fiu_data_governance.FinancialUser.Messages.{consent_request, nested}
use fiu_data_governance.FinancialUser.Handlers.{open_transaction, start_workflow}
use fiu_data_governance.FinancialUser.Routes.{handle_event, run_task, run_at, run_taken, start_task}
use fiu_data_governance.Workflow.Peers.{Understands}
use fiu_data_governance.Workflow.Start.{
  consent_answer, with_consent, status_answer, start_workflow-with_consent,
}
use fiu_data_governance.Interleaving.{Program, idle}
use fiu_data_governance.Interleaving.Replay.{replay}
use fiu_data_governance.Interleaving.Services.{AaEvent, FiuEvent, AaCalls, FiuCalls, aa}
use fiu_data_governance.Interleaving.Beside.{Beside, with_peers}
use fiu_data_governance.Interleaving.Runs.{fiu_alone, ReachInTurn, handle_event-Reach}
use fiu_data_governance.Interleaving.Quiet.{aa-Quiet}
use fiu_data_governance.Interleaving.Peers.{calling, peer, IsApart-peer, Serves-routed}

module _ {W : Type 0} (host : Host W) where
  -- The run of a workflow leaves what the workflow leaves.
  run_task-workflow :
      (n : ℕ) (data_json : Json) (rest : List Task) (s : Sys FinancialUser W)
      → take_task n s.self.tasks ≡ some (workflow data_json, rest)
      → (handle_event host (run_task n) s).1
        ≡ (start_workflow host data_json (record s { self = record s.self { tasks = rest } })).1
  unfolding handle_event run_at run_taken start_task ◌>>=◌
  run_task-workflow n data_json rest s taken =
      let begun = record s { self = record s.self { tasks = rest } } in
      rw taken (state-then_pure (start_workflow host data_json) null begun)

module _ {W V X : Type 0} (host : Host W) (other : Host V) (to_aa : HttpRequest → Option AaEvent)
    (to_fiu : HttpRequest → Option FiuEvent) (aa_respond fiu_respond : Result Json → Outcome)
    (elsewhere : HttpRequest → X → Outcome × X)
    (local_aa : (r : HttpRequest) (e : AaEvent) → to_aa r ≡ some e → ¬ AaCalls e)
    (local_fiu : (r : HttpRequest) (e : FiuEvent) → to_fiu r ≡ some e → ¬ FiuCalls e)
    (responds : (j : Json) → aa_respond (ok j) ≡ response 200 (host.dumps j))
    (accepted : other.is_error 200 ≡ false) where
  abbrev aggregator : Program Aggregator W AaEvent
  aggregator = aa host other to_aa to_fiu aa_respond fiu_respond

  abbrev pub fiu : Host (Beside V (Sys Aggregator W × X))
  fiu = calling other aggregator host elsewhere

  module _ (s₀ a : Sys Aggregator W) (t₀ t : Sys FinancialUser V) (x : X) (n : ℕ) (data_json : Json)
      (rest : List Task) (u : Sys FinancialUser (Beside V (Sys Aggregator W × X)))
      (request detail customer_id : Json) (txn_id consent_url handle_url : String) where
    -- The account aggregator once the transaction is opened.
    abbrev before : Sys Aggregator W
    before = u.world.around.0

    abbrev handle : String
    handle = (host.uuid4 before.world).0

    -- A workflow that waits to run at the financial information user, while both services are idle, gets
    -- through with the handlers in turn: steps lead to a state with both idle again in which the
    -- financial information user has kept the consent request under the transaction id and changed
    -- nothing else since the transaction was opened, and the account aggregator has the consent and the
    -- task that is to sign it. The clean room gives a transaction; the consent request can be built;
    -- FastAPI answers a returned value with status 200 and its JSON, and routes the two requests to
    -- main.py's process_consent and get_consent_handle, and no request of the one service to a handler of
    -- the other that sends requests; and the two answers can be read back from their JSON.
    pub start_workflow-ReachInTurn :
        take_task n t.self.tasks ≡ some (workflow data_json, rest)
        → open_transaction fiu (with_peers (record t.self { tasks = rest }) t.world (a, x))
          ≡ (ok txn_id, u)
        → consent_request (other.now u.world.own).0 txn_id data_json ≡ ok request
        → index request "ConsentDetail" ≡ ok detail
        → nested data_json "Customer" "id" ≡ ok customer_id
        → make_url u.self.url_aa "Consent" ≡ ok consent_url
        → make_url u.self.url_aa ("Consent/handle" <> "/" <> handle) ≡ ok handle_url
        → to_aa (post_request false consent_url request) ≡ some (AaRoutes.post_consent request)
        → to_aa (get_request false handle_url null) ≡ some (AaRoutes.get_consent_handle handle)
        → Understands other host (consent_answer host txn_id customer_id before)
        → Understands other host (status_answer host txn_id before)
        → ReachInTurn host other to_aa to_fiu aa_respond fiu_respond s₀ t₀ (idle a) (idle t)
        → (p : Sys Aggregator W) × (q : Sys FinancialUser V) × ReachInTurn host other to_aa to_fiu
            aa_respond fiu_respond s₀ t₀
            (idle p)
            (idle q)
          × (q.self ≡ record u.self {
            consent_requests = insert (text txn_id) request u.self.consent_requests;
          })
          × (p.self ≡ (with_consent host txn_id detail request before).self)
    unfolding AaRoutes.handle_event
    start_workflow-ReachInTurn taken opened built of_request of_data consent_at handle_at to_consent
          to_handle understands understands' reached =
        let serves = Serves-routed other aggregator host elsewhere responds in
        let begun = with_peers (record t.self { tasks = rest }) t.world (a, x) in
        let (_, kept, consented) =
          start_workflow-with_consent fiu (replay host) (peer other aggregator host elsewhere)
            data_json request detail customer_id txn_id consent_url handle_url begun u opened built
            of_request of_data (IsApart-peer other aggregator host elsewhere) accepted consent_at
            handle_at
            (serves _ (AaRoutes.post_consent request) to_consent
              (aa-Quiet host (AaRoutes.post_consent request) (λ c. c)))
            (serves _ (AaRoutes.get_consent_handle handle) to_handle
              (aa-Quiet host (AaRoutes.get_consent_handle handle) (λ c. c)))
            understands understands' in
        let ran = run_task-workflow fiu n data_json rest (with_peers t.self t.world (a, x)) taken in
        let (_, of_fiu) =
          handle_event-Reach host other to_aa to_fiu aa_respond fiu_respond elsewhere local_aa
            local_fiu s₀ a t₀ t reached x in
        let (p, q) =
          fiu_alone host other to_aa to_fiu aa_respond fiu_respond elsewhere (run_task n) a t x in
        (
          p,
          q,
          of_fiu (run_task n),
          ap (λ r. r.self) ran ∙ kept,
          ap (λ r. r.world.around.0.self) ran ∙ consented,
        )
