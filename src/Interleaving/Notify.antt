-- ===== src/Interleaving/Notify.antt =====
-- The notification of a consent while the account aggregator and the financial information user are side
-- by side (financial-information-user/src/controller.py, handle_consent_notification;
-- account-aggregator/src/main.py, get_consent_artifact and process_fi_request).
use Prim.Native.String.{◌++◌ as ◌<>◌}
use fiu_data_governance.Prelude.{ℕ, ◌≡◌, ap, ◌∙◌, String, false, Option, some, List, string_eq}
use fiu_data_governance.Prelude.Dict.{lookup, insert}
use fiu_data_governance.Host.{Host, HttpRequest, Outcome, response, Sys, ◌>>=◌}
use fiu_data_governance.Host.Effects.{state-then_pure}
use fiu_data_governance.Host.Tasks.{take_task}
use fiu_data_governance.Python.Errors.{Result, ok}
use fiu_data_governance.Python.Json.{Json, null, str}
use fiu_data_governance.Python.Key.{text, key_eq}
use fiu_data_governance.Python.Subscript.{index}
use fiu_data_governance.Client.{make_url}
use fiu_data_governance.Client.Failures.{post_request, get_request}
use fiu_data_governance.Aggregator.{Aggregator}
use fiu_data_governance.Aggregator.Messages as Messages
use fiu_data_governance.Aggregator.Routes as AaRoutes
use fiu_data_governance.FinancialUser.{FinancialUser, Task, consent_notification}
use fiu_data_governance.FinancialUser.Messages.{fi_request}
use fiu_data_governance.FinancialUser.Handlers.{handle_consent_notification}
use fiu_data_governance.FinancialUser.Routes.{handle_event, run_task, run_at, run_taken, start_task}
use fiu_data_governance.Workflow.Peers.{Understands}
use fiu_data_governance.Workflow.Notify.{with_request, handle_consent_notification-with_request}
use fiu_data_governance.Interleaving.{Program, idle}
use fiu_data_governance.Interleaving.Replay.{replay}
use fiu_data_governance.Interleaving.Services.{AaEvent, FiuEvent, AaCalls, FiuCalls, aa}
use fiu_data_governance.Interleaving.Quiet.{aa-Quiet}
use fiu_data_governance.Interleaving.Beside.{with_peers}
use fiu_data_governance.Interleaving.Runs.{fiu_alone, ReachInTurn, handle_event-Reach}
use fiu_data_governance.Interleaving.Peers.{calling, peer, IsApart-peer, Serves-routed}

-- The run of the task for a notification leaves what its handler leaves.
run_task-consent_notification :
    {W : Type 0} (host : Host W) (n : ℕ) (request : Json) (rest : List Task)
    (s : Sys FinancialUser W)
    → take_task n s.self.tasks ≡ some (consent_notification request, rest)
    → (handle_event host (run_task n) s).1
      ≡ (handle_consent_notification host request
          (record s { self = record s.self { tasks = rest } })).1
unfolding handle_event run_at run_taken start_task ◌>>=◌
run_task-consent_notification host n request rest s taken = rw taken (
    state-then_pure (handle_consent_notification host request) null
      (record s { self = record s.self { tasks = rest } }))

module _ {W V X : Type 0} (host : Host W) (other : Host V) (to_aa : HttpRequest → Option AaEvent)
    (to_fiu : HttpRequest → Option FiuEvent) (aa_respond fiu_respond : Result Json → Outcome)
    (elsewhere : HttpRequest → X → Outcome × X)
    (local_aa : (r : HttpRequest) (e : AaEvent) → to_aa r ≡ some e → ¬ AaCalls e)
    (local_fiu : (r : HttpRequest) (e : FiuEvent) → to_fiu r ≡ some e → ¬ FiuCalls e)
    (responds : (j : Json) → aa_respond (ok j) ≡ response 200 (host.dumps j))
    (accepted : other.is_error 200 ≡ false) where
  abbrev aggregator : Program Aggregator W AaEvent
  aggregator = aa host other to_aa to_fiu aa_respond fiu_respond

  module _ (s₀ a : Sys Aggregator W) (t₀ t : Sys FinancialUser V) (x : X) (n : ℕ) (rest : List Task)
      (notified id handle txn_id consent_id artifact_url request_url : String)
      (txn artifact request : Json) (body : String → Json) where
    -- The notification of a consent that waits at the financial information user, while both services are
    -- idle, gets through with the handlers in turn: steps lead to a state with both idle again in which
    -- the financial information user has kept the artifact under its transaction id and has the task no
    -- more, and is otherwise as it was, and the account aggregator has the task for the request that
    -- was built, and is otherwise as it was. The account aggregator has the artifact, whose transaction
    -- has a consent request at the financial information user; the request can be built; FastAPI
    -- routes the two requests to main.py's get_consent_artifact and process_fi_request and answers a
    -- returned value with status 200 and its JSON, and no request of the one service goes to a handler of
    -- the other that sends requests; and the artifact can be read back from its JSON.
    pub handle_consent_notification-ReachInTurn :
        take_task n t.self.tasks
          ≡ some (
            consent_notification (Messages.consent_notification notified txn id consent_id handle),
            rest,
          )
        → lookup consent_id a.self.consent_artifacts ≡ some artifact
        → index artifact "txnid" ≡ ok (str txn_id)
        → lookup (text txn_id) t.self.consent_requests ≡ some request
        → ((timestamp : String)
            → fi_request timestamp artifact request t.self.ccr_public_key_material
              ≡ ok (body timestamp))
        → make_url t.self.url_aa ("Consent" <> "/" <> consent_id) ≡ ok artifact_url
        → make_url t.self.url_aa "FI/request" ≡ ok request_url
        → to_aa (get_request false artifact_url null) ≡ some (AaRoutes.get_consent consent_id)
        → ((timestamp : String)
            → to_aa (post_request false request_url (body timestamp))
              ≡ some (AaRoutes.post_fi_request (body timestamp)))
        → Understands other host artifact
        → ReachInTurn host other to_aa to_fiu aa_respond fiu_respond s₀ t₀ (idle a) (idle t)
        → (timestamp : String) × (p : Sys Aggregator W) × (q : Sys FinancialUser V) × ReachInTurn
            host other to_aa to_fiu aa_respond fiu_respond s₀ t₀
            (idle p)
            (idle q)
          × (q.self ≡ record t.self {
            tasks = rest;
            consent_artifacts = insert (text txn_id) artifact t.self.consent_artifacts;
          })
          × (p ≡ with_request host (body timestamp) a)
    unfolding AaRoutes.handle_event
    handle_consent_notification-ReachInTurn taken signed of_txn kept built artifact_at request_at
          to_artifact to_request understands reached =
        let fiu = calling other aggregator host elsewhere in
        let serves = Serves-routed other aggregator host elsewhere responds in
        let begun = with_peers (record t.self { tasks = rest }) t.world (a, x) in
        let message = Messages.consent_notification notified txn id consent_id handle in
        let get = AaRoutes.get_consent consent_id in
        let (timestamp, _, stored, requested) =
          handle_consent_notification-with_request fiu (replay host)
            (peer other aggregator host elsewhere) artifact request body txn_id consent_id
            artifact_url request_url begun (IsApart-peer other aggregator host elsewhere) accepted
            signed of_txn kept built artifact_at request_at
            (serves _ get to_artifact (aa-Quiet host get (λ c. c)))
            (λ timestamp.
              serves _ (AaRoutes.post_fi_request (body timestamp)) (to_request timestamp)
                (aa-Quiet host (AaRoutes.post_fi_request (body timestamp)) (λ c. c)))
            understands notified id handle txn in
        let ran =
          run_task-consent_notification fiu n message rest (with_peers t.self t.world (a, x))
            taken in
        let (_, of_fiu) =
          handle_event-Reach host other to_aa to_fiu aa_respond fiu_respond elsewhere local_aa
            local_fiu s₀ a t₀ t reached x in
        let (p, q) =
          fiu_alone host other to_aa to_fiu aa_respond fiu_respond elsewhere (run_task n) a t x in
        (
          timestamp,
          p,
          q,
          of_fiu (run_task n),
          ap (λ r. r.self) ran ∙ stored,
          ap (λ r. r.world.around.0) ran
              ∙ ap {B = Sys Aggregator W} (λ r. record { self = r.self; world = r.world.inner })
                  requested,
        )
