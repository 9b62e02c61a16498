-- ===== src/Interleaving/Grant.antt =====
-- The task that signs a consent while the account aggregator and the financial information user are side
-- by side (account-aggregator/src/controller.py, create_consent_artifact;
-- financial-information-user/src/main.py, process_consent_notification).
use fiu_data_governance.Prelude.{
  ℕ, ◌≡◌, ap, ◌∙◌, String, true, false, Option, some, List, string_eq,
}
use fiu_data_governance.Prelude.Dict.{lookup, insert}
use fiu_data_governance.Host.{Host, HttpRequest, Outcome, response, Sys, ◌>>=◌}
use fiu_data_governance.Host.Effects.{state-then_pure}
use fiu_data_governance.Host.Tasks.{take_task}
use fiu_data_governance.Python.Errors.{Result, ok}
use fiu_data_governance.Python.Json.{Json, null}
use fiu_data_governance.Client.{make_url}
use fiu_data_governance.Client.Failures.{post_request}
use fiu_data_governance.Aggregator.{Aggregator, Task, create_artifact}
use fiu_data_governance.Aggregator.Consent.{create_consent_artifact}
use fiu_data_governance.Aggregator.Messages.{consent_artifact, consent_notification}
use fiu_data_governance.Aggregator.Routes.{handle_event, run_task, run_at, run_taken, start_task}
use fiu_data_governance.FinancialUser as Fiu
use fiu_data_governance.FinancialUser.{FinancialUser}
use fiu_data_governance.FinancialUser.Routes as FiuRoutes
use fiu_data_governance.Workflow.Grant.{with_task, create_consent_artifact-with_task}
use fiu_data_governance.Interleaving.{Program, idle}
use fiu_data_governance.Interleaving.Replay.{replay}
use fiu_data_governance.Interleaving.Services.{AaEvent, FiuEvent, AaCalls, FiuCalls, fiu}
use fiu_data_governance.Interleaving.Quiet.{fiu-Quiet}
use fiu_data_governance.Interleaving.Beside.{with_peers}
use fiu_data_governance.Interleaving.Runs.{aa_alone, ReachInTurn, handle_event-Reach}
use fiu_data_governance.Interleaving.Peers.{calling, peer, IsApart-peer, Serves-routed}

-- The run of a task that creates an artifact leaves what the creation leaves.
run_task-create_artifact :
    {W : Type 0} (host : Host W) (n : ℕ) (h : String) (request : Json) (rest : List Task)
    (s : Sys Aggregator W)
    → take_task n s.self.tasks ≡ some (create_artifact h request, rest)
    → (handle_event host (run_task n) s).1
      ≡ (create_consent_artifact host h request
          (record s { self = record s.self { tasks = rest } })).1
unfolding handle_event run_at run_taken start_task ◌>>=◌
run_task-create_artifact host n h request rest s taken = rw taken (
    state-then_pure (create_consent_artifact host h request) null
      (record s { self = record s.self { tasks = rest } }))

module _ {W V X : Type 0} (host : Host W) (other : Host V) (to_aa : HttpRequest → Option AaEvent)
    (to_fiu : HttpRequest → Option FiuEvent) (aa_respond fiu_respond : Result Json → Outcome)
    (elsewhere : HttpRequest → X → Outcome × X)
    (local_aa : (r : HttpRequest) (e : AaEvent) → to_aa r ≡ some e → ¬ AaCalls e)
    (local_fiu : (r : HttpRequest) (e : FiuEvent) → to_fiu r ≡ some e → ¬ FiuCalls e)
    (responds : (j : Json) → fiu_respond (ok j) ≡ response 200 (other.dumps j))
    (accepted : host.is_error 200 ≡ false) where
  abbrev user : Program FinancialUser V FiuEvent
  user = fiu host other to_aa to_fiu aa_respond fiu_respond

  module _ (s₀ a : Sys Aggregator W) (t₀ t : Sys FinancialUser V) (x : X) (n : ℕ) (rest : List Task)
      (h url signature consent_id : String) (request txn_id claim : Json) where
    -- The three times that the task takes.
    abbrev created : String × W
    created = host.now a.world

    abbrev used : String × W
    used = host.now created.1

    abbrev message : Json
    message = consent_notification (host.now used.1).0 txn_id a.self.id consent_id h

    -- A task that waits to create an artifact at the account aggregator, while both services are idle,
    -- gets through with the handlers in turn: for a consent that is known and can be signed, steps lead
    -- to a state with both idle again in which the account aggregator has the signed artifact and the
    -- task no more, and is otherwise as it was, and the financial information user has the task for the
    -- notification. FastAPI routes the notification to process_consent_notification and answers a
    -- returned value with status 200 and its JSON, and no request of the one service goes to a handler
    -- of the other that sends requests.
    pub create_consent_artifact-ReachInTurn :
        take_task n a.self.tasks ≡ some (create_artifact h request, rest)
        → lookup h a.self.consent_handles ≡ some (txn_id, consent_id)
        → lookup h a.self.consent_claims ≡ some claim
        → host.sign claim ≡ ok signature
        → make_url a.self.url_fiu "Consent/Notification" ≡ ok url
        → to_fiu (post_request true url message)
          ≡ some (FiuRoutes.post_consent_notification message)
        → ReachInTurn host other to_aa to_fiu aa_respond fiu_respond s₀ t₀ (idle a) (idle t)
        → (p : Sys Aggregator W) × (q : Sys FinancialUser V) × ReachInTurn host other to_aa to_fiu
            aa_respond fiu_respond s₀ t₀
            (idle p)
            (idle q)
          × (p.self ≡ record a.self {
            tasks = rest;
            consent_artifacts =
                insert consent_id
                  (consent_artifact txn_id consent_id created.0 signature used.0)
                  a.self.consent_artifacts;
          })
          × (q ≡ with_task other (Fiu.consent_notification message) t)
    unfolding FiuRoutes.handle_event
    create_consent_artifact-ReachInTurn taken known claimed signed built to_notification reached =
        let aa = calling host user other elsewhere in
        let begun = with_peers (record a.self { tasks = rest }) a.world (t, x) in
        let e = FiuRoutes.post_consent_notification message in
        let (_, stored, notified) =
          create_consent_artifact-with_task aa (replay other) (peer host user other elsewhere)
            (IsApart-peer host user other elsewhere) accepted h url signature consent_id txn_id
            claim begun request known claimed signed built
            (Serves-routed host user other elsewhere responds _ e to_notification
              (fiu-Quiet other e (λ c. c))) in
        let ran =
          run_task-create_artifact aa n h request rest (with_peers a.self a.world (t, x)) taken in
        let (of_aa, _) =
          handle_event-Reach host other to_aa to_fiu aa_respond fiu_respond elsewhere local_aa
            local_fiu s₀ a t₀ t reached x in
        let (p, q) =
          aa_alone host other to_aa to_fiu aa_respond fiu_respond elsewhere (run_task n) a t x in
        (
          p,
          q,
          of_aa (run_task n),
          ap (λ r. r.self) ran ∙ stored,
          ap (λ r. r.world.around.0) ran
              ∙ ap {B = Sys FinancialUser V} (λ r. record { self = r.self; world = r.world.inner })
                  notified,
        )
