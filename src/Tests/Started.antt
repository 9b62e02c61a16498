-- ===== src/Tests/Started.antt =====
-- A workflow of the financial information user beside an idle account aggregator, and the signing of a
-- consent beside an idle financial information user.
use fiu_data_governance.Prelude.{◌≡◌, refl, [], ◌∷◌, string_eq}
use fiu_data_governance.Prelude.Dict.{lookup, insert}
use fiu_data_governance.Host.{Sys, Host, HttpRequest, Outcome, response, ◌>>=◌}
use fiu_data_governance.Python.Errors.{Result, ok, err}
use fiu_data_governance.Python.Json.{Json, null, str, object}
use fiu_data_governance.Python.Key.{text, key_eq}
use fiu_data_governance.Client.{make_url, accept, get_json_request}
use fiu_data_governance.Aggregator as Aa
use fiu_data_governance.Aggregator.{Aggregator, create_artifact}
use fiu_data_governance.Aggregator.Messages.{consent_artifact, consent_notification}
use fiu_data_governance.FinancialUser as Fiu
use fiu_data_governance.Workflow.Grant.{with_task}
use fiu_data_governance.Interleaving.Consented.{IsGranted, workflow-IsGranted}
use fiu_data_governance.Interleaving.Grant.{create_consent_artifact-ReachInTurn}
use fiu_data_governance.FinancialUser.{FinancialUser, initial, workflow}
use fiu_data_governance.FinancialUser.Handlers.{open_transaction, get_ccr_public_key}
use fiu_data_governance.Workflow.Start.{with_consent}
use fiu_data_governance.Interleaving.{idle}
use fiu_data_governance.Interleaving.Services.{start}
use fiu_data_governance.Interleaving.Beside.{Beside, with_peers}
use fiu_data_governance.Interleaving.Services as Services
use fiu_data_governance.Interleaving.Peers.{calling}
use fiu_data_governance.Interleaving.Runs.{ReachInTurn}
use fiu_data_governance.Interleaving.Start.{start_workflow-ReachInTurn}
use fiu_data_governance.Tests.Consents.{data_json, built_request, detail_of, consent_request_run}
use fiu_data_governance.Tests.Documents.{now, room_material}
use fiu_data_governance.Tests.Hosts.{Script, scripted}
use fiu_data_governance.Tests.Starts.{aa, documents, name_of, aggregator}
use fiu_data_governance.Tests.Interleaved.{to_aa, to_fiu, to_aa-local, to_fiu-local}

abbrev respond : Result Json → Outcome
respond (ok j) = response 200 (name_of j)
respond (err e) = response 500 "Internal Server Error"

abbrev pub answered : Result Json → Outcome
answered (ok j) = response 200 "a document"
answered (err e) = response 500 "Internal Server Error"

-- The clean room.
abbrev pub elsewhere : HttpRequest → Unit {0} → Outcome × Unit {0}
elsewhere request x = (response 200 "room", x)

abbrev fiu : Host (Beside Script (Sys Aggregator Script × Unit {0}))
fiu =
    calling (scripted documents) (Services.aa aa (scripted documents) to_aa to_fiu respond respond)
      aa elsewhere

abbrev user : Sys FinancialUser Script
user = record {
  self = record (initial "http://ccr" "http://aa") { tasks = workflow data_json ∷ [] };
  world = record { outcomes = []; names = "txn-1" ∷ [] };
}

abbrev opened : Sys FinancialUser (Beside Script (Sys Aggregator Script × Unit {0}))
opened = record {
  self = record (initial "http://ccr" "http://aa") {
    ccr_public_key_material = room_material;
    txn_ids = (text "txn-1", str "room-1") ∷ [];
  };
  world = record { own = record { outcomes = []; names = [] }; around = (aggregator, tt) };
}

open_run :
    open_transaction fiu (with_peers (record user.self { tasks = [] }) user.world (aggregator, tt))
    ≡ (ok "txn-1", opened)
unfolding open_transaction get_ccr_public_key get_json_request accept make_url ◌>>=◌ lookup insert
open_run = refl

start_workflow-ReachInTurn_example :
    (p : Sys Aggregator Script) × (q : Sys FinancialUser Script) × ReachInTurn aa
      (scripted documents)
      to_aa
      to_fiu
      respond
      respond
      aggregator
      user
      (idle p)
      (idle q)
    × (q.self ≡ record opened.self {
      consent_requests = insert (text "txn-1") built_request opened.self.consent_requests;
    })
    × (p.self ≡ (with_consent aa "txn-1" detail_of built_request aggregator).self)
unfolding make_url lookup
start_workflow-ReachInTurn_example =
    start_workflow-ReachInTurn aa (scripted documents) to_aa to_fiu respond respond elsewhere
      to_aa-local to_fiu-local (λ j. refl) refl aggregator aggregator user user tt 0 data_json []
      opened built_request detail_of (str "customer@aa") "txn-1" "http://aa/Consent"
      "http://aa/Consent/handle/handle-1" refl open_run consent_request_run refl refl refl refl refl
      refl refl refl start

-- An account aggregator with a consent to sign.
abbrev claim : Json
claim = object (("consentMode", str "VIEW") ∷ [])

abbrev granting : Sys Aggregator Script
granting = record {
  self = record (Aa.initial "aa" "http://fiu" "http://crypto") {
    consent_handles = ("handle-1", (str "txn-1", "consent-1")) ∷ [];
    consent_claims = ("handle-1", claim) ∷ [];
    tasks = create_artifact "handle-1" null ∷ [];
  };
  world = record { outcomes = []; names = [] };
}

abbrev message : Json
message = consent_notification now (str "txn-1") "aa" "consent-1" "handle-1"

create_consent_artifact-ReachInTurn_example :
    (p : Sys Aggregator Script) × (q : Sys FinancialUser Script) × ReachInTurn aa
      (scripted documents)
      to_aa
      to_fiu
      answered
      answered
      granting
      user
      (idle p)
      (idle q)
    × (p.self ≡ record granting.self {
      tasks = [];
      consent_artifacts =
          insert "consent-1" (consent_artifact (str "txn-1") "consent-1" now "a signature" now) [];
    })
    × (q ≡ with_task (scripted documents) (Fiu.consent_notification message) user)
unfolding make_url lookup
create_consent_artifact-ReachInTurn_example =
    create_consent_artifact-ReachInTurn aa (scripted documents) to_aa to_fiu answered answered
      elsewhere to_aa-local to_fiu-local (λ j. refl) refl granting granting user user tt 0 []
      "handle-1" "http://fiu/Consent/Notification" "a signature" "consent-1" null (str "txn-1")
      claim refl refl refl refl refl refl start

workflow-IsGranted_example :
    (p : Sys Aggregator Script) × (q q' : Sys FinancialUser Script) × ReachInTurn aa
      (scripted documents)
      to_aa
      to_fiu
      respond
      answered
      aggregator
      user
      (idle p)
      (idle q')
    × (q.self ≡ record opened.self {
      consent_requests = insert (text "txn-1") built_request opened.self.consent_requests;
    })
    × IsGranted aa aggregator "txn-1" "a signature" q.self p.self q'.self
unfolding make_url lookup open_run
workflow-IsGranted_example =
    workflow-IsGranted aa (scripted documents) to_aa to_fiu respond answered elsewhere to_aa-local
      to_fiu-local (λ j. refl) (λ j. refl) refl refl aggregator aggregator user user tt 0 data_json
      [] opened built_request detail_of (str "customer@aa") "txn-1" "http://aa/Consent"
      "http://aa/Consent/handle/handle-1" "http://fiu/Consent/Notification" "a signature" refl
      open_run consent_request_run refl refl refl refl refl refl refl refl refl refl (λ t. refl)
      start
