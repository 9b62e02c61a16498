-- ===== src/Tests/Contracts.antt =====
-- The book of the account aggregator's consents, from the start of the service to a signed artifact.
use fiu_data_governance.Prelude.{
  ◌≡◌, ◌⊎◌, String, refl, true, false, Bool, if◌then◌else◌, List, [], ◌∷◌, none, some, string_eq,
}
use fiu_data_governance.Prelude.Dict.{lookup, insert}
use fiu_data_governance.Prelude.Int.{pos}
use fiu_data_governance.Host.{Sys, Host, response, ◌>>=◌}
use fiu_data_governance.Python.Errors.{Exn, ok, err}
use fiu_data_governance.Python.Json.{Json, str, object}
use fiu_data_governance.Startup.{Arguments, Service}
use fiu_data_governance.Aggregator.{Aggregator, initial}
use fiu_data_governance.Aggregator.Main.{main}
use fiu_data_governance.Aggregator.Start.{IsStarted, main-outcome}
use fiu_data_governance.Python.Text.{parse_int}
use fiu_data_governance.Aggregator.Messages.{status_response, consent_response}
use fiu_data_governance.Aggregator.Consent.{handle_consent_handle, handle_consent, store_consent}
use fiu_data_governance.Aggregator.Routes.{
  Event, post_consent, run_task, handle_event, process_consent,
}
use fiu_data_governance.Aggregator.Invariant.Reach.{IsFresh}
use fiu_data_governance.Aggregator.Contract.{Consented, book}
use fiu_data_governance.Aggregator.Contract.Ledger.{ledger, replay, empty}
use fiu_data_governance.Aggregator.Contract.Answers.{IsPending, process_consent-IsPending}
use fiu_data_governance.Aggregator.Contract.Refines.{
  Run, IsNew, begin, step, Run-refines, main-IsSound,
}
use fiu_data_governance.Aggregator.Contract.Forever.{handle_consent_handle-persists}
use fiu_data_governance.Tests.Hosts.{Script, scripted}

abbrev host : Host Script
host = scripted []

abbrev args : Arguments
args = record { given = ("--id", "aa") ∷ []; verbose = false; debug = false }

abbrev service : Service Aggregator
service = record {
  globals = initial "aa" "http://financial-information-user:8001/" "http://crypto-sidecar:8283/";
  verbose = false;
  debug = false;
  host = "127.0.0.1";
  port = pos 8000;
}

started : main host args (record { outcomes = []; names = [] }) ≡ ok service
unfolding main lookup
started = refl

-- The peers answer one notification; two identifiers are left.
abbrev script : Script
script = record { outcomes = response 200 "null" ∷ []; names = "handle-1" ∷ "consent-1" ∷ [] }

abbrev detail : Json
detail = object (("Customer", object (("id", str "customer@aa") ∷ [])) ∷ [])

abbrev request : Json
request = object (("txnid", str "txn-1") ∷ ("ConsentDetail", detail) ∷ [])

abbrev start : Sys Aggregator Script
start = record { self = service.globals; world = script }

abbrev requested : Sys Aggregator Script
requested = (handle_event host (post_consent request) start).1

abbrev created : Sys Aggregator Script
created = (handle_event host (run_task 0) requested).1

fresh : IsFresh host (post_consent request) start
unfolding lookup
fresh = refl

unused : IsNew host (post_consent request) start
unfolding lookup
unused h t e = absurd (cc e)

abbrev before : Run host start requested
before = step begin (post_consent request) fresh unused

-- The names have run out when the task runs, which draws none.
abbrev entries : List (Event × String × String)
entries = (run_task 0, "", "") ∷ (post_consent request, "handle-1", "consent-1") ∷ []

Run-refines_example : ledger created.self ≡ replay host.sign entries empty
unfolding handle_event process_consent handle_consent store_consent ◌>>=◌
Run-refines_example =
    Run-refines host args (record { outcomes = []; names = [] }) script service started
      (step before (run_task 0) tt tt)

abbrev pending : Consented
pending = record { txn_id = str "txn-1"; consent_id = "consent-1"; claims = detail; ready = false }

-- The specification says that the consent is ready, and that no task is left.
granted_run :
    ((replay host.sign entries empty).consents "handle-1" ≡ some (record pending { ready = true }))
    × ((replay host.sign entries empty).tasks ≡ [])
granted_run = (refl, refl)

pending_run : book requested.self "handle-1" ≡ some pending
unfolding handle_event process_consent handle_consent store_consent ◌>>=◌ lookup insert
pending_run = refl

handle_consent_handle-persists_example :
    ((handle_consent_handle host "handle-1" requested).0
      ≡ ok (status_response "2022-01-01T00:00:00" (str "txn-1") "handle-1" "consent-1" "PENDING"))
    × (later : Bool) × (false ≡ true → later ≡ true)
    × ((handle_consent_handle host "handle-1" created).0
        ≡ ok (
            status_response "2022-01-01T00:00:00"
              (str "txn-1")
              "handle-1"
              "consent-1"
              (if later then "READY" else "PENDING")))
handle_consent_handle-persists_example =
    handle_consent_handle-persists host args (record { outcomes = []; names = [] }) script service
      started before (step begin (run_task 0) tt tt) "handle-1" pending pending_run

abbrev bad_port : Arguments
bad_port = record { given = ("--port", "http") ∷ []; verbose = false; debug = false }

main-outcome_example :
    IsStarted host bad_port script
    ⊎ ((text : String) × (lookup "--port" bad_port.given ≡ some text)
        × (parse_int text ≡ none)
        × (main host bad_port script ≡ err (Exn.system_exit 2)))
main-outcome_example = main-outcome host bad_port script

answered_run :
    (process_consent host request start).0
    ≡ ok (consent_response "2022-01-01T00:00:00" (str "txn-1") (str "customer@aa") "handle-1")
unfolding process_consent handle_consent store_consent ◌>>=◌
answered_run = refl

process_consent-IsPending_example :
    IsPending host request start
      (consent_response "2022-01-01T00:00:00" (str "txn-1") (str "customer@aa") "handle-1")
unfolding lookup
process_consent-IsPending_example =
    process_consent-IsPending host request start
      (consent_response "2022-01-01T00:00:00" (str "txn-1") (str "customer@aa") "handle-1")
      (main-IsSound host args (record { outcomes = []; names = [] }) service started).0.0
      (λ h t e. absurd (cc e)) answered_run
