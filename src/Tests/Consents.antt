-- ===== src/Tests/Consents.antt =====
-- A consent at the account aggregator, from the request of the FIU to the signed artifact, and a
-- certificate at the registry.
use fiu_data_governance.Prelude.{◌≡◌, refl, true, String, List, [], ◌∷◌, some, string_eq}
use fiu_data_governance.Prelude.Dict.{lookup, insert}
use fiu_data_governance.Host.{Sys, Host, response, ◌>>=◌}
use fiu_data_governance.Python.Errors.{ok}
use fiu_data_governance.Python.Json.{Json, str, array, object, bool}
use fiu_data_governance.Registry.{entity_response, handle_aa_entity_info_request, Registry}
use fiu_data_governance.Registry as Cr
use fiu_data_governance.Registry.Laws.{store_all, entity_info-store_all}
use fiu_data_governance.Aggregator.{Aggregator, initial}
use fiu_data_governance.Aggregator.Messages.{consent_artifact}
use fiu_data_governance.Aggregator.Consent.{
  store_consent, handle_consent, get_consent_artifact, create_consent_artifact, sign_artifact,
  get_consent_signature, notify_fiu,
}
use fiu_data_governance.Aggregator.Routes.{
  post_consent, run_task, handle_event, process_consent, run_at, start_task,
}
use fiu_data_governance.Aggregator.Invariant.Tables.{IsSigned}
use fiu_data_governance.Aggregator.Invariant.Handlers.{HasConsistentTables}
use fiu_data_governance.Aggregator.Invariant.Reach.{
  Reach, here, next, Reach-HasConsistentTables, get_consent_artifact-IsSigned,
}
use fiu_data_governance.Client.{make_url, accept, post_json_request}
use fiu_data_governance.FinancialUser.Messages.{consent_request, consent_detail}
use fiu_data_governance.Tests.Hosts.{Script, scripted}

abbrev host : Host Script
host = scripted []

abbrev now : String
now = "2022-01-01T00:00:00"

-- The peers answer one notification; three identifiers are left.
abbrev script : Script
script = record {
  outcomes = response 200 "null" ∷ [];
  names = "handle-1" ∷ "consent-1" ∷ "session-1" ∷ [];
}

abbrev start : Sys Aggregator Script
start = record { self = initial "aa" "http://fiu" "http://crypto"; world = script }

abbrev customer : Json
customer = object (("id", str "customer@aa") ∷ [])

abbrev detail : Json
detail = object (("Customer", customer) ∷ [])

abbrev request : Json
request = object (("txnid", str "txn-1") ∷ ("ConsentDetail", detail) ∷ [])

abbrev requested : Sys Aggregator Script
requested = (handle_event host (post_consent request) start).1

abbrev created : Sys Aggregator Script
created = (handle_event host (run_task 0) requested).1

reached : Reach host start created
unfolding lookup
reached = next (next here (post_consent request) refl) (run_task 0) tt

Reach-HasConsistentTables_example : HasConsistentTables host created.self
Reach-HasConsistentTables_example =
    Reach-HasConsistentTables host "aa" "http://fiu" "http://crypto" script reached

abbrev artifact : Json
artifact = consent_artifact (str "txn-1") "consent-1" now "a signature" now

artifact_run : (get_consent_artifact host "consent-1" created).0 ≡ ok artifact
unfolding handle_event process_consent handle_consent store_consent run_at start_task
    create_consent_artifact sign_artifact get_consent_signature notify_fiu post_json_request
    get_consent_artifact accept make_url ◌>>=◌ lookup insert
artifact_run = refl

get_consent_artifact-IsSigned_example :
    IsSigned host.sign created.self.consent_handles created.self.consent_claims "consent-1" artifact
get_consent_artifact-IsSigned_example =
    get_consent_artifact-IsSigned host "aa" "http://fiu" "http://crypto" script reached "consent-1"
      artifact artifact_run

-- The aggregator with one consent whose artifact has not been created.
abbrev pending : Sys Aggregator Script
pending = record {
  self = record (initial "aa" "http://fiu" "http://crypto") {
    consent_handles = ("handle-1", (str "txn-1", "consent-1")) ∷ [];
    consent_claims = ("handle-1", detail) ∷ [];
  };
  world = script;
}

known : lookup "handle-1" pending.self.consent_handles ≡ some (str "txn-1", "consent-1")
unfolding lookup
known = refl

claimed : lookup "handle-1" pending.self.consent_claims ≡ some detail
unfolding lookup
claimed = refl

abbrev unit_value : Json
unit_value = object (("unit", str "MONTH") ∷ ("value", str "1") ∷ [])

-- The consent data of a user.
abbrev pub data_json : Json
data_json = object (
    ("confidentialMode", bool true)
    ∷ ("consentStart", str now)
    ∷ ("consentExpiry", str now)
    ∷ ("consentMode", str "VIEW")
    ∷ ("fetchType", str "ONETIME")
    ∷ ("consentTypes", array (str "TRANSACTIONS" ∷ []))
    ∷ ("fiTypes", array (str "DEPOSIT" ∷ []))
    ∷ ("DataConsumer", object (("id", str "fiu") ∷ []))
    ∷ ("DataProvider", object (("id", str "fip") ∷ []))
    ∷ ("Customer", customer)
    ∷ ("Purpose", object (("code", str "101") ∷ ("refUri", str "") ∷ ("text", str "") ∷ []))
    ∷ ("FIDataRange", object (("from", str now) ∷ ("to", str now) ∷ []))
    ∷ ("DataLife", unit_value)
    ∷ ("Frequency", unit_value)
    ∷ ("DataFilter", array [])
    ∷ [])

abbrev pub detail_of : Json
detail_of = object (
    ("confidentialMode", bool true)
    ∷ ("consentStart", str now)
    ∷ ("consentExpiry", str now)
    ∷ ("consentMode", str "VIEW")
    ∷ ("fetchType", str "ONETIME")
    ∷ ("consentTypes", array (str "TRANSACTIONS" ∷ []))
    ∷ ("fiTypes", array (str "DEPOSIT" ∷ []))
    ∷ ("DataConsumer", object (("id", str "fiu") ∷ []))
    ∷ ("DataProvider", object (("id", str "fip") ∷ []))
    ∷ ("Customer", customer)
    ∷ ("Accounts", array [])
    ∷ ("Purpose", object (("code", str "101") ∷ ("refUri", str "") ∷ ("text", str "") ∷ []))
    ∷ ("FIDataRange", object (("from", str now) ∷ ("to", str now) ∷ []))
    ∷ ("DataLife", unit_value)
    ∷ ("Frequency", unit_value)
    ∷ ("DataFilter", array [])
    ∷ [])

abbrev pub built_request : Json
built_request = object (
    ("ver", str "1.0")
    ∷ ("timestamp", str now)
    ∷ ("txnid", str "txn-1")
    ∷ ("ConsentDetail", detail_of)
    ∷ [])

pub consent_request_run : consent_request now "txn-1" data_json ≡ ok built_request
unfolding consent_request consent_detail
consent_request_run = refl

abbrev registry : Sys Registry Script
registry = record { self = Cr.initial; world = script }

abbrev certificates : List Json
certificates = str "first" ∷ str "second" ∷ []

entity_info-store_all_example :
    (timestamp txn_id : String) × ((handle_aa_entity_info_request host
        (store_all host certificates registry)).0
      ≡ ok (entity_response timestamp txn_id (str "second")))
    × ((handle_aa_entity_info_request host
          (store_all host certificates registry)).1.self.certificate
        ≡ str "second")
entity_info-store_all_example = entity_info-store_all host certificates registry
