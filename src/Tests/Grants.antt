-- ===== src/Tests/Grants.antt =====
-- The signing of a consent, with the financial information user in the world of the account aggregator.
use fiu_data_governance.Prelude.{◌≡◌, refl, ap, String, true, [], ◌∷◌, string_eq}
use fiu_data_governance.Prelude.Dict.{lookup, insert}
use fiu_data_governance.Host.{Sys, Host}
use fiu_data_governance.Python.Errors.{ok}
use fiu_data_governance.Python.Json.{Json, null, str, object}
use fiu_data_governance.Client.{make_url}
use fiu_data_governance.Client.Failures.{post_request}
use fiu_data_governance.Aggregator.{Aggregator, initial}
use fiu_data_governance.Aggregator.Consent.{create_consent_artifact}
use fiu_data_governance.Aggregator.Messages.{consent_artifact, consent_notification}
use fiu_data_governance.FinancialUser as Fiu
use fiu_data_governance.FinancialUser.{FinancialUser}
use fiu_data_governance.FinancialUser.Routes.{process_consent_notification}
use fiu_data_governance.Workflow.Peers.{Serves}
use fiu_data_governance.Workflow.Grant.{with_task, create_consent_artifact-with_task}
use fiu_data_governance.Tests.Hosts.{Script, scripted, plain, serve}

abbrev now : String
now = "2022-01-01T00:00:00"

abbrev fiu : Host Script
fiu = scripted []

-- The world of the account aggregator is the financial information user.
abbrev World : Type 0
World = Sys FinancialUser Script

abbrev aa : Host World
aa = record plain {
  send = λ r w. serve (process_consent_notification fiu r.body w);
  loads = λ text. ok null;
}

abbrev claim : Json
claim = object (("consentMode", str "VIEW") ∷ [])

abbrev user : World
user = record {
  self = Fiu.initial "http://ccr" "http://aa";
  world = record { outcomes = []; names = [] };
}

abbrev start : Sys Aggregator World
start = record {
  self = record (initial "aa" "http://fiu" "http://crypto") {
    consent_handles = ("handle-1", (str "txn-1", "consent-1")) ∷ [];
    consent_claims = ("handle-1", claim) ∷ [];
  };
  world = user;
}

abbrev message : Json
message = consent_notification now (str "txn-1") "aa" "consent-1" "handle-1"

Serves-process_consent_notification :
    Serves aa fiu
      (λ w. w)
      (post_request true "http://fiu/Consent/Notification" message)
      (process_consent_notification fiu message)
Serves-process_consent_notification answer w t h = (t, ap serve h, refl)

create_consent_artifact-with_task_example :
    let (r, t) = create_consent_artifact aa "handle-1" null start in
    (r ≡ ok tt)
    × (t.self ≡ record start.self {
      consent_artifacts =
          insert "consent-1" (consent_artifact (str "txn-1") "consent-1" now "a signature" now) [];
    })
    × (t.world ≡ with_task fiu (Fiu.consent_notification message) user)
unfolding make_url lookup
create_consent_artifact-with_task_example =
    create_consent_artifact-with_task aa fiu (λ w. w) (λ w. refl) refl "handle-1"
      "http://fiu/Consent/Notification" "a signature" "consent-1" (str "txn-1") claim start null
      refl refl refl refl Serves-process_consent_notification
