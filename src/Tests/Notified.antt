-- ===== src/Tests/Notified.antt =====
-- The notification of a consent, with the financial information user beside the account aggregator.
use fiu_data_governance.Prelude.{◌≡◌, refl, String, [], ◌∷◌, string_eq}
use fiu_data_governance.Prelude.Dict.{lookup, insert}
use fiu_data_governance.Host.{Sys, Host}
use fiu_data_governance.Python.Errors.{ok}
use fiu_data_governance.Python.Json.{Json, str, object}
use fiu_data_governance.Python.Key.{text, key_eq}
use fiu_data_governance.Client.{make_url}
use fiu_data_governance.Aggregator.{Aggregator}
use fiu_data_governance.Aggregator as Aa
use fiu_data_governance.Aggregator.Messages.{consent_notification}
use fiu_data_governance.FinancialUser.{FinancialUser, initial}
use fiu_data_governance.FinancialUser.Messages.{fi_request, copied_material}
use fiu_data_governance.Interleaving.{idle}
use fiu_data_governance.Interleaving.Services as Services
use fiu_data_governance.Interleaving.Runs.{ReachInTurn}
use fiu_data_governance.Interleaving.Notify.{handle_consent_notification-ReachInTurn}
use fiu_data_governance.Tests.Interleaved.{to_aa, to_fiu, to_aa-local, to_fiu-local}
use fiu_data_governance.Tests.Started.{answered, elsewhere}
use fiu_data_governance.FinancialUser as Fiu
use fiu_data_governance.Workflow.Notify.{with_request}
use fiu_data_governance.Tests.Documents.{now, artifact, consent, room_material}
use fiu_data_governance.Tests.Hosts.{Script, scripted}

abbrev aa : Host Script
aa = record (scripted []) { dumps = λ j. "a document" }

abbrev aggregator : Sys Aggregator Script
aggregator = record {
  self = record (Aa.initial "aa" "http://fiu" "http://crypto") {
    consent_artifacts = ("consent-1", artifact) ∷ [];
  };
  world = record { outcomes = []; names = "session-1" ∷ [] };
}

abbrev start : FinancialUser
start = record (initial "http://ccr" "http://aa") {
  ccr_public_key_material = room_material;
  consent_requests = (text "txn-1", consent) ∷ [];
}

abbrev body : String → Json
body timestamp = object (
    ("ver", str "1.0")
    ∷ ("timestamp", str timestamp)
    ∷ ("txnid", str "txn-1")
    ∷ ("FIDataRange", object (("from", str now) ∷ ("to", str now) ∷ []))
    ∷ ("Consent", object (("id", str "consent-1") ∷ ("digitalSignature", str "signed") ∷ []))
    ∷ ("KeyMaterial", room_material)
    ∷ [])

built :
    (timestamp : String) → fi_request timestamp artifact consent room_material ≡ ok (body timestamp)
unfolding fi_request copied_material
built timestamp = refl

abbrev other : Host Script
other = scripted (("a document", artifact) ∷ [])

abbrev user : Sys FinancialUser Script
user = record {
  self = record start {
    tasks =
        Fiu.consent_notification
          (consent_notification now (str "txn-1") "aa" "consent-1" "handle-1")
        ∷ [];
  };
  world = record { outcomes = []; names = [] };
}

handle_consent_notification-ReachInTurn_example :
    (timestamp : String) × (p : Sys Aggregator Script) × (q : Sys FinancialUser Script)
    × ReachInTurn aa other to_aa to_fiu answered answered aggregator user (idle p) (idle q)
    × (q.self ≡ record start {
      tasks = [];
      consent_artifacts = insert (text "txn-1") artifact start.consent_artifacts;
    })
    × (p ≡ with_request aa (body timestamp) aggregator)
unfolding make_url lookup
handle_consent_notification-ReachInTurn_example =
    handle_consent_notification-ReachInTurn aa other to_aa to_fiu answered answered elsewhere
      to_aa-local to_fiu-local (λ j. refl) refl aggregator aggregator user user tt 0 [] now "aa"
      "handle-1" "txn-1" "consent-1" "http://aa/Consent/consent-1" "http://aa/FI/request"
      (str "txn-1") artifact consent body refl refl refl refl built refl refl refl (λ t. refl) refl
      Services.start
