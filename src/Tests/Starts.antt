-- ===== src/Tests/Starts.antt =====
-- The documents of a workflow that starts, and the account aggregator before it.
use fiu_data_governance.Prelude.{String, [], ◌∷◌, string_eq}
use fiu_data_governance.Prelude.Dict.{Dict}
use fiu_data_governance.Host.{Sys, Host}
use fiu_data_governance.Python.Errors.{ok, err}
use fiu_data_governance.Python.Json.{Json, str, object}
use fiu_data_governance.Python.Key.{key_eq}
use fiu_data_governance.Python.Subscript.{index}
use fiu_data_governance.Aggregator.{Aggregator}
use fiu_data_governance.Aggregator as Aa
use fiu_data_governance.Aggregator.Messages.{consent_response, status_response}
use fiu_data_governance.Tests.Documents.{now, room_material}
use fiu_data_governance.Tests.Hosts.{Script, scripted}

abbrev pub name_of : Json → String
name_of j = elim (index j "ConsentStatus") [ ok r ↦ "status" | err e ↦ "consent" ]

abbrev pub aa : Host Script
aa = record (scripted []) { dumps = name_of }

abbrev pub room : Json
room = object (("txnid", str "room-1") ∷ ("KeyMaterial", room_material) ∷ [])

abbrev pub documents : Dict String Json
documents =
    ("room", room)
    ∷ ("consent", consent_response now (str "txn-1") (str "customer@aa") "handle-1")
    ∷ ("status", status_response now (str "txn-1") "handle-1" "consent-1" "PENDING")
    ∷ []

abbrev pub aggregator : Sys Aggregator Script
aggregator = record {
  self = Aa.initial "aa" "http://fiu" "http://crypto";
  world = record { outcomes = []; names = "handle-1" ∷ "consent-1" ∷ [] };
}
