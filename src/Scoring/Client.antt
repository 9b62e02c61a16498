-- ===== src/Scoring/Client.antt =====
-- The business rule engine's copy of the client, samples/aa-flow-based-lending/src/business-rule-engine/src/client.py, which
-- verifies the certificates of its peers.
use fiu_data_governance.Prelude.{ℕ, String, true}
use fiu_data_governance.Host.{Host, Action}
use fiu_data_governance.Python.Json.{Json}
use fiu_data_governance.Client as Shared

module _ {W : Type 0} (host : Host W) {S : Type 0} where
  abbrev pub post_json_request : String → String → Json → Action S W (ℕ × String)
  post_json_request = Shared.post_json_request host true

  abbrev pub get_json_request : String → String → Json → Action S W (ℕ × String)
  get_json_request = Shared.get_json_request host true
