-- ===== src/Registry.antt =====
-- The certificate registry (CR), samples/aa-flow-based-lending/src/certificate-registry/src:
-- controller.py and the routes of main.py. Its one global is the certificate (`null` for None).
pub mod Main
pub mod Laws
pub mod Logger
use fiu_data_governance.Prelude.{String, List, [], ◌∷◌}
use fiu_data_governance.Host.{Host, Action, pure, gets, modify, ask, ◌>>=◌, ◌>>◌}
use fiu_data_governance.Python.Json.{Json, null, str, array, object}

pub record Registry : Type 0 where
  pub certificate : Json

abbrev pub initial : Registry
initial = record { certificate = null }

abbrev dots : Json
dots = str "..."

abbrev entity_info : Json → Json
entity_info certificate = object (
    ("name", dots)
    ∷ ("id", str "fip123456789id")
    ∷ ("code", dots)
    ∷ ("entityhandle", dots)
    ∷ ("Identifiers", array (object (("category", dots) ∷ ("type", dots) ∷ []) ∷ []))
    ∷ ("baseurl", dots)
    ∷ ("webviewurl", dots)
    ∷ ("fitypes", array (dots ∷ []))
    ∷ ("certificate", certificate)
    ∷ ("tokeninfo", object (("url", str "null") ∷ ("desc", str "string") ∷ []))
    ∷ ("signature", object (("signValue", dots) ∷ []))
    ∷ ("inboundports", array (dots ∷ []))
    ∷ ("outboundports", array [])
    ∷ ("ips", array (dots ∷ []))
    ∷ [])

abbrev pub entity_response : String → String → Json → Json
entity_response timestamp txn_id certificate = array (
    object (
      ("ver", str "1.0")
      ∷ ("timestamp", str timestamp)
      ∷ ("txnid", str txn_id)
      ∷ ("requester", object (("name", dots) ∷ ("id", dots) ∷ []))
      ∷ ("entityinfo", entity_info certificate)
      ∷ [])
    ∷ [])

module _ {W : Type 0} (host : Host W) where
  -- POST /certificate/AA
  unfoldable pub store_certificate : Json → Action Registry W Json
  store_certificate certificate = do
    modify (λ s. record s { certificate = certificate })
    timestamp ← ask host.now
    pure (object (("timestamp", str timestamp) ∷ []))

  -- GET /entityInfo/AA
  unfoldable pub handle_aa_entity_info_request : Action Registry W Json
  handle_aa_entity_info_request = do
    timestamp ← ask host.now
    txn_id ← ask host.uuid4
    certificate ← gets (λ s. s.certificate)
    pure (entity_response timestamp txn_id certificate)
