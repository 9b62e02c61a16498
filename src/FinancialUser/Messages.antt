-- ===== src/FinancialUser/Messages.antt =====
-- The JSON bodies of the financial information user (financial-information-user/src/controller.py),
-- with the lookups in the order in which Python makes them.
use fiu_data_governance.Prelude.{String, List, [], ◌∷◌}
use fiu_data_governance.Python.Errors.{Result, ok, ◌>>=◌}
use fiu_data_governance.Python.Json.{Json, str, array, object}
use fiu_data_governance.Python.Subscript.{index, iterate}

-- `value[key][inner]`
abbrev pub nested : Json → String → String → Result Json
nested value key inner = index value key >>= λ v. index v inner

-- "Purpose"
abbrev pub purpose : Json → Result Json
purpose data_json = do
  code ← nested data_json "Purpose" "code"
  uri ← nested data_json "Purpose" "refUri"
  text ← nested data_json "Purpose" "text"
  ok (object (("code", code) ∷ ("refUri", uri) ∷ ("text", text) ∷ []))

-- A dict of two entries that are copied.
abbrev pub pair_of : Json → String → String → String → Result Json
pair_of data_json key first second = do
  a ← nested data_json key first
  b ← nested data_json key second
  ok (object ((first, a) ∷ (second, b) ∷ []))

-- A dict of the entry "id".
abbrev pub party : Json → String → Result Json
party data_json key = do id ← nested data_json key "id"; ok (object (("id", id) ∷ []))

unfoldable pub consent_detail : Json → Result Json
consent_detail data_json = do
  confidential ← index data_json "confidentialMode"
  start ← index data_json "consentStart"
  expiry ← index data_json "consentExpiry"
  mode ← index data_json "consentMode"
  fetch ← index data_json "fetchType"
  types ← index data_json "consentTypes"
  fi_types ← index data_json "fiTypes"
  consumer ← party data_json "DataConsumer"
  provider ← party data_json "DataProvider"
  customer ← party data_json "Customer"
  why ← purpose data_json
  range ← pair_of data_json "FIDataRange" "from" "to"
  life ← pair_of data_json "DataLife" "unit" "value"
  frequency ← pair_of data_json "Frequency" "unit" "value"
  filter ← index data_json "DataFilter"
  ok (
      object (
        ("confidentialMode", confidential)
        ∷ ("consentStart", start)
        ∷ ("consentExpiry", expiry)
        ∷ ("consentMode", mode)
        ∷ ("fetchType", fetch)
        ∷ ("consentTypes", types)
        ∷ ("fiTypes", fi_types)
        ∷ ("DataConsumer", consumer)
        ∷ ("DataProvider", provider)
        ∷ ("Customer", customer)
        ∷ ("Accounts", array [])
        ∷ ("Purpose", why)
        ∷ ("FIDataRange", range)
        ∷ ("DataLife", life)
        ∷ ("Frequency", frequency)
        ∷ ("DataFilter", filter)
        ∷ []))

unfoldable pub consent_request : String → String → Json → Result Json
consent_request timestamp txn_id data_json = do
  detail ← consent_detail data_json
  ok (
      object (
        ("ver", str "1.0")
        ∷ ("timestamp", str timestamp)
        ∷ ("txnid", str txn_id)
        ∷ ("ConsentDetail", detail)
        ∷ []))

-- "KeyMaterial" of the request for financial information
unfoldable pub copied_material : Json → Result Json
copied_material material = do
  algorithm ← index material "cryptoAlg"
  curve ← index material "curve"
  params ← index material "params"
  expiry ← nested material "DHPublicKey" "expiry"
  parameters ← nested material "DHPublicKey" "Parameters"
  key_value ← nested material "DHPublicKey" "KeyValue"
  nonce ← index material "Nonce"
  ok (
      object (
        ("cryptoAlg", algorithm)
        ∷ ("curve", curve)
        ∷ ("params", params)
        ∷ (
          "DHPublicKey",
          object (("expiry", expiry) ∷ ("Parameters", parameters) ∷ ("KeyValue", key_value) ∷ []),
        )
        ∷ ("Nonce", nonce)
        ∷ []))

unfoldable pub fi_request : String → Json → Json → Json → Result Json
fi_request timestamp artifact request material = do
  txn_id ← index artifact "txnid"
  detail ← index request "ConsentDetail"
  range ← pair_of detail "FIDataRange" "from" "to"
  consent_id ← index artifact "consentId"
  signature ← index artifact "signedConsent"
  key_material ← copied_material material
  ok (
      object (
        ("ver", str "1.0")
        ∷ ("timestamp", str timestamp)
        ∷ ("txnid", txn_id)
        ∷ ("FIDataRange", range)
        ∷ ("Consent", object (("id", consent_id) ∷ ("digitalSignature", signature) ∷ []))
        ∷ ("KeyMaterial", key_material)
        ∷ []))

-- The loops of `convert_fi_data_to_ccr_json`.
unfoldable pub convert_data : List Json → Result (List Json)
convert_data [] = ok []
convert_data (d ∷ ds) = do
  encrypted ← index d "encryptedFI"
  rest ← convert_data ds
  ok (object (("encryptedData", encrypted) ∷ ("metadata", str "...") ∷ []) ∷ rest)

unfoldable pub convert_item : Json → Result Json
convert_item item = do
  id ← index item "fipID"
  material ← index item "KeyMaterial"
  held ← index item "data"
  parts ← iterate held
  converted ← convert_data parts
  ok (object (("id", id) ∷ ("data", array converted) ∷ ("KeyMaterial", material) ∷ []))

unfoldable pub convert_items : List Json → Result (List Json)
convert_items [] = ok []
convert_items (j ∷ js) = do
  converted ← convert_item j
  rest ← convert_items js
  ok (converted ∷ rest)

unfoldable pub convert_fi_data_to_ccr_json : Json → Result Json
convert_fi_data_to_ccr_json fi_json = do
  elements ← iterate fi_json
  payload ← convert_items elements
  ok (array payload)

abbrev pub process_request : String → Json → Json → Json → Json
process_request timestamp ccr_txn_id payload artifact = object (
    ("ver", str "1.0")
    ∷ ("timestamp", str timestamp)
    ∷ ("txnid", ccr_txn_id)
    ∷ ("payload", payload)
    ∷ ("Consent", object (("signature", str "...") ∷ ("consentArtefact", artifact) ∷ []))
    ∷ [])
