-- ===== src/Workflow/Payload.antt =====
-- The way of the encrypted information from the account aggregator through the financial
-- information user to the business rule engine (account-aggregator/src/controller.py,
-- handle_fi_request; financial-information-user/src/controller.py, handle_fi_notification;
-- business-rule-engine/src/controller.py, handle_scoring_request).
use fiu_data_governance.Prelude.{◌≡◌, refl, sym, ap, ◌∙◌, String, [], ◌∷◌, string_eq}
use fiu_data_governance.Python.Errors.{ok, ok_inj, >>=-eq-ok}
use fiu_data_governance.Python.Json.{Json, str, array, object}
use fiu_data_governance.Python.Subscript.{index}
use fiu_data_governance.Aggregator.Messages.{fi_result}
use fiu_data_governance.FinancialUser.Messages.{
  convert_fi_data_to_ccr_json, convert_items, convert_item, convert_data, process_request,
}
use fiu_data_governance.Scoring.{encrypted_data}

abbrev pub single_package : Json → Json → Json → Json
single_package id encrypted material = array (
    object (
      ("id", id)
      ∷ ("data", array (object (("encryptedData", encrypted) ∷ ("metadata", str "...") ∷ []) ∷ []))
      ∷ ("KeyMaterial", material)
      ∷ [])
    ∷ [])

-- What stands in the result of a session: the transaction id of the request, and the package of one
-- provider with one document.
pub fi_result-inv :
    (timestamp : String) (crypto_keys request encryption result : Json)
    → fi_result timestamp crypto_keys request encryption ≡ ok result
    → (fi encrypted id material : Json) × (index result "FI" ≡ ok fi)
      × (index encryption "base64Data" ≡ ok encrypted)
      × (convert_fi_data_to_ccr_json fi ≡ ok (single_package id encrypted material))
      × (index result "txnid" ≡ index request "txnid")
unfolding fi_result convert_fi_data_to_ccr_json convert_items convert_item convert_data
fi_result-inv timestamp crypto_keys request encryption result h =
    let (txn_id, e1, h1) = >>=-eq-ok (index request "txnid") _ h in
    let (encrypted, e2, h2) = >>=-eq-ok (index encryption "base64Data") _ h1 in
    let (material, e3, h3) = >>=-eq-ok (index crypto_keys "KeyMaterial") _ h2 in
    let (algorithm, e4, h4) = >>=-eq-ok (index material "cryptoAlg") _ h3 in
    let (curve, e5, h5) = >>=-eq-ok (index material "curve") _ h4 in
    let (params, e6, h6) = >>=-eq-ok (index material "params") _ h5 in
    let (public_key, e7, h7) = >>=-eq-ok (index material "DHPublicKey") _ h6 in
    let (expiry, e8, h8) = >>=-eq-ok (index public_key "expiry") _ h7 in
    let (parameters, e9, h9) = >>=-eq-ok (index public_key "Parameters") _ h8 in
    let (key_value, e10, h10) = >>=-eq-ok (index public_key "KeyValue") _ h9 in
    let built = sym (ok_inj h10) in
    (
      _,
      encrypted,
      _,
      _,
      ap (λ r. index r "FI") built,
      e2,
      refl,
      ap (λ r. index r "txnid") built ∙ sym e1,
    )

-- The result of a session is converted without an error, and the business rule engine finds, in the
-- request that the FIU makes of it for any clean room transaction and any artifact, what the
-- encryption of the session returned.
pub encrypted_data-process_request :
    (aa_time fiu_time : String) (crypto_keys request encryption result : Json)
    → fi_result aa_time crypto_keys request encryption ≡ ok result
    → (ccr_txn_id artifact : Json)
    → (fi payload : Json) × (index result "FI" ≡ ok fi)
      × (convert_fi_data_to_ccr_json fi ≡ ok payload)
      × (encrypted_data (process_request fiu_time ccr_txn_id payload artifact)
          ≡ index encryption "base64Data")
unfolding encrypted_data
encrypted_data-process_request aa_time fiu_time crypto_keys request encryption result built
      ccr_txn_id artifact =
    let (fi, encrypted, id, material, e1, e2, e3, e4) =
      fi_result-inv aa_time crypto_keys request encryption result built in
    (fi, single_package id encrypted material, e1, e3, sym e2)
