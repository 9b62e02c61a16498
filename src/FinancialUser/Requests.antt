-- ===== src/FinancialUser/Requests.antt =====
-- What stands in the requests that the financial information user builds
-- (financial-information-user/src/controller.py, start_workflow and handle_consent_notification).
use fiu_data_governance.Prelude.{◌≡◌, refl, ◌∙◌, sym, ap, String, [], ◌∷◌}
use fiu_data_governance.Python.Errors.{Result, ok, ok_inj, >>=-eq-ok, ◌>>=◌}
use fiu_data_governance.Python.Json.{Json, str, object}
use fiu_data_governance.Python.Subscript.{index}
use fiu_data_governance.FinancialUser.Messages.{
  consent_request, consent_detail, fi_request, copied_material, nested, pair_of, party, purpose,
}

-- The detail of a consent request has the customer of the data.
consent_detail-inv :
    (data_json detail : Json)
    → consent_detail data_json ≡ ok detail
    → (customer : Json) × (party data_json "Customer" ≡ ok customer)
      × (index detail "Customer" ≡ ok customer)
unfolding consent_detail
consent_detail-inv data_json detail h =
    let (_, _, h0) = >>=-eq-ok (index data_json "confidentialMode") _ h in
    let (_, _, h1) = >>=-eq-ok (index data_json "consentStart") _ h0 in
    let (_, _, h2) = >>=-eq-ok (index data_json "consentExpiry") _ h1 in
    let (_, _, h3) = >>=-eq-ok (index data_json "consentMode") _ h2 in
    let (_, _, h4) = >>=-eq-ok (index data_json "fetchType") _ h3 in
    let (_, _, h5) = >>=-eq-ok (index data_json "consentTypes") _ h4 in
    let (_, _, h6) = >>=-eq-ok (index data_json "fiTypes") _ h5 in
    let (_, _, h7) = >>=-eq-ok (party data_json "DataConsumer") _ h6 in
    let (_, _, h8) = >>=-eq-ok (party data_json "DataProvider") _ h7 in
    let (customer, p, h9) = >>=-eq-ok (party data_json "Customer") _ h8 in
    let (_, _, h10) = >>=-eq-ok (purpose data_json) _ h9 in
    let (_, _, h11) = >>=-eq-ok (pair_of data_json "FIDataRange" "from" "to") _ h10 in
    let (_, _, h12) = >>=-eq-ok (pair_of data_json "DataLife" "unit" "value") _ h11 in
    let (_, _, h13) = >>=-eq-ok (pair_of data_json "Frequency" "unit" "value") _ h12 in
    let (_, _, h14) = >>=-eq-ok (index data_json "DataFilter") _ h13 in
    (customer, p, ap (λ r. index r "Customer") (sym (ok_inj h14)))

-- What stands in a consent request: the transaction id, and a detail with the customer of the data.
pub consent_request-inv :
    (timestamp txn_id : String) (data_json request : Json)
    → consent_request timestamp txn_id data_json ≡ ok request
    → (detail customer_id : Json) × (index request "txnid" ≡ ok (str txn_id))
      × (index request "ConsentDetail" ≡ ok detail)
      × (nested data_json "Customer" "id" ≡ ok customer_id)
      × (index detail "Customer" ≡ ok (object (("id", customer_id) ∷ [])))
unfolding consent_request
consent_request-inv timestamp txn_id data_json request h =
    let (detail, e1, h1) = >>=-eq-ok (consent_detail data_json) _ h in
    let (customer, e2, there) = consent_detail-inv data_json detail e1 in
    let (customer_id, e3, h3) = >>=-eq-ok (nested data_json "Customer" "id") _ e2 in
    let built = sym (ok_inj h1) in
    (
      detail,
      customer_id,
      ap (λ r. index r "txnid") built,
      ap (λ r. index r "ConsentDetail") built,
      e3,
      there ∙ sym h3,
    )

-- The entry of a public key, and its value.
abbrev key_part : Json → String → Result Json
key_part material k = index material "DHPublicKey" >>= λ v. index v k

abbrev pub nested_key : Json → Result Json
nested_key material = key_part material "KeyValue"

-- What the account aggregator takes out of the FIU's request for financial information.
pub copied_material-inv :
    (material copied : Json)
    → copied_material material ≡ ok copied
    → (index copied "Nonce" ≡ index material "Nonce") × (nested_key copied ≡ nested_key material)
unfolding copied_material
copied_material-inv material copied h =
    let (algorithm, e1, h1) = >>=-eq-ok (index material "cryptoAlg") _ h in
    let (curve, e2, h2) = >>=-eq-ok (index material "curve") _ h1 in
    let (params, e3, h3) = >>=-eq-ok (index material "params") _ h2 in
    let (expiry, e4, h4) = >>=-eq-ok (key_part material "expiry") _ h3 in
    let (parameters, e5, h5) = >>=-eq-ok (key_part material "Parameters") _ h4 in
    let (key_value, e6, h6) = >>=-eq-ok (key_part material "KeyValue") _ h5 in
    let (nonce, e7, h7) = >>=-eq-ok (index material "Nonce") _ h6 in
    let same = sym (ok_inj h7) in
    (ap (λ r. index r "Nonce") same ∙ sym e7, ap nested_key same ∙ sym e6)

-- What stands in a request for financial information: the ids of the artifact, and the key material.
pub fi_request-inv :
    (timestamp : String) (artifact request material body : Json)
    → fi_request timestamp artifact request material ≡ ok body
    → (txn_id consent consent_id copied : Json) × (index artifact "txnid" ≡ ok txn_id)
      × (index artifact "consentId" ≡ ok consent_id)
      × (index body "txnid" ≡ ok txn_id)
      × (index body "Consent" ≡ ok consent)
      × (index consent "id" ≡ ok consent_id)
      × (copied_material material ≡ ok copied)
      × (index body "KeyMaterial" ≡ ok copied)
unfolding fi_request
fi_request-inv timestamp artifact request material body h =
    let (txn_id, e1, h1) = >>=-eq-ok (index artifact "txnid") _ h in
    let (detail, e2, h2) = >>=-eq-ok (index request "ConsentDetail") _ h1 in
    let (range, e3, h3) = >>=-eq-ok (pair_of detail "FIDataRange" "from" "to") _ h2 in
    let (consent_id, e4, h4) = >>=-eq-ok (index artifact "consentId") _ h3 in
    let (signature, e5, h5) = >>=-eq-ok (index artifact "signedConsent") _ h4 in
    let (copied, e6, h6) = >>=-eq-ok (copied_material material) _ h5 in
    let built = sym (ok_inj h6) in
    (
      txn_id,
      object (("id", consent_id) ∷ ("digitalSignature", signature) ∷ []),
      consent_id,
      copied,
      e1,
      e4,
      ap (λ r. index r "txnid") built,
      ap (λ r. index r "Consent") built,
      refl,
      e6,
      ap (λ r. index r "KeyMaterial") built,
    )
