-- ===== src/FinancialUser/Handlers.antt =====
-- The handlers of the financial information user (financial-information-user/src/controller.py).
use Prim.Native.String.{◌++◌ as ◌<>◌}
use fiu_data_governance.Prelude.{String, nat_eqb, string_eq, ◌==◌, if◌then◌else◌}
use fiu_data_governance.Prelude.Dict.{lookup, insert}
use fiu_data_governance.Host.{
  Host, Action, pure, raise, lift, reads, gets, modify, ask, ◌>>=◌, ◌>>◌,
}
use fiu_data_governance.Python.Errors.{Exn, Result, ok, err}
use fiu_data_governance.Python.Json.{Json, null}
use fiu_data_governance.Python.Key.{text, key_of, key_eq}
use fiu_data_governance.Python.Subscript.{index, text_of, or_raise}
use fiu_data_governance.FinancialUser.Client.{post_json_request, get_json_request}
use fiu_data_governance.FinancialUser.{FinancialUser}
use fiu_data_governance.FinancialUser.Messages.{
  consent_request, fi_request, convert_fi_data_to_ccr_json, process_request,
}

-- `verify_txn_id` and `verify_nonce`, which nothing calls
abbrev verify_txn_id : String → String → Result (Unit {0})
verify_txn_id txn_id expected =
    if txn_id == expected then ok tt else err (Exn.mismatch txn_id expected)

abbrev verify_nonce : String → String → Result (Unit {0})
verify_nonce nonce expected = if nonce == expected then ok tt else err (Exn.mismatch nonce expected)

module _ {W : Type 0} (host : Host W) where
  unfoldable pub configure_bre_info : Json → Action FinancialUser W (Unit {0})
  configure_bre_info request = do
    value ← lift (index request "url")
    url ← lift (text_of value)
    modify (λ s. record s { url_bre = url })

  unfoldable pub get_ccr_public_key : Action FinancialUser W Json
  get_ccr_public_key = do
    url_bre ← gets (λ s. s.url_bre)
    (status, answer) ← get_json_request host url_bre "api/ccr/key" null
    lift (host.loads answer)

  -- A new transaction id, under which the id that the clean room gave is kept; the key material
  -- replaces what was there.
  unfoldable pub open_transaction : Action FinancialUser W String
  open_transaction = do
    key ← get_ccr_public_key
    ccr_txn_id ← lift (index key "txnid")
    material ← lift (index key "KeyMaterial")
    modify (λ s. record s { ccr_public_key_material = material })
    txn_id ← ask host.uuid4
    modify (λ s. record s { txn_ids = insert (text txn_id) ccr_txn_id s.txn_ids })
    pure txn_id

  unfoldable pub start_workflow : Json → Action FinancialUser W (Unit {0})
  start_workflow data_json = do
    txn_id ← open_transaction
    timestamp ← ask host.now
    request ← lift (consent_request timestamp txn_id data_json)
    url_aa ← gets (λ s. s.url_aa)
    (status, answer) ← post_json_request host url_aa "Consent" request
    consent ← lift (host.loads answer)
    value ← lift (index consent "ConsentHandle")
    consent_handle ← lift (text_of value)
    (status', answer') ←
        get_json_request host url_aa ("Consent/handle" <> "/" <> consent_handle) null
    consent_status ← lift (host.loads answer')
    modify (λ s. record s { consent_requests = insert (text txn_id) request s.consent_requests })

  unfoldable pub handle_consent_notification : Json → Action FinancialUser W (Unit {0})
  handle_consent_notification request = do
    notification ← lift (index request "ConsentStatusNotification")
    value ← lift (index notification "consentId")
    consent_id ← lift (text_of value)
    url_aa ← gets (λ s. s.url_aa)
    (status, answer) ← get_json_request host url_aa ("Consent" <> "/" <> consent_id) null
    artifact ← lift (host.loads answer)
    txn_id ← lift (index artifact "txnid")
    key ← lift (key_of txn_id)
    modify (λ s. record s { consent_artifacts = insert key artifact s.consent_artifacts })
    consent ← reads (λ s. or_raise (lookup key s.consent_requests) Exn.assertion_error)
    timestamp ← ask host.now
    material ← gets (λ s. s.ccr_public_key_material)
    body ← lift (fi_request timestamp artifact consent material)
    (status', answer') ← post_json_request host url_aa "FI/request" body
    pure tt

  -- The request to the clean room for a fetched response.
  unfoldable pub assemble : Json → Action FinancialUser W Json
  assemble fetched = do
    txn_id ← lift (index fetched "txnid")
    key ← lift (key_of txn_id)
    ccr_txn_id ← reads (λ s. or_raise (lookup key s.txn_ids) Exn.assertion_error)
    artifact ← reads (λ s. or_raise (lookup key s.consent_artifacts) Exn.assertion_error)
    timestamp ← ask host.now
    fi ← lift (index fetched "FI")
    payload ← lift (convert_fi_data_to_ccr_json fi)
    pure (process_request timestamp ccr_txn_id payload artifact)

  -- From the notification to the body of the request to the clean room.
  unfoldable pub prepare_process_request : Json → Action FinancialUser W Json
  prepare_process_request request = do
    notification ← lift (index request "FIStatusNotification")
    value ← lift (index notification "sessionId")
    session_id ← lift (text_of value)
    url_aa ← gets (λ s. s.url_aa)
    (status, answer) ← get_json_request host url_aa ("FI/fetch" <> "/" <> session_id) null
    fetched ← lift (host.loads answer)
    assemble fetched

  unfoldable pub handle_fi_notification : Json → Action FinancialUser W (Unit {0})
  handle_fi_notification request = do
    body ← prepare_process_request request
    url_bre ← gets (λ s. s.url_bre)
    (status, answer) ← post_json_request host url_bre "api/ccr/process" body
    result ← lift (host.loads answer)
    if nat_eqb status 200
        then (do score ← lift (index result "score"); pure tt)
        else raise (Exn.exception "Request failed.")
