-- ===== src/Aggregator/Consent.antt =====
-- The consent handlers of the account aggregator (account-aggregator/src/controller.py).
use fiu_data_governance.Prelude.{some, String, nat_eqb, string_eq, if◌then◌else◌}
use fiu_data_governance.Prelude.Dict.{lookup, insert, contains}
use fiu_data_governance.Host.{
  Host, Action, pure, raise, lift, reads, gets, modify, ask, ◌>>=◌, ◌>>◌,
}
use fiu_data_governance.Python.Errors.{Exn}
use fiu_data_governance.Python.Json.{Json}
use fiu_data_governance.Python.Subscript.{index, text_of, or_raise}
use fiu_data_governance.Aggregator.Client.{post_json_request}
use fiu_data_governance.Aggregator.{Aggregator}
use fiu_data_governance.Aggregator.Messages.{
  consent_response, status_response, consent_artifact, consent_notification,
}

module _ {W : Type 0} (host : Host W) where
  unfoldable pub setup_certificate : Json → Action Aggregator W (Unit {0})
  setup_certificate request = do
    value ← lift (index request "url")
    url ← lift (text_of value)
    modify (λ s. record s { url_cr = some url })
    body ← lift (host.loads (host.dumps host.public_jwk))
    (status, answer) ← post_json_request host url "certificate/AA" body
    if nat_eqb status 200 then pure tt else raise (Exn.bad_status status)

  -- The two writes of `handle_consent`. The second lookup comes after the first write.
  unfoldable pub store_consent : String → Json → Action Aggregator W (Json × Json)
  store_consent consent_handle request = do
    txn_id ← lift (index request "txnid")
    consent_id ← ask host.uuid4
    modify (λ s. record s {
      consent_handles = insert consent_handle (txn_id, consent_id) s.consent_handles;
    })
    detail ← lift (index request "ConsentDetail")
    modify (λ s. record s { consent_claims = insert consent_handle detail s.consent_claims })
    pure (txn_id, detail)

  unfoldable pub handle_consent : String → Json → Action Aggregator W Json
  handle_consent consent_handle request = do
    (txn_id, detail) ← store_consent consent_handle request
    timestamp ← ask host.now
    customer ← lift (index detail "Customer")
    customer_id ← lift (index customer "id")
    pure (consent_response timestamp txn_id customer_id consent_handle)

  -- `consent_handles[consent_handle]` behind its assertion
  abbrev pub known_handle : String → Action Aggregator W (Json × String)
  known_handle consent_handle =
      reads (λ s. or_raise (lookup consent_handle s.consent_handles) Exn.assertion_error)

  unfoldable pub handle_consent_handle : String → Action Aggregator W Json
  handle_consent_handle consent_handle = do
    (txn_id, consent_id) ← known_handle consent_handle
    ready ← gets (λ s. contains consent_id s.consent_artifacts)
    timestamp ← ask host.now
    pure (
        status_response timestamp txn_id consent_handle consent_id
          (if ready then "READY" else "PENDING"))

  unfoldable pub get_consent_signature : String → Action Aggregator W String
  get_consent_signature consent_handle = do
    claims ←
        reads
          (λ s. or_raise (lookup consent_handle s.consent_claims) (Exn.key_error consent_handle))
    lift (host.sign claims)

  -- The artifact that `create_consent_artifact` builds.
  unfoldable pub sign_artifact : String → Json → String → Action Aggregator W Json
  sign_artifact consent_handle txn_id consent_id = do
    created ← ask host.now
    signature ← get_consent_signature consent_handle
    used ← ask host.now
    pure (consent_artifact txn_id consent_id created signature used)

  -- The notification request to the FIU, at its end.
  unfoldable pub notify_fiu : String → Json → String → Action Aggregator W (Unit {0})
  notify_fiu consent_handle txn_id consent_id = do
    timestamp ← ask host.now
    id ← gets (λ s. s.id)
    url_fiu ← gets (λ s. s.url_fiu)
    (status, answer) ←
        post_json_request host url_fiu "Consent/Notification"
          (consent_notification timestamp txn_id id consent_id consent_handle)
    pure tt

  -- What runs after the delay of three seconds.
  unfoldable pub create_consent_artifact : String → Json → Action Aggregator W (Unit {0})
  create_consent_artifact consent_handle request = do
    (txn_id, consent_id) ← known_handle consent_handle
    artifact ← sign_artifact consent_handle txn_id consent_id
    modify (λ s. record s { consent_artifacts = insert consent_id artifact s.consent_artifacts })
    notify_fiu consent_handle txn_id consent_id

  unfoldable pub get_consent_artifact : String → Action Aggregator W Json
  get_consent_artifact consent_id =
      reads (λ s. or_raise (lookup consent_id s.consent_artifacts) Exn.assertion_error)
