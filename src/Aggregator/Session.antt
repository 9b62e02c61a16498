-- ===== src/Aggregator/Session.antt =====
-- The handlers of financial information of the account aggregator
-- (account-aggregator/src/controller.py).
use fiu_data_governance.Prelude.{String, Bool, true, false, string_eq, if◌then◌else◌}
use fiu_data_governance.Prelude.Dict.{lookup, insert}
use fiu_data_governance.Host.{Host, Action, pure, lift, reads, gets, modify, ask, ◌>>=◌, ◌>>◌}
use fiu_data_governance.Python.Errors.{Exn, Result, ok, err}
use fiu_data_governance.Python.Json.{Json, null}
use fiu_data_governance.Python.Subscript.{index, or_raise}
use fiu_data_governance.Aggregator.Client.{post_json_request, get_json_request}
use fiu_data_governance.Aggregator.{Aggregator}
use fiu_data_governance.Aggregator.Messages.{crypto_request, fi_result, fi_notification}

-- `value is None`
abbrev pub is_none : Json → Bool
is_none null = true
is_none _ = false

-- The guard on missing FI data.
abbrev pub require_fi_data : Json → Result (Unit {0})
require_fi_data null = err (Exn.exception "Missing FI data.")
require_fi_data _ = ok tt

module _ {W : Type 0} (host : Host W) where
  generate_keys : Action Aggregator W Json
  generate_keys = do
    url_crypto ← gets (λ s. s.url_crypto)
    (status, answer) ← get_json_request host url_crypto "/ecc/v1/generateKey" null
    keys ← lift (host.loads answer)
    modify (λ s. record s { crypto_keys = keys })
    pure keys

  -- The crypto keys, which the sidecar creates when they are first wanted.
  unfoldable pub ensure_crypto_keys : Action Aggregator W Json
  unfolding generate_keys
  ensure_crypto_keys = do
    crypto_keys ← gets (λ s. s.crypto_keys)
    if is_none crypto_keys then generate_keys else pure crypto_keys

  -- The notification request to the FIU, at the end of `handle_fi_request`.
  unfoldable pub notify_fi : String → Json → Action Aggregator W (Unit {0})
  notify_fi session_id request = do
    notified ← ask host.now
    txn_id ← lift (index request "txnid")
    id ← gets (λ s. s.id)
    url_fiu ← gets (λ s. s.url_fiu)
    (status, answer) ←
        post_json_request host url_fiu "FI/Notification"
          (fi_notification notified txn_id id session_id)
    pure tt

  -- The encrypted data, as the response to a later fetch.
  unfoldable pub encrypt_fi : Json → Json → Action Aggregator W Json
  encrypt_fi fi_data_json request = do
    crypto_keys ← ensure_crypto_keys
    body ← lift (crypto_request (host.b64encode (host.dumps fi_data_json)) crypto_keys request)
    url_crypto ← gets (λ s. s.url_crypto)
    (status, answer) ← post_json_request host url_crypto "/ecc/v1/encrypt" body
    encryption ← lift (host.loads answer)
    timestamp ← ask host.now
    lift (fi_result timestamp crypto_keys request encryption)

  unfoldable pub handle_fi_request : String → Json → Action Aggregator W (Unit {0})
  handle_fi_request session_id request = do
    fi_data_json ← gets (λ s. s.fi_data_json)
    lift (require_fi_data fi_data_json)
    result ← encrypt_fi fi_data_json request
    modify (λ s. record s { sessions = insert session_id result s.sessions })
    notify_fi session_id request

  unfoldable pub handle_fi_fetch : String → Action Aggregator W Json
  handle_fi_fetch session_id =
      reads (λ s. or_raise (lookup session_id s.sessions) Exn.assertion_error)
