-- ===== src/Aggregator/Messages.antt =====
-- The JSON bodies of the account aggregator (account-aggregator/src/controller.py), with the lookups
-- in the order in which Python makes them.
use fiu_data_governance.Prelude.{String, [], ◌∷◌}
use fiu_data_governance.Prelude.Int.{pos}
use fiu_data_governance.Python.Errors.{Result, ok, ◌>>=◌}
use fiu_data_governance.Python.Json.{Json, str, num, array, object}
use fiu_data_governance.Python.Subscript.{index}

abbrev pub nonce : String
nonce = "KC7Cbk0BvEttWWOgUmT619TfNhzxKtUr1OhO4FKLlxI="

abbrev pub consent_response : String → Json → Json → String → Json
consent_response timestamp txn_id customer_id consent_handle = object (
    ("ver", str "1.0")
    ∷ ("timestamp", str timestamp)
    ∷ ("txnid", txn_id)
    ∷ ("Customer", object (("id", customer_id) ∷ []))
    ∷ ("ConsentHandle", str consent_handle)
    ∷ [])

abbrev pub status_response : String → Json → String → String → String → Json
status_response timestamp txn_id consent_handle consent_id status = object (
    ("ver", str "1.0")
    ∷ ("timestamp", str timestamp)
    ∷ ("txnid", txn_id)
    ∷ ("ConsentHandle", str consent_handle)
    ∷ ("ConsentStatus", object (("id", str consent_id) ∷ ("status", str status) ∷ []))
    ∷ [])

abbrev pub consent_artifact : Json → String → String → String → String → Json
consent_artifact txn_id consent_id created signature used = object (
    ("ver", str "1.0")
    ∷ ("txnid", txn_id)
    ∷ ("consentId", str consent_id)
    ∷ ("status", str "ACTIVE")
    ∷ ("createTimestamp", str created)
    ∷ ("signedConsent", str signature)
    ∷ (
      "ConsentUse",
      object (("logUri", str "") ∷ ("count", num (pos 1)) ∷ ("lastUseDateTime", str used) ∷ []),
    )
    ∷ [])

abbrev notifier : String → Json
notifier id = object (("type", str "AA") ∷ ("id", str id) ∷ [])

abbrev pub consent_notification : String → Json → String → String → String → Json
consent_notification timestamp txn_id id consent_id consent_handle = object (
    ("ver", str "1.0")
    ∷ ("timestamp", str timestamp)
    ∷ ("txnid", txn_id)
    ∷ ("Notifier", notifier id)
    ∷ (
      "ConsentStatusNotification",
      object (
          ("consentId", str consent_id)
          ∷ ("consentHandle", str consent_handle)
          ∷ ("consentStatus", str "ACTIVE")
          ∷ []),
    )
    ∷ [])

-- The request to the crypto sidecar.
unfoldable pub crypto_request : String → Json → Json → Result Json
crypto_request encoded crypto_keys request = do
  material ← index request "KeyMaterial"
  remote_nonce ← index material "Nonce"
  private_key ← index crypto_keys "privateKey"
  public_key ← index material "DHPublicKey"
  key_value ← index public_key "KeyValue"
  parameters ← index public_key "Parameters"
  expiry ← index public_key "expiry"
  algorithm ← index material "cryptoAlg"
  curve ← index material "curve"
  params ← index material "params"
  ok (
      object (
        ("data", str encoded)
        ∷ ("base64RemoteNonce", remote_nonce)
        ∷ ("base64YourNonce", str nonce)
        ∷ ("ourPrivateKey", private_key)
        ∷ (
          "remoteKeyMaterial",
          object (
              (
                "DHPublicKey",
                object (
                    ("KeyValue", key_value) ∷ ("Parameters", parameters) ∷ ("expiry", expiry) ∷ []),
              )
              ∷ ("cryptoAlg", algorithm)
              ∷ ("curve", curve)
              ∷ ("params", params)
              ∷ []),
        )
        ∷ []))

abbrev encrypted_account : Json → Json
encrypted_account encrypted = object (
    ("linkRefNumber", str "XXXX-XXXX-XXXX")
    ∷ ("maskedAccNumber", str "XXXXXXXX4020")
    ∷ ("encryptedFI", encrypted)
    ∷ [])

-- The result of a request for financial information.
unfoldable pub fi_result : String → Json → Json → Json → Result Json
fi_result timestamp crypto_keys request encryption = do
  txn_id ← index request "txnid"
  encrypted ← index encryption "base64Data"
  material ← index crypto_keys "KeyMaterial"
  algorithm ← index material "cryptoAlg"
  curve ← index material "curve"
  params ← index material "params"
  public_key ← index material "DHPublicKey"
  expiry ← index public_key "expiry"
  parameters ← index public_key "Parameters"
  key_value ← index public_key "KeyValue"
  ok (
      object (
        ("ver", str "1.0")
        ∷ ("timestamp", str timestamp)
        ∷ ("txnid", txn_id)
        ∷ (
          "FI",
          array (
              object (
                ("fipID", str "FIP-1")
                ∷ ("data", array (encrypted_account encrypted ∷ []))
                ∷ (
                  "KeyMaterial",
                  object (
                      ("cryptoAlg", algorithm)
                      ∷ ("curve", curve)
                      ∷ ("params", params)
                      ∷ (
                        "DHPublicKey",
                        object (
                            ("expiry", expiry)
                            ∷ ("Parameters", parameters)
                            ∷ ("KeyValue", key_value)
                            ∷ []),
                      )
                      ∷ ("Nonce", str nonce)
                      ∷ []),
                )
                ∷ [])
              ∷ []),
        )
        ∷ []))

abbrev pub fi_notification : String → Json → String → String → Json
fi_notification timestamp txn_id id session_id = object (
    ("ver", str "1.0")
    ∷ ("timestamp", str timestamp)
    ∷ ("txnid", txn_id)
    ∷ ("Notifier", notifier id)
    ∷ (
      "FIStatusNotification",
      object (
          ("sessionId", str session_id)
          ∷ ("sessionStatus", str "COMPLETED")
          ∷ ("FIStatusResponse", array [])
          ∷ []),
    )
    ∷ [])
