-- ===== src/Tests/Sessions.antt =====
-- Financial information at the account aggregator: whom it is encrypted for, and how it is fetched.
use mathlib.Core.Path.{subst}
use fiu_data_governance.Prelude.{sym, ◌≡◌, ◌≢◌, refl, [], ◌∷◌, string_eq}
use fiu_data_governance.Prelude.Dict.{lookup}
use fiu_data_governance.Host.{Sys, ◌>>=◌}
use fiu_data_governance.Python.Errors.{Exn, Result, ok, err}
use fiu_data_governance.Python.Errors as Errors
use fiu_data_governance.Python.Json.{Json, null, str, object}
use fiu_data_governance.Python.Key.{key_eq}
use fiu_data_governance.Python.Subscript.{index}
use fiu_data_governance.Client.{make_url, accept, post_json_request, get_json_request}
use fiu_data_governance.Aggregator.{Aggregator, initial}
use fiu_data_governance.Aggregator.Messages.{crypto_request, fi_result}
use fiu_data_governance.Aggregator.Session.{
  ensure_crypto_keys, encrypt_fi, handle_fi_request, handle_fi_fetch,
}
use fiu_data_governance.Aggregator.Fetch.{fetch-handle_fi_request}
use fiu_data_governance.FinancialUser.Messages.{fi_request, copied_material}
use fiu_data_governance.FinancialUser.Requests.{nested_key}
use fiu_data_governance.Workflow.Encryption.{crypto_request-fi_request}
use fiu_data_governance.Tests.Hosts.{Script}
use fiu_data_governance.Tests.Documents.{
  now, aggregator_nonce, room_material, keys, encryption, result, artifact, consent, request,
  statements, host, answers,
}

fi_request_run : fi_request now artifact consent room_material ≡ ok request
unfolding fi_request copied_material
fi_request_run = refl

abbrev sent : Json
sent = object (
    ("data", str "encoded")
    ∷ ("base64RemoteNonce", str "room nonce")
    ∷ ("base64YourNonce", aggregator_nonce)
    ∷ ("ourPrivateKey", str "private")
    ∷ (
      "remoteKeyMaterial",
      object (
          (
            "DHPublicKey",
            object
                (("KeyValue", str "room key") ∷ ("Parameters", str "") ∷ ("expiry", str now) ∷ []),
          )
          ∷ ("cryptoAlg", str "ECDH")
          ∷ ("curve", str "Curve25519")
          ∷ ("params", str "")
          ∷ []),
    )
    ∷ [])

crypto_request_run : crypto_request "encoded" keys request ≡ ok sent
unfolding crypto_request
crypto_request_run = refl

crypto_request-fi_request_example :
    (index sent "base64RemoteNonce" ≡ index room_material "Nonce")
    × (Errors.◌>>=◌ (index sent "remoteKeyMaterial") nested_key ≡ nested_key room_material)
    × (index sent "ourPrivateKey" ≡ index keys "privateKey")
crypto_request-fi_request_example =
    crypto_request-fi_request now "encoded" artifact consent room_material request keys sent
      fi_request_run crypto_request_run

pub fi_result_run : fi_result now keys request encryption ≡ ok result
unfolding fi_result
fi_result_run = refl

-- The aggregator with data and without keys, and peers that answer for the keys, the encryption and
-- the notification.
abbrev aggregator : Sys Aggregator Script
aggregator = record {
  self = record (initial "aa" "http://fiu" "http://crypto") { fi_data_json = statements };
  world = answers ("keys" ∷ "encrypted" ∷ "null" ∷ []);
}

abbrev encrypted : Sys Aggregator Script
encrypted = record {
  self = record aggregator.self { crypto_keys = keys };
  world = answers ("null" ∷ []);
}

encrypt_fi_run : encrypt_fi host statements request aggregator ≡ (ok result, encrypted)
unfolding encrypt_fi ensure_crypto_keys crypto_request fi_result post_json_request get_json_request
    accept make_url ◌>>=◌ lookup
encrypt_fi_run = refl

abbrev IsNull : Json → Type 0
IsNull null = Unit
IsNull _ = ⊥

has_data : aggregator.self.fi_data_json ≢ null
has_data e = subst IsNull (sym e) tt

abbrev stored : Sys Aggregator Script
stored = (handle_fi_request host "session-1" request aggregator).1

fetch-handle_fi_request_example : handle_fi_fetch host "session-1" stored ≡ (ok result, stored)
fetch-handle_fi_request_example =
    fetch-handle_fi_request host "session-1" request result aggregator encrypted has_data
      encrypt_fi_run stored refl
