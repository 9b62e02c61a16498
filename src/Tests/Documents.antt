-- ===== src/Tests/Documents.antt =====
-- The documents that the services pass on in the witnesses on financial information, and a host that
-- knows them.
use fiu_data_governance.Prelude.{String, List, [], ◌∷◌, map}
use fiu_data_governance.Prelude.Int.{pos}
use fiu_data_governance.Prelude.Dict.{Dict}
use fiu_data_governance.Host.{Host, response}
use fiu_data_governance.Python.Json.{Json, num, str, array, object}
use fiu_data_governance.Tests.Hosts.{Script, scripted}

abbrev pub now : String
now = "2022-01-01T00:00:00"

abbrev pub aggregator_nonce : Json
aggregator_nonce = str "KC7Cbk0BvEttWWOgUmT619TfNhzxKtUr1OhO4FKLlxI="

-- Key material with a public key.
abbrev pub material_of : String → Json → Json
material_of key nonce = object (
    ("cryptoAlg", str "ECDH")
    ∷ ("curve", str "Curve25519")
    ∷ ("params", str "")
    ∷ (
      "DHPublicKey",
      object (("expiry", str now) ∷ ("Parameters", str "") ∷ ("KeyValue", str key) ∷ []),
    )
    ∷ ("Nonce", nonce)
    ∷ [])

abbrev pub room_material : Json
room_material = material_of "room key" (str "room nonce")

abbrev pub keys : Json
keys =
    object
      (("privateKey", str "private") ∷ ("KeyMaterial", material_of "public" (str "own nonce")) ∷ [])

abbrev pub encryption : Json
encryption = object (("base64Data", str "secret") ∷ [])

abbrev pub result : Json
result = object (
    ("ver", str "1.0")
    ∷ ("timestamp", str now)
    ∷ ("txnid", str "txn-1")
    ∷ (
      "FI",
      array (
          object (
            ("fipID", str "FIP-1")
            ∷ (
              "data",
              array (
                  object (
                    ("linkRefNumber", str "XXXX-XXXX-XXXX")
                    ∷ ("maskedAccNumber", str "XXXXXXXX4020")
                    ∷ ("encryptedFI", str "secret")
                    ∷ [])
                  ∷ []),
            )
            ∷ ("KeyMaterial", material_of "public" aggregator_nonce)
            ∷ [])
          ∷ []),
    )
    ∷ [])

abbrev pub artifact : Json
artifact =
    object (
      ("txnid", str "txn-1")
      ∷ ("consentId", str "consent-1")
      ∷ ("signedConsent", str "signed")
      ∷ [])

abbrev pub consent : Json
consent = object (
    (
      "ConsentDetail",
      object (("FIDataRange", object (("from", str now) ∷ ("to", str now) ∷ [])) ∷ []),
    )
    ∷ [])

abbrev pub request : Json
request = object (
    ("ver", str "1.0")
    ∷ ("timestamp", str now)
    ∷ ("txnid", str "txn-1")
    ∷ ("FIDataRange", object (("from", str now) ∷ ("to", str now) ∷ []))
    ∷ ("Consent", object (("id", str "consent-1") ∷ ("digitalSignature", str "signed") ∷ []))
    ∷ ("KeyMaterial", room_material)
    ∷ [])

abbrev pub statements : Json
statements = object (("Summary", object (("currentBalance", num (pos 103000)) ∷ [])) ∷ [])

abbrev documents : Dict String Json
documents =
    ("keys", keys)
    ∷ ("room", object (("txnid", str "room-1") ∷ ("KeyMaterial", room_material) ∷ []))
    ∷ (
      "next room",
      object (
          ("txnid", str "room-2")
          ∷ ("KeyMaterial", material_of "next key" (str "next nonce"))
          ∷ []),
    )
    ∷ ("consent", object (("ConsentHandle", str "handle-1") ∷ []))
    ∷ ("artifact", artifact)
    ∷ ("encrypted", encryption)
    ∷ ("fetched", result)
    ∷ ("statements", statements)
    ∷ ("analysed", object (("response", str "statements") ∷ []))
    ∷ []

abbrev pub host : Host Script
host = scripted documents

-- Peers that answer with these texts.
abbrev pub answers : List String → Script
answers texts = record { outcomes = map (response 200) texts; names = [] }
