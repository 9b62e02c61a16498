-- ===== src/Tests/Users.antt =====
-- The payload of the FIU for the clean room, and the answer of the business rule engine.
use fiu_data_governance.Prelude.{ℕ, ◌≤◌, ◌≡◌, refl, String, List, [], ◌∷◌, string_eq}
use fiu_data_governance.Prelude.Int.{pos}
use fiu_data_governance.Prelude.Dict.{lookup}
use fiu_data_governance.Host.{Sys, ◌>>=◌}
use fiu_data_governance.Python.Errors.{ok}
use fiu_data_governance.Python.Json.{Json, num, str, array, object}
use fiu_data_governance.Python.Key.{key_eq}
use fiu_data_governance.Python.Subscript.{text_of, index, iterate}
use fiu_data_governance.Client.{make_url, accept, post_json_request}
use fiu_data_governance.FinancialUser.Messages.{
  convert_fi_data_to_ccr_json, convert_items, convert_item, convert_data,
}
use fiu_data_governance.FinancialUser.Payload.{
  AllPairs, SamePackage, convert_fi_data_to_ccr_json-SamePackage,
}
use fiu_data_governance.Scoring.{compute_score, encrypted_data, score_response}
use fiu_data_governance.Scoring.Service.{Engine, aggregate_statements, handle_scoring_request}
use fiu_data_governance.Scoring.Response.{Analyses, Carries, handle_scoring_request-response}
use fiu_data_governance.Tests.Hosts.{Script}
use fiu_data_governance.Tests.Documents.{material_of, now, aggregator_nonce, host, answers}

abbrev pub payload : Json
payload = array (
    object (
      ("id", str "FIP-1")
      ∷ (
        "data",
        array (object (("encryptedData", str "secret") ∷ ("metadata", str "...") ∷ []) ∷ []),
      )
      ∷ ("KeyMaterial", material_of "public" aggregator_nonce)
      ∷ [])
    ∷ [])

abbrev packages : Json
packages = array (
    object (
      ("fipID", str "FIP-1")
      ∷ ("data", array (object (("encryptedFI", str "secret") ∷ []) ∷ []))
      ∷ ("KeyMaterial", material_of "public" aggregator_nonce)
      ∷ [])
    ∷ [])

convert_run : convert_fi_data_to_ccr_json packages ≡ ok payload
unfolding convert_fi_data_to_ccr_json convert_items convert_item convert_data
convert_run = refl

convert_fi_data_to_ccr_json-SamePackage_example :
    (js cs : List Json) × (iterate packages ≡ ok js)
    × (payload ≡ array cs)
    × AllPairs SamePackage js cs
convert_fi_data_to_ccr_json-SamePackage_example =
    convert_fi_data_to_ccr_json-SamePackage packages payload convert_run

-- The request to the business rule engine, after the clean room has put the information in clear.
abbrev scoring_request : Json
scoring_request = object (
    ("txnid", str "room-1")
    ∷ (
      "payload",
      array (
          object (("data", array (object (("encryptedData", str "statements") ∷ []) ∷ [])) ∷ [])
          ∷ []),
    )
    ∷ [])

abbrev engine : Sys Engine Script
engine = record { self = record { url_sa = "http://sa" }; world = answers ("analysed" ∷ []) }

scoring_run :
    (handle_scoring_request host scoring_request engine).0
    ≡ ok (score_response now (str "room-1") 82)
unfolding handle_scoring_request aggregate_statements encrypted_data compute_score post_json_request
    accept make_url ◌>>=◌ lookup
scoring_run = refl

handle_scoring_request-response_example :
    (txn_id encrypted fi aggregated : Json) × (text once twice timestamp : String) × (score : ℕ)
    × (index scoring_request "txnid" ≡ ok txn_id)
    × Carries scoring_request encrypted
    × (text_of encrypted ≡ ok text)
    × (host.b64decode text ≡ ok once)
    × (host.b64decode once ≡ ok twice)
    × (host.loads twice ≡ ok fi)
    × Analyses host "http://sa" txn_id fi aggregated (host.now engine.world).1
    × (compute_score aggregated ≡ ok score)
    × (1 ≤ score)
    × (score ≤ 100)
    × (score_response now (str "room-1") 82
        ≡ object (
            ("ver", str "1.0")
            ∷ ("timestamp", str timestamp)
            ∷ ("txnid", txn_id)
            ∷ ("score", num (pos score))
            ∷ []))
handle_scoring_request-response_example =
    handle_scoring_request-response host scoring_request (score_response now (str "room-1") 82)
      engine scoring_run
