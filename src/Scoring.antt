-- ===== src/Scoring.antt =====
-- The business rule engine (BRE), samples/aa-flow-based-lending/src/business-rule-engine/src:
-- controller.py and the route of main.py, which calls `handle_scoring_request`. Its one global is
-- the configuration, of which it uses the URL of the statement analysis.
pub mod Main
pub mod Client
pub mod Decision
pub mod Service
pub mod Response
pub mod Logger
use fiu_data_governance.Prelude.{ℕ, String, List, [], ◌∷◌, if◌then◌else◌}
use fiu_data_governance.Prelude.Int.{pos, ltb_ℤ}
use fiu_data_governance.Python.Errors.{Result, ok, ◌>>=◌}
use fiu_data_governance.Python.Json.{Json, num, str, object}
use fiu_data_governance.Python.Subscript.{index, first, int_of}

unfoldable pub compute_score : Json → Result ℕ
compute_score aggregated_statements = do
  summary ← index aggregated_statements "Summary"
  balance ← index summary "currentBalance"
  current_balance ← int_of balance
  ok (if ltb_ℤ (pos 100000) current_balance then 82 else 41)

-- request['payload'][0]['data'][0]['encryptedData']
unfoldable pub encrypted_data : Json → Result Json
encrypted_data request = do
  payload ← index request "payload"
  element ← first payload
  parts ← index element "data"
  part ← first parts
  index part "encryptedData"

-- The body of the request to the statement analysis.
abbrev pub aggregation_request : String → Json → String → Json
aggregation_request timestamp txn_id statements = object (
    ("ver", str "1.0")
    ∷ ("timestamp", str timestamp)
    ∷ ("txnid", txn_id)
    ∷ ("statements", str statements)
    ∷ [])

abbrev pub score_response : String → Json → ℕ → Json
score_response timestamp txn_id score = object (
    ("ver", str "1.0")
    ∷ ("timestamp", str timestamp)
    ∷ ("txnid", txn_id)
    ∷ ("score", num (pos score))
    ∷ [])
