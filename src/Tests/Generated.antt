-- ===== src/Tests/Generated.antt =====
-- Generated statements of two draws.
use fiu_data_governance.Prelude.{ℕ, ◌≡◌, String, List, [], ◌∷◌, if◌then◌else◌}
use fiu_data_governance.Prelude.Int.{pos, ◌+ℤ◌, ltb_ℤ}
use fiu_data_governance.Python.Errors.{ok}
use fiu_data_governance.Python.Json.{Json}
use fiu_data_governance.Analysis.{aggregate_statements}
use fiu_data_governance.Analysis.Spec.{sum_of}
use fiu_data_governance.Scoring.{compute_score}
use fiu_data_governance.Generator.{Draw, generate}
use fiu_data_governance.Generator.Balance.{change}
use fiu_data_governance.Generator.Scored.{compute_score-generate}

abbrev pub draw : String → ℕ → Draw
draw txn amount = record {
  amount = amount;
  txn = txn;
  mode = "UPI";
  hour = 10;
  minute = 30;
  second = 15;
  microsecond = 500;
  txn_id = 123456;
  narration = "Self";
  reference = 54321;
}

abbrev pub draws : List Draw
draws = draw "CREDIT" 5000 ∷ draw "DEBIT" 1500 ∷ []

abbrev pub date_text : ℕ → String
date_text date = "2021-01-01"

abbrev pub datetime_text : ℕ → ℕ → ℕ → ℕ → ℕ → String
datetime_text date hour minute second microsecond = "2021-01-01 10:30:15.000500"

compute_score-generate_example :
    (aggregated : Json) × (aggregate_statements (generate date_text datetime_text draws)
      ≡ ok aggregated)
    × (compute_score aggregated
        ≡ ok (if ltb_ℤ (pos 100000) (pos 500000 +ℤ sum_of change draws) then 82 else 41))
compute_score-generate_example =
    compute_score-generate date_text datetime_text (draw "CREDIT" 5000) (draw "DEBIT" 1500 ∷ [])
