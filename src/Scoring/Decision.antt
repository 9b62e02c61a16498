-- ===== src/Scoring/Decision.antt =====
-- The decision of the business rule engine (controller.py, compute_score).
use mathlib.Core.Bool.{false≢true}
use text.Mathlib.TextEquality.{eq_iff}
use fiu_data_governance.Prelude.{ℕ, ◌≤◌, ◌≡◌, ◌⊎◌, arith, if◌then◌else◌}
use fiu_data_governance.Prelude.Int.{ℤ, pos, ltb_ℤ, ◌≤ℤ◌}
use fiu_data_governance.Python.Errors.{ok, >>=-eq-ok}
use fiu_data_governance.Python.Json.{Json}
use fiu_data_governance.Python.Subscript.{index, int_of}
use fiu_data_governance.Analysis.{aggregate_statements}
use fiu_data_governance.Analysis.Keeps.{keeps-aggregate_statements}
use fiu_data_governance.Scoring.{compute_score}

-- The score for a current balance: 82 above 100000, and 41 up to that.
abbrev pub Decides : ℤ → ℕ → Type 0
Decides n score = ((score ≡ 82) × (pos 100001 ≤ℤ n)) ⊎ ((score ≡ 41) × (n ≤ℤ pos 100000))

decide_lem : (n : ℤ) → Decides n (if ltb_ℤ (pos 100000) n then 82 else 41)
decide_lem n = ground arith

-- A score is computed only from a current balance that `int` reads, and it is 82 exactly if that
-- balance is above 100000, and 41 otherwise.
pub compute_score-Decides :
    (statements : Json) (score : ℕ)
    → compute_score statements ≡ ok score
    → (summary balance : Json) × (n : ℤ) × (index statements "Summary" ≡ ok summary)
      × (index summary "currentBalance" ≡ ok balance)
      × (int_of balance ≡ ok n)
      × Decides n score
unfolding compute_score
compute_score-Decides statements score h =
    let (summary, e1, h1) = >>=-eq-ok (index statements "Summary") _ h in
    let (balance, e2, h2) = >>=-eq-ok (index summary "currentBalance") _ h1 in
    let (n, e3, h3) = >>=-eq-ok (int_of balance) _ h2 in
    (summary, balance, n, e1, e2, e3, ground (arith, decide_lem n))

-- Every score lies between 1 and 100.
pub compute_score_range :
    (statements : Json) (score : ℕ)
    → compute_score statements ≡ ok score
    → (1 ≤ score) × (score ≤ 100)
compute_score_range statements score h =
    let (_, _, _, _, _, _, d) = compute_score-Decides statements score h in ground arith

-- The score of statements that the statement analysis has aggregated is that of the statements as
-- they were, and computing it raises the same exception where it raises one.
pub compute_score-aggregate_statements :
    (statements aggregated : Json)
    → aggregate_statements statements ≡ ok aggregated
    → compute_score aggregated ≡ compute_score statements
unfolding compute_score
compute_score-aggregate_statements statements aggregated h =
    let (_, _, _, _, _, _, _, _, _, same) =
      keeps-aggregate_statements statements aggregated h "Summary"
        (λ p. false≢true ((eq_iff "Summary" "Transactions").1 p)) in
    rw same
