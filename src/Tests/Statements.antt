-- ===== src/Tests/Statements.antt =====
-- Three transactions on two dates, through the statement analysis and the business rule engine.
use mathlib.Core.Bool.{false≢true}
use text.Mathlib.TextEquality.{eq_iff}
use fiu_data_governance.Prelude.{ℕ, ◌≡◌, ◌≢◌, refl, String, List, [], ◌∷◌, map, string_eq}
use fiu_data_governance.Prelude.Int.{pos, ◌+ℤ◌}
use fiu_data_governance.Python.Errors.{ok}
use fiu_data_governance.Python.Json.{
  Json, Items, arr, num, str, items, elements, object, array, py_eq,
}
use fiu_data_governance.Python.Subscript.{index}
use fiu_data_governance.Analysis.{
  Flow, flow_json, turn_day, add_transaction, add_transactions, aggregate, aggregate_statements,
}
use fiu_data_governance.Analysis.Transactions.{Txn, read_transactions}
use fiu_data_governance.Analysis.Spec.{expected_flows, sum_of, credit_of, debit_of}
use fiu_data_governance.Analysis.Refines.{aggregate-eq-expected_flows}
use fiu_data_governance.Analysis.Totals.{totals-aggregate}
use fiu_data_governance.Analysis.Keeps.{keeps-aggregate_statements}
use fiu_data_governance.Scoring.{compute_score}
use fiu_data_governance.Scoring.Decision.{compute_score-aggregate_statements}

abbrev transaction : String → String → ℕ → ℕ → Json
transaction date kind amount balance = object (
    ("valueDate", str date)
    ∷ ("type", str kind)
    ∷ ("amount", num (pos amount))
    ∷ ("currentBalance", num (pos balance))
    ∷ [])

abbrev transactions : Items
transactions = items (
    transaction "2021-01-01" "CREDIT" 5000 105000
    ∷ transaction "2021-01-01" "DEBIT" 3000 102000
    ∷ transaction "2021-01-02" "CREDIT" 1000 103000
    ∷ [])

abbrev pub statements : Json
statements = object (
    ("Summary", object (("currentBalance", num (pos 103000)) ∷ []))
    ∷ ("Transactions", object (("Transaction", arr transactions) ∷ []))
    ∷ [])

abbrev flow : String → ℕ → ℕ → ℕ → Flow
flow date credit debit balance = record {
  txn_date = str date;
  total_credit = pos credit;
  total_debit = pos debit;
  closing_balance = num (pos balance);
}

abbrev flows : List Flow
flows = flow "2021-01-01" 5000 3000 102000 ∷ flow "2021-01-02" 1000 0 103000 ∷ []

abbrev pub aggregated : Json
aggregated = object (
    ("Summary", object (("currentBalance", num (pos 103000)) ∷ []))
    ∷ ("Transactions", object (("Transaction", array (map flow_json flows)) ∷ []))
    ∷ [])

aggregate_run : aggregate (arr transactions) ≡ ok flows
unfolding aggregate add_transactions add_transaction turn_day py_eq ◌+ℤ◌
aggregate_run = refl

pub aggregate_statements_run : aggregate_statements statements ≡ ok aggregated
unfolding aggregate_statements aggregate add_transactions add_transaction turn_day py_eq ◌+ℤ◌
aggregate_statements_run = refl

pub compute_score_run : compute_score statements ≡ ok 82
unfolding compute_score
compute_score_run = refl

aggregate-eq-expected_flows_example : aggregate (arr transactions) ≡ expected_flows transactions
aggregate-eq-expected_flows_example = aggregate-eq-expected_flows transactions

totals-aggregate_example :
    (ts : List Txn) × (read_transactions (elements transactions) ≡ ok ts)
    × (sum_of (λ f. f.total_credit) flows ≡ sum_of credit_of ts)
    × (sum_of (λ f. f.total_debit) flows ≡ sum_of debit_of ts)
totals-aggregate_example = totals-aggregate transactions flows aggregate_run

summary_differs : ◌≢◌ {A = String} "Summary" "Transactions"
summary_differs p = false≢true ((eq_iff "Summary" "Transactions").1 p)

keeps-aggregate_statements_example :
    (holder read holder' : Json) × (entries : List Flow) × (index statements "Transactions"
      ≡ ok holder)
    × (index holder "Transaction" ≡ ok read)
    × (aggregate read ≡ ok entries)
    × (index aggregated "Transactions" ≡ ok holder')
    × (index holder' "Transaction" ≡ ok (array (map flow_json entries)))
    × (index aggregated "Summary" ≡ index statements "Summary")
keeps-aggregate_statements_example =
    keeps-aggregate_statements statements aggregated aggregate_statements_run "Summary"
      summary_differs

compute_score-aggregate_statements_example : compute_score aggregated ≡ compute_score statements
compute_score-aggregate_statements_example =
    compute_score-aggregate_statements statements aggregated aggregate_statements_run
