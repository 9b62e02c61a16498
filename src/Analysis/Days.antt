-- ===== src/Analysis/Days.antt =====
-- The entries of the statement analysis (controller.py, handle_analyze_statements) are one for each
-- run of transactions of one date.
use fiu_data_governance.Prelude.{
  ◌≡◌, refl, ◌∙◌, ◌⊎◌, inl, inr, Bool-cases, true, false, List, [], ◌∷◌, map, All,
}
use fiu_data_governance.Python.Errors.{ok}
use fiu_data_governance.Python.Json.{Json, Items, arr, elements, py_eq}
use fiu_data_governance.Analysis.{Flow, aggregate}
use fiu_data_governance.Analysis.Transactions.{Txn, read_transactions}
use fiu_data_governance.Analysis.Spec.{Run, split_runs, runs_from, summary, daily_report}
use fiu_data_governance.Analysis.Totals.{transactions_of, transactions_of-runs_from, aggregate-inv}

-- A transaction carries the date of its run, or one that Python's `==` takes for the same.
abbrev pub IsOn : Json → Txn → Type 0
IsOn d t = (t.value_date ≡ d) ⊎ (py_eq d t.value_date ≡ true)

abbrev pub HasOneDate : Run → Type 0
HasOneDate (d, run) = All (IsOn d) run

-- The runs after one of date `d`: each differs in its date from the one before.
abbrev pub Turns : Json → List Run → Type 0
Turns d [] = Unit
Turns d ((e, run) ∷ runs) = (py_eq d e ≡ false) × Turns e runs

abbrev pub AreDays : List Run → Type 0
AreDays [] = Unit
AreDays ((d, run) ∷ runs) = All HasOneDate ((d, run) ∷ runs) × Turns d runs

runs_from-AreDays : (d : Json) (ts : List Txn) → AreDays (runs_from d ts)
unfolding split_runs
runs_from-AreDays d [] = ((tt, tt), tt)
runs_from-AreDays d (t ∷ ts) = elim (Bool-cases (py_eq d t.value_date)) [
  | inl same ↦
      let ((one, rest), turns) = runs_from-AreDays d ts in rw same (((inr same, one), rest), turns)
  | inr differ ↦
      let ((one, rest), turns) = runs_from-AreDays t.value_date ts in
      rw differ ((tt, ((inl refl, one), rest)), (differ, turns))
]

days_of : List Txn → List Run
days_of [] = []
days_of (t ∷ ts) = runs_from t.value_date (t ∷ ts)

transactions_of-days_of : (ts : List Txn) → transactions_of (days_of ts) ≡ ts
unfolding days_of
transactions_of-days_of [] = refl
transactions_of-days_of (t ∷ ts) = transactions_of-runs_from t.value_date (t ∷ ts)

days_of-AreDays : (ts : List Txn) → AreDays (days_of ts)
unfolding days_of
days_of-AreDays [] = tt
days_of-AreDays (t ∷ ts) = runs_from-AreDays t.value_date (t ∷ ts)

daily_report-days_of : (ts : List Txn) → daily_report ts ≡ map summary (days_of ts)
unfolding days_of daily_report
daily_report-days_of [] = refl
daily_report-days_of (t ∷ ts) = refl

-- If the aggregation of a list succeeds, there are runs that hold the transactions read, all of
-- them and in their order, such that each run has one date, adjacent runs differ in their date, and
-- the entries are the summaries of the runs.
pub days-aggregate :
    (js : Items) (flows : List Flow)
    → aggregate (arr js) ≡ ok flows
    → (ts : List Txn) × (runs : List Run) × (read_transactions (elements js) ≡ ok ts)
      × (transactions_of runs ≡ ts)
      × AreDays runs
      × (flows ≡ map summary runs)
days-aggregate js flows h =
    let (ts, read, same) = aggregate-inv js flows h in
    (
      ts,
      days_of ts,
      read,
      transactions_of-days_of ts,
      days_of-AreDays ts,
      same ∙ daily_report-days_of ts,
    )
