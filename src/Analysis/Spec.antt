-- ===== src/Analysis/Spec.antt =====
-- What the aggregation of controller.py (handle_analyze_statements) is to compute: the transactions
-- are cut into runs of one date, and each run gives one entry, with the sums of its credits and of
-- its debits and the balance after its last transaction.
use fiu_data_governance.Prelude.{List, [], ◌∷◌, map, if◌then◌else◌}
use fiu_data_governance.Prelude.Int.{ℤ, pos, ◌+ℤ◌}
use fiu_data_governance.Python.Errors.{Exn, Result, err, map_result}
use fiu_data_governance.Python.Json.{Json, Items, nil, cons, num, elements, py_eq}
use fiu_data_governance.Analysis.{Flow}
use fiu_data_governance.Analysis.Transactions.{Txn, read_transactions}

-- A date and the transactions that carry it.
abbrev pub Run : Type 0
Run = Json × List Txn

-- The transactions that still belong to the date `d`, and the runs after them.
unfoldable pub split_runs : Json → List Txn → List Txn × List Run
split_runs d [] = ([], [])
split_runs d (t ∷ ts) =
    let same = py_eq d t.value_date in
    let (run, runs) = split_runs (if same then d else t.value_date) ts in
    if same then (t ∷ run, runs) else ([], (t.value_date, t ∷ run) ∷ runs)

abbrev pub credit_of : Txn → ℤ
credit_of t = if t.is_credit then t.amount else pos 0

abbrev pub debit_of : Txn → ℤ
debit_of t = if t.is_credit then pos 0 else t.amount

abbrev pub sum_of {ℓ} : {A : Type ℓ} → (A → ℤ) → List A → ℤ
sum_of f [] = pos 0
sum_of f (t ∷ ts) = f t +ℤ sum_of f ts

abbrev pub last_balance : Json → List Txn → Json
last_balance b [] = b
last_balance b (t ∷ ts) = last_balance t.current_balance ts

abbrev pub summary : Run → Flow
summary (d, run) = record {
  txn_date = d;
  total_credit = sum_of credit_of run;
  total_debit = sum_of debit_of run;
  closing_balance = last_balance (num (pos 0)) run;
}

-- The runs of a list whose first date is `d`.
abbrev pub runs_from : Json → List Txn → List Run
runs_from d ts = let (run, runs) = split_runs d ts in (d, run) ∷ runs

unfoldable pub daily_flows : Json → List Txn → List Flow
daily_flows d ts = map summary (runs_from d ts)

-- The entries for a list of transactions: its first date is that of the first transaction.
unfoldable pub daily_report : List Txn → List Flow
unfolding daily_flows
daily_report [] = []
daily_report (t ∷ ts) = daily_flows t.value_date (t ∷ ts)

-- The same from the values of the request: the list may not be empty, and every element must be
-- readable.
abbrev pub expected_flows : Items → Result (List Flow)
expected_flows nil = err Exn.index_error
expected_flows (cons j js) = map_result daily_report (read_transactions (j ∷ elements js))
