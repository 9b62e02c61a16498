-- ===== src/Analysis/Refines.antt =====
-- The aggregation of controller.py (handle_analyze_statements) computes the daily flows of Spec.
use mathlib.Core.List.{append_assoc}
use fiu_data_governance.Prelude.{
  ◌⊎◌, ◌≡◌, refl, ap, sym, ◌∙◌, inl, inr, Bool-cases, List, [], ◌∷◌, ◌++◌, map, arith,
}
use fiu_data_governance.Prelude.Int.{pos, ◌+ℤ◌, +ℤ-zero, zero-+ℤ, +ℤ_assoc}
use fiu_data_governance.Python.Errors.{Exn, Result, ok, err, ◌>>=◌, map_result, Result-cases}
use fiu_data_governance.Python.Json.{Json, Items, arr, nil, cons, elements, py_eq}
use fiu_data_governance.Python.Subscript.{index}
use fiu_data_governance.Analysis.{Flow, Progress, first_day, turn_day, aggregate}
use fiu_data_governance.Analysis.Transactions.{
  Txn, read_transaction, read_transactions, add_to_day, add_read, add_all_read,
  add_transactions-eq-read,
}
use fiu_data_governance.Analysis.Spec.{
  Run, split_runs, credit_of, debit_of, sum_of, last_balance, summary, daily_flows, daily_report,
  expected_flows,
}

-- A day after the transactions of a run.
abbrev extend : Flow → List Txn → Flow
extend day run = record {
  txn_date = day.txn_date;
  total_credit = day.total_credit +ℤ sum_of credit_of run;
  total_debit = day.total_debit +ℤ sum_of debit_of run;
  closing_balance = last_balance day.closing_balance run;
}

extend-nil : (day : Flow) → extend day [] ≡ day
extend-nil day = ground (arith, +ℤ-zero day.total_credit, +ℤ-zero day.total_debit)

extend-add_to_day :
    (day : Flow) (t : Txn) (run : List Txn) → extend (add_to_day day t) run ≡ extend day (t ∷ run)
extend-add_to_day day t run = ground (
  arith,
  +ℤ_assoc day.total_credit t.amount (sum_of credit_of run),
  +ℤ_assoc day.total_debit t.amount (sum_of debit_of run),
  zero-+ℤ (sum_of credit_of run),
  zero-+ℤ (sum_of debit_of run),
)

extend-eq-summary :
    (d b : Json) (t : Txn) (run : List Txn)
    → extend
        (record { txn_date = d; total_credit = pos 0; total_debit = pos 0; closing_balance = b })
        (t ∷ run)
      ≡ summary (d, t ∷ run)
extend-eq-summary d b t run = ground (
  arith,
  zero-+ℤ (credit_of t +ℤ sum_of credit_of run),
  zero-+ℤ (debit_of t +ℤ sum_of debit_of run),
)

abbrev finish : Progress → List Flow
finish p = p.cash_flow_txns ++ p.day ∷ []

abbrev flows_after : List Flow → Flow → List Txn × List Run → List Flow
flows_after done day (run, runs) = done ++ extend day run ∷ map summary runs

abbrev opened : Progress → Txn → Flow
opened p t = record p.day { txn_date = t.value_date; total_credit = pos 0; total_debit = pos 0 }

-- One transaction moves from the input into the day, or begins the next day.
flows_after-add_read :
    (p : Progress) (t : Txn) (ts : List Txn)
    → let q = add_read p t in
      flows_after q.cash_flow_txns q.day (split_runs q.day.txn_date ts)
      ≡ flows_after p.cash_flow_txns p.day (split_runs p.day.txn_date (t ∷ ts))
unfolding split_runs add_read turn_day
flows_after-add_read p t ts = elim (Bool-cases (py_eq p.day.txn_date t.value_date)) [
  | inl same ↦
      let (run, runs) = split_runs p.day.txn_date ts in
      rw same
        (ap (λ day. p.cash_flow_txns ++ day ∷ map summary runs) (extend-add_to_day p.day t run))
  | inr differ ↦
      let (run, runs) = split_runs t.value_date ts in
      rw differ (
        append_assoc p.cash_flow_txns (p.day ∷ []) _
        ∙ cc (
          extend-nil p.day,
          extend-add_to_day (opened p t) t run,
          extend-eq-summary t.value_date p.day.closing_balance t run,
        ))
]

finish-add_all_read :
    (p : Progress) (ts : List Txn)
    → finish (add_all_read p ts) ≡ flows_after p.cash_flow_txns p.day (split_runs p.day.txn_date ts)
unfolding add_all_read split_runs
finish-add_all_read p [] = ap (λ day. p.cash_flow_txns ++ day ∷ []) (sym (extend-nil p.day))
finish-add_all_read p (t ∷ ts) = finish-add_all_read (add_read p t) ts ∙ flows_after-add_read p t ts

value_date-read_transaction :
    (j : Json) (t : Txn) → read_transaction j ≡ ok t → index j "valueDate" ≡ ok t.value_date
unfolding read_transaction
value_date-read_transaction j t h = ground arith

error-read_transaction :
    (j : Json) (e : Exn)
    → read_transaction j ≡ err e
    → (index j "valueDate" ≡ err e) ⊎ ((d : Json) × (index j "valueDate" ≡ ok d))
unfolding read_transaction
error-read_transaction j e h = elim (Result-cases (index j "valueDate")) [
  | inl (d, found) ↦ inr (d, found)
  | inr (x, missing) ↦ inl (ground arith)
]

abbrev finish_from : Json → List Txn → List Flow
finish_from d ts = finish (add_all_read (first_day d) ts)

-- From a first day with nothing in it the loop gives the daily flows.
finish_from-eq-daily_flows : (d : Json) (ts : List Txn) → finish_from d ts ≡ daily_flows d ts
unfolding daily_flows
finish_from-eq-daily_flows d ts =
    let (run, runs) = split_runs d ts in
    finish-add_all_read (first_day d) ts
    ∙ ap (λ f. f ∷ map summary runs)
        (ground (arith, zero-+ℤ (sum_of credit_of run), zero-+ℤ (sum_of debit_of run)))

daily_after_read :
    (t : Txn) (r : Result (List Txn))
    → (map_result (add_all_read (first_day t.value_date)) (r >>= λ ts. ok (t ∷ ts)) >>= λ p.
        ok (finish p))
      ≡ map_result daily_report (r >>= λ ts. ok (t ∷ ts))
unfolding daily_report
daily_after_read t (ok ts) = ap ok (finish_from-eq-daily_flows t.value_date (t ∷ ts))
daily_after_read t (err e) = refl

-- The aggregation of a list of transactions, whatever its elements are: it raises an IndexError for
-- the empty list and otherwise the exception of the first element that cannot be read, and without
-- one it returns an entry for each run of one date, with the sums of the run's credits and debits
-- and the balance after its last transaction.
pub aggregate-eq-expected_flows : (js : Items) → aggregate (arr js) ≡ expected_flows js
unfolding aggregate
aggregate-eq-expected_flows nil = refl
aggregate-eq-expected_flows (cons j js) = elim (Result-cases (read_transaction j)) [
  | inl (t, e) ↦
      rw (value_date-read_transaction j t e, add_transactions-eq-read)
        (unfold read_transactions daily_report in
          rw e (daily_after_read t (read_transactions (elements js))))
  | inr (x, e) ↦ elim (error-read_transaction j x e) [
    | inl p ↦ rw p (unfold read_transactions in rw e)
    | inr (d, p) ↦ rw (p, add_transactions-eq-read) (unfold read_transactions in rw e)
  ]
]
