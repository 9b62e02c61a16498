-- ===== src/Analysis/Totals.antt =====
-- The entries of the statement analysis (controller.py, handle_analyze_statements) account for every
-- transaction: what goes in as credits and debits comes out in the totals.
use fiu_data_governance.Prelude.{
  ◌≡◌, refl, sym, ap, ◌∙◌, inl, inr, Bool-cases, List, [], ◌∷◌, ◌++◌, map,
}
use fiu_data_governance.Prelude.Int.{ℤ, ◌+ℤ◌, +ℤ_assoc, zero-+ℤ}
use fiu_data_governance.Python.Errors.{ok, Result-cases}
use fiu_data_governance.Python.Json.{Json, Items, arr, nil, cons, elements, py_eq}
use fiu_data_governance.Analysis.{Flow, aggregate}
use fiu_data_governance.Analysis.Transactions.{Txn, read_transactions}
use fiu_data_governance.Analysis.Spec.{
  Run, split_runs, runs_from, credit_of, debit_of, sum_of, summary, daily_report,
}
use fiu_data_governance.Analysis.Refines.{aggregate-eq-expected_flows}

-- The transactions of all runs, in order.
abbrev pub transactions_of : List Run → List Txn
transactions_of [] = []
transactions_of ((d, run) ∷ runs) = run ++ transactions_of runs

-- Cutting into runs loses nothing, repeats nothing and keeps the order.
pub transactions_of-runs_from : (d : Json) (ts : List Txn) → transactions_of (runs_from d ts) ≡ ts
unfolding split_runs
transactions_of-runs_from d [] = refl
transactions_of-runs_from d (t ∷ ts) = elim (Bool-cases (py_eq d t.value_date)) [
  | inl same ↦ rw same (ap (λ r. t ∷ r) (transactions_of-runs_from d ts))
  | inr differ ↦ rw differ (ap (λ r. t ∷ r) (transactions_of-runs_from t.value_date ts))
]

module _ {ℓ} {A : Type ℓ} (f : A → ℤ) where
  sum_of-append : (xs ys : List A) → sum_of f (xs ++ ys) ≡ sum_of f xs +ℤ sum_of f ys
  sum_of-append [] ys = sym (zero-+ℤ (sum_of f ys))
  sum_of-append (x ∷ xs) ys =
      ap (λ s. f x +ℤ s) (sum_of-append xs ys) ∙ sym (+ℤ_assoc (f x) (sum_of f xs) (sum_of f ys))

-- A total of the entries is the total of the transactions, if it is so in each run.
sum_of-summaries :
    (total : Flow → ℤ) (part : Txn → ℤ)
    → ((r : Run) → total (summary r) ≡ sum_of part r.1)
    → (runs : List Run) → sum_of total (map summary runs) ≡ sum_of part (transactions_of runs)
sum_of-summaries total part each [] = refl
sum_of-summaries total part each ((d, run) ∷ runs) = cc (
  each (d, run),
  sum_of-summaries total part each runs,
  sum_of-append part run (transactions_of runs),
)

sum_of-daily_report :
    (total : Flow → ℤ) (part : Txn → ℤ)
    → ((r : Run) → total (summary r) ≡ sum_of part r.1)
    → (ts : List Txn) → sum_of total (daily_report ts) ≡ sum_of part ts
unfolding daily_report
sum_of-daily_report total part each [] = refl
sum_of-daily_report total part each (t ∷ ts) =
    sum_of-summaries total part each (runs_from t.value_date (t ∷ ts))
    ∙ ap (sum_of part) (transactions_of-runs_from t.value_date (t ∷ ts))

-- A successful aggregation has read every element, and its entries are their daily report.
pub aggregate-inv :
    (js : Items) (flows : List Flow)
    → aggregate (arr js) ≡ ok flows
    → (ts : List Txn) × (read_transactions (elements js) ≡ ok ts) × (flows ≡ daily_report ts)
aggregate-inv nil flows h = cc (aggregate-eq-expected_flows nil)
aggregate-inv (cons j js) flows h = elim (Result-cases (read_transactions (j ∷ elements js))) [
  | inl (ts, e) ↦ (ts, e, cc (aggregate-eq-expected_flows (cons j js)))
  | inr (x, e) ↦ cc (aggregate-eq-expected_flows (cons j js))
]

-- If the aggregation of a list succeeds, every element has been read, and over all entries the
-- credits add up to the credits of the transactions read and the debits to their debits.
pub totals-aggregate :
    (js : Items) (flows : List Flow)
    → aggregate (arr js) ≡ ok flows
    → (ts : List Txn) × (read_transactions (elements js) ≡ ok ts)
      × (sum_of (λ f. f.total_credit) flows ≡ sum_of credit_of ts)
      × (sum_of (λ f. f.total_debit) flows ≡ sum_of debit_of ts)
totals-aggregate js flows h =
    let (ts, read, same) = aggregate-inv js flows h in
    (
      ts,
      read,
      rw same (sum_of-daily_report (λ f. f.total_credit) credit_of (λ r. refl) ts),
      rw same (sum_of-daily_report (λ f. f.total_debit) debit_of (λ r. refl) ts),
    )
