-- ===== src/Analysis/Transactions.antt =====
-- Transactions as the statement analysis reads them (controller.py, handle_analyze_statements), and
-- the loop over transactions that have been read. The loop of the program reads while it adds up.
use fiu_data_governance.Prelude.{◌≡◌, refl, inl, inr, Bool, List, [], ◌∷◌, arith, if◌then◌else◌}
use fiu_data_governance.Prelude.Int.{ℤ, ◌+ℤ◌}
use fiu_data_governance.Python.Errors.{Exn, Result, ok, ◌>>=◌, map_result, Result-cases}
use fiu_data_governance.Python.Json.{Json, str, as_int, py_eq}
use fiu_data_governance.Python.Subscript.{index, or_raise}
use fiu_data_governance.Analysis.{Flow, Progress, turn_day, add_transaction, add_transactions}

pub record Txn : Type 0 where
  pub value_date : Json
  pub is_credit : Bool
  pub amount : ℤ
  pub current_balance : Json

-- The four entries that the loop uses, in the order in which it asks for them.
unfoldable pub read_transaction : Json → Result Txn
read_transaction j = do
  value_date ← index j "valueDate"
  kind ← index j "type"
  amount ← index j "amount"
  n ← or_raise (as_int amount) Exn.type_error
  balance ← index j "currentBalance"
  ok (record {
    value_date = value_date;
    is_credit = py_eq kind (str "CREDIT");
    amount = n;
    current_balance = balance;
  })

unfoldable pub read_transactions : List Json → Result (List Txn)
read_transactions [] = ok []
read_transactions (j ∷ js) = do t ← read_transaction j; ts ← read_transactions js; ok (t ∷ ts)

abbrev pub add_to_day : Flow → Txn → Flow
add_to_day day t = record day {
  total_credit = if t.is_credit then day.total_credit +ℤ t.amount else day.total_credit;
  total_debit = if t.is_credit then day.total_debit else day.total_debit +ℤ t.amount;
  closing_balance = t.current_balance;
}

unfoldable pub add_read : Progress → Txn → Progress
add_read p t = let q = turn_day p t.value_date in record q { day = add_to_day q.day t }

unfoldable pub add_all_read : Progress → List Txn → Progress
add_all_read p [] = p
add_all_read p (t ∷ ts) = add_all_read (add_read p t) ts

-- One round of the loop reads a transaction and adds it, or raises what reading raises.
pub add_transaction-eq-read :
    (p : Progress) (j : Json) → add_transaction p j ≡ map_result (add_read p) (read_transaction j)
unfolding add_transaction read_transaction add_read turn_day
add_transaction-eq-read p j = ground arith

pub add_transactions-eq-read :
    (p : Progress) (js : List Json)
    → add_transactions p js ≡ map_result (add_all_read p) (read_transactions js)
unfolding add_transactions read_transactions add_all_read
add_transactions-eq-read p [] = refl
add_transactions-eq-read p (j ∷ js) = elim (Result-cases (read_transaction j)) [
  | inl (t, e) ↦ ground (
    arith,
    add_transaction-eq-read p j,
    add_transactions-eq-read (add_read p t) js,
    Result-cases (read_transactions js),
  )
  | inr (x, e) ↦ ground (arith, add_transaction-eq-read p j)
]
