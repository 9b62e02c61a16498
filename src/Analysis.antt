-- ===== src/Analysis.antt =====
-- The statement analysis (SA) service, samples/aa-flow-based-lending/src/statement-analysis/src:
-- controller.py and the route of main.py. The service keeps no state. The loop over the
-- transactions is `aggregate`, one round of it `add_transaction`.
pub mod Main
pub mod Transactions
pub mod Spec
pub mod Refines
pub mod Totals
pub mod Days
pub mod Keeps
pub mod Service
pub mod Typed
use fiu_data_governance.Prelude.{List, [], ◌∷◌, ◌++◌, map, if◌then◌else◌}
use fiu_data_governance.Prelude.Int.{ℤ, pos}
use fiu_data_governance.Python.Errors.{Result, ok, ◌>>=◌}
use fiu_data_governance.Python.Json.{Json, num, str, array, object, py_eq}
use fiu_data_governance.Python.Subscript.{index, first, iterate, put_item, add_to}

-- One entry of `cash_flow_txns`.
pub record Flow : Type 0 where
  pub txn_date : Json
  pub total_credit : ℤ
  pub total_debit : ℤ
  pub closing_balance : Json

abbrev pub flow_json : Flow → Json
flow_json f = object (
    ("txnDate", f.txn_date)
    ∷ ("totalCredit", num f.total_credit)
    ∷ ("totalDebit", num f.total_debit)
    ∷ ("closingBalance", f.closing_balance)
    ∷ [])

-- The variables of the loop: the entries so far, and those of the day that is being added up.
pub record Progress : Type 0 where
  pub cash_flow_txns : List Flow
  pub day : Flow

-- What the test for a new date leaves: the day before is entered, and the totals start again. The
-- closing balance is not reset.
unfoldable pub turn_day : Progress → Json → Progress
turn_day p value_date = if py_eq p.day.txn_date value_date then p else record {
  cash_flow_txns = p.cash_flow_txns ++ p.day ∷ [];
  day = record p.day { txn_date = value_date; total_credit = pos 0; total_debit = pos 0 };
}

-- The body of the loop.
unfoldable pub add_transaction : Progress → Json → Result Progress
unfolding turn_day
add_transaction p transaction = do
  value_date ← index transaction "valueDate"
  let q = turn_day p value_date
  kind ← index transaction "type"
  amount ← index transaction "amount"
  if py_eq kind (str "CREDIT")
      then (do
        total ← add_to q.day.total_credit amount
        balance ← index transaction "currentBalance"
        ok (record q { day = record q.day { total_credit = total; closing_balance = balance } }))
      else (do
        total ← add_to q.day.total_debit amount
        balance ← index transaction "currentBalance"
        ok (record q { day = record q.day { total_debit = total; closing_balance = balance } }))

unfoldable pub add_transactions : Progress → List Json → Result Progress
add_transactions p [] = ok p
add_transactions p (t ∷ ts) = do q ← add_transaction p t; add_transactions q ts

-- The variables before the loop.
abbrev pub first_day : Json → Progress
first_day current_date = record {
  cash_flow_txns = [];
  day = record {
    txn_date = current_date;
    total_credit = pos 0;
    total_debit = pos 0;
    closing_balance = num (pos 0);
  };
}

-- From the list of transactions to `cash_flow_txns`, with the entry after the loop.
unfoldable pub aggregate : Json → Result (List Flow)
unfolding add_transactions
aggregate transactions = do
  head ← first transactions
  current_date ← index head "valueDate"
  ts ← iterate transactions
  p ← add_transactions (first_day current_date) ts
  ok (p.cash_flow_txns ++ p.day ∷ [])

-- `statements` with its transactions replaced by their daily entries.
unfoldable pub aggregate_statements : Json → Result Json
aggregate_statements statements = do
  holder ← index statements "Transactions"
  transactions ← index holder "Transaction"
  flows ← aggregate transactions
  holder' ← put_item holder "Transaction" (array (map flow_json flows))
  put_item statements "Transactions" holder'
