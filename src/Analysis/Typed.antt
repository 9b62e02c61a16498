-- ===== src/Analysis/Typed.antt =====
-- Statements that the services take without a check (statement-analysis/src/controller.py and
-- business-rule-engine/src/controller.py), by their type: the entries that the code uses, and what it
-- does with each.
use mathlib.Core.Bool.{false≢true}
use text.Mathlib.TextEquality.{eq_iff}
use fiu_data_governance.Prelude.{
  ◌≡◌, refl, ap, ◌∙◌, inl, inr, Bool-cases, String, List, [], ◌∷◌, ◌++◌, All, map, if◌then◌else◌, ℕ,
}
use fiu_data_governance.Prelude.Int.{pos, ◌+ℤ◌, ltb_ℤ}
use fiu_data_governance.Python.Errors.{ok}
use fiu_data_governance.Python.Json.{Json, str, array, items, elements, py_eq}
use fiu_data_governance.Python.Subscript.{index, put_item, add_to}
use fiu_data_governance.Python.Schema.{
  Schema, any, string, whole, readable, filled, dict, no_more, entry, HasType, HasEntries,
}
use fiu_data_governance.Analysis.{
  Flow, flow_json, Progress, turn_day, add_transaction, add_transactions, first_day, aggregate,
  aggregate_statements,
}
use fiu_data_governance.Analysis.Keeps.{index-put_item_ne, index-put_item_self}
use fiu_data_governance.Scoring.{compute_score}

abbrev pub transaction_type : Schema
transaction_type = dict (
    entry "valueDate" string
      (entry "type" any (entry "amount" whole (entry "currentBalance" readable no_more))))

-- An entry of the daily totals.
abbrev pub flow_type : Schema
flow_type = dict (
    entry "txnDate" string (
      entry "totalCredit" whole
        (entry "totalDebit" whole (entry "closingBalance" readable no_more))))

-- Statements with elements of a type for transactions.
abbrev pub statements_type : Schema → Schema
statements_type σ = dict (
    entry "Summary" (dict (entry "currentBalance" readable no_more))
      (entry "Transactions" (dict (entry "Transaction" (filled σ) no_more)) no_more))

abbrev IsDay : Flow → Type 0
IsDay f = HasType string f.txn_date × HasType readable f.closing_balance

abbrev IsTyped : Progress → Type 0
IsTyped p = All IsDay p.cash_flow_txns × IsDay p.day

IsDay-append : (fs : List Flow) (f : Flow) → All IsDay fs → IsDay f → All IsDay (fs ++ f ∷ [])
IsDay-append [] f hs h = (h, tt)
IsDay-append (g ∷ fs) f (k, hs) h = (k, IsDay-append fs f hs h)

turn_day-IsTyped :
    (p : Progress) (date : Json) → HasType string date → IsTyped p → IsTyped (turn_day p date)
unfolding turn_day
turn_day-IsTyped p date h (hs, d) = elim (Bool-cases (py_eq p.day.txn_date date)) [
  | inl same ↦ rw same (hs, d)
  | inr differ ↦ rw differ (IsDay-append p.cash_flow_txns p.day hs d, (h, d.1))
]

-- One round of the loop does not raise.
add_transaction-IsTyped :
    (p : Progress) (j : Json)
    → HasType transaction_type j
    → IsTyped p
    → (q : Progress) × (add_transaction p j ≡ ok q) × IsTyped q
unfolding add_transaction HasType HasEntries
add_transaction-IsTyped p j
      ((date, d, t), ((kind, k, _), ((amount, a, (n, i)), ((balance, b, r), _)))) h =
    let (hs, day) = turn_day-IsTyped p date t h in
    let q = turn_day p date in
    elim (Bool-cases (py_eq kind (str "CREDIT"))) [
      | inl credit ↦
          let total = q.day.total_credit +ℤ n in
          (
            record q { day = record q.day { total_credit = total; closing_balance = balance } },
            rw (d, k, a, b, credit, add_to, i),
            (hs, (day.0, r)),
          )
      | inr debit ↦
          let total = q.day.total_debit +ℤ n in
          (
            record q { day = record q.day { total_debit = total; closing_balance = balance } },
            rw (d, k, a, b, debit, add_to, i),
            (hs, (day.0, r)),
          )
    ]

add_transactions-IsTyped :
    (p : Progress) (js : List Json)
    → All (HasType transaction_type) js
    → IsTyped p
    → (q : Progress) × (add_transactions p js ≡ ok q) × IsTyped q
unfolding add_transactions
add_transactions-IsTyped p [] hs h = (p, refl, h)
add_transactions-IsTyped p (j ∷ js) (t, ts) h =
    let (q, e, h') = add_transaction-IsTyped p j t h in
    let (r, e', h'') = add_transactions-IsTyped q js ts h' in (r, rw e e', h'')

elements-items : (js : List Json) → elements (items js) ≡ js
elements-items [] = refl
elements-items (j ∷ js) = ap (λ r. j ∷ r) (elements-items js)

-- Transactions that are typed are added up without an error.
aggregate-IsDay :
    (j : Json)
    → HasType (filled transaction_type) j
    → (f : Flow) × (fs : List Flow) × (aggregate j ≡ ok (fs ++ f ∷ [])) × All IsDay fs × IsDay f
unfolding HasType HasEntries aggregate
aggregate-IsDay j (head, rest, e, t, ts) =
    let ((date, d, s), _) = t in
    let (q, run, (hs, h)) =
      add_transactions-IsTyped (first_day date) (head ∷ rest) (t, ts) (tt, (s, (pos 0, refl))) in
    (q.day, q.cash_flow_txns, rw (e, elements-items rest, d, run) refl, hs, h)

IsDay-typed : (f : Flow) → IsDay f → HasType flow_type (flow_json f)
unfolding HasType HasEntries
IsDay-typed f (date, balance) = (
  (f.txn_date, refl, date),
  ((_, refl, (f.total_credit, refl)), ((_, refl, (f.total_debit, refl)), ((_, refl, balance), tt))),
)

All-flow_json : (fs : List Flow) → All IsDay fs → All (HasType flow_type) (map flow_json fs)
All-flow_json [] h = tt
All-flow_json (f ∷ fs) (h, hs) = (IsDay-typed f h, All-flow_json fs hs)

flows-HasType :
    (fs : List Flow) (f : Flow)
    → All IsDay fs
    → IsDay f
    → HasType (filled flow_type) (array (map flow_json (fs ++ f ∷ [])))
unfolding HasType
flows-HasType [] f hs h = (flow_json f, [], refl, IsDay-typed f h, tt)
flows-HasType (g ∷ fs) f (k, hs) h = (
  flow_json g,
  map flow_json (fs ++ f ∷ []),
  refl,
  IsDay-typed g k,
  All-flow_json (fs ++ f ∷ []) (IsDay-append fs f hs h),
)

-- A value with an entry takes another one.
put_item-returns :
    (j v w : Json) (k l : String)
    → index j k ≡ ok v
    → (j' : Json) × (put_item j l w ≡ ok j') × (index j' l ≡ ok w)
put_item-returns (Json.obj fs) v w k l h = (_, refl, index-put_item_self (Json.obj fs) w _ l refl)
put_item-returns Json.null v w k l h = cc
put_item-returns (Json.bool b) v w k l h = cc
put_item-returns (Json.num n) v w k l h = cc
put_item-returns (Json.str s) v w k l h = cc
put_item-returns (Json.arr xs) v w k l h = cc

-- Statements that are typed, with at least one transaction, are aggregated and scored without an
-- error: the result of the aggregation has daily entries for its transactions, and has the type again
-- otherwise, and a score is computed from it.
pub aggregate_statements-HasType :
    (statements : Json)
    → HasType (statements_type transaction_type) statements
    → (aggregated : Json) × (score : ℕ) × (aggregate_statements statements ≡ ok aggregated)
      × HasType (statements_type flow_type) aggregated
      × (compute_score aggregated ≡ ok score)
unfolding aggregate_statements HasType HasEntries compute_score
aggregate_statements-HasType statements typed =
    let ((summary, s, ((balance, b, n), _)), ((holder, h, ((transactions, t, ts), _)), _)) =
      typed in
    let (f, fs, run, days, day) = aggregate-IsDay transactions ts in
    let flows = array (map flow_json (fs ++ f ∷ [])) in
    let (holder', e, at) =
      put_item-returns holder transactions flows "Transaction" "Transaction" t in
    let (statements', e', at') =
      put_item-returns statements holder holder' "Transactions" "Transactions" h in
    let same : index statements' "Summary" ≡ ok summary =
      index-put_item_ne statements holder' statements' "Transactions" "Summary" e'
        (λ p. false≢true ((eq_iff "Transactions" "Summary").1 p))
      ∙ s in
    (
      statements',
      (if ltb_ℤ (pos 100000) n.0 then 82 else 41),
      rw (h, t, run, e, e'),
      (
        (summary, same, ((balance, b, n), tt)),
        ((holder', at', ((flows, at, flows-HasType fs f days day), tt)), tt),
      ),
      rw (same, b, n.1) refl,
    )
