-- ===== src/Generator/Scored.antt =====
-- Generated statements (generate_savings_transactions.py) in the services: the statement analysis
-- (statement-analysis/src/controller.py) aggregates them and the business rule engine
-- (business-rule-engine/src/controller.py) scores them.
use fiu_data_governance.Prelude.{
  ℕ, ◌≡◌, ◌∙◌, refl, ap, String, List, [], ◌∷◌, ◌++◌, map, if◌then◌else◌, string_eq,
}
use fiu_data_governance.Prelude.Int.{ℤ, pos, ◌+ℤ◌, ltb_ℤ}
use fiu_data_governance.Python.Errors.{ok, map_result, >>=-eq-ok}
use fiu_data_governance.Python.Json.{Json, items, elements, array}
use fiu_data_governance.Analysis.{Flow, flow_json, aggregate, aggregate_statements}
use fiu_data_governance.Analysis.Spec.{sum_of, daily_report}
use fiu_data_governance.Analysis.Transactions.{Txn, read_transaction, read_transactions}
use fiu_data_governance.Analysis.Refines.{aggregate-eq-expected_flows}
use fiu_data_governance.Scoring.{compute_score}
use fiu_data_governance.Generator.{
  Draw, Progress, opening, document, entry, add_draw, add_draws, generate, balance_after,
  date_after,
}
use fiu_data_governance.Generator.Balance.{change, balance-add_draws}

-- Entries that the statement analysis can read.
AreRead : List Json → Type 0
AreRead js = (ts : List Txn) × (read_transactions js ≡ ok ts)

AreRead-append :
    (js : List Json) (j : Json) (t : Txn)
    → read_transaction j ≡ ok t
    → AreRead js
    → AreRead (js ++ j ∷ [])
unfolding AreRead read_transactions
AreRead-append [] j t e h = (t ∷ [], rw e refl)
AreRead-append (k ∷ js) j t e (ts, read) =
    let (u, e1, rest) = >>=-eq-ok (read_transaction k) _ read in
    let (us, e2, _) = >>=-eq-ok (read_transactions js) _ rest in
    let (vs, e3) = AreRead-append js j t e (us, e2) in (u ∷ vs, rw (e1, e3) refl)

abbrev IsFilled : List Json → Type 0
IsFilled [] = ⊥
IsFilled (j ∷ js) = Unit

IsFilled-append : (js : List Json) (j : Json) → IsFilled (js ++ j ∷ [])
IsFilled-append [] j = tt
IsFilled-append (k ∷ js) j = tt

elements-items : (js : List Json) → elements (items js) ≡ js
elements-items [] = refl
elements-items (j ∷ js) = ap (λ r. j ∷ r) (elements-items js)

aggregate-AreRead :
    (js : List Json)
    → IsFilled js
    → AreRead js
    → (flows : List Flow) × (aggregate (array js) ≡ ok flows)
unfolding AreRead
aggregate-AreRead [] f h = absurd f
aggregate-AreRead (j ∷ js) f (ts, read) = (
  daily_report ts,
  aggregate-eq-expected_flows (items (j ∷ js))
      ∙ ap (λ r. map_result daily_report (read_transactions (j ∷ r))) (elements-items js)
      ∙ ap (map_result daily_report) read,
)

aggregate_statements-document :
    (balance : ℤ) (js : List Json) (flows : List Flow)
    → aggregate (array js) ≡ ok flows
    → aggregate_statements (document balance js) ≡ ok (document balance (map flow_json flows))
unfolding aggregate_statements
aggregate_statements-document balance js flows e = rw e refl

compute_score-document :
    (balance : ℤ) (js : List Json)
    → compute_score (document balance js) ≡ ok (if ltb_ℤ (pos 100000) balance then 82 else 41)
unfolding compute_score
compute_score-document balance js = refl

module _ (date_text : ℕ → String) (datetime_text : ℕ → ℕ → ℕ → ℕ → ℕ → String) where
  read-entry :
      (date : ℕ) (balance : ℤ) (d : Draw)
      → (t : Txn) × (read_transaction (entry date_text datetime_text date balance d) ≡ ok t)
  unfolding read_transaction
  read-entry date balance d = (_, refl)

  AreRead-add_draws :
      (p : Progress) (ds : List Draw)
      → AreRead p.entries
      → AreRead (add_draws date_text datetime_text p ds).entries
  unfolding add_draws
  AreRead-add_draws p [] h = h
  AreRead-add_draws p (d ∷ ds) h =
      let balance = balance_after p.curr_balance d in
      let (t, e) = read-entry (date_after p.i p.date) balance d in
      AreRead-add_draws (add_draw date_text datetime_text p d) ds (AreRead-append p.entries _ t e h)

  IsFilled-add_draws :
      (p : Progress) (ds : List Draw)
      → IsFilled p.entries
      → IsFilled (add_draws date_text datetime_text p ds).entries
  unfolding add_draws
  IsFilled-add_draws p [] h = h
  IsFilled-add_draws p (d ∷ ds) h =
      IsFilled-add_draws (add_draw date_text datetime_text p d) ds (IsFilled-append p.entries _)

  -- Statements that are generated from at least one draw are aggregated without an error, and their
  -- score is 82 if the opening balance of 500000, plus the credits and minus the debits drawn, is above
  -- 100000, and 41 otherwise.
  pub compute_score-generate :
      (d : Draw) (ds : List Draw)
      → (aggregated : Json) × (aggregate_statements (generate date_text datetime_text (d ∷ ds))
          ≡ ok aggregated)
        × (compute_score aggregated
            ≡ ok (if ltb_ℤ (pos 100000) (pos 500000 +ℤ sum_of change (d ∷ ds)) then 82 else 41))
  unfolding generate add_draws AreRead
  compute_score-generate d ds =
      let first = add_draw date_text datetime_text opening d in
      let p = add_draws date_text datetime_text first ds in
      let balance = balance-add_draws date_text datetime_text opening (d ∷ ds) in
      let read = AreRead-add_draws opening (d ∷ ds) ([], unfold read_transactions in refl) in
      let filled = IsFilled-add_draws first ds tt in
      let (flows, e) = aggregate-AreRead p.entries filled read in
      (
        document p.curr_balance (map flow_json flows),
        aggregate_statements-document p.curr_balance p.entries flows e,
        compute_score-document p.curr_balance (map flow_json flows)
            ∙ ap (λ b. ok (if ltb_ℤ (pos 100000) b then 82 else 41)) balance,
      )
