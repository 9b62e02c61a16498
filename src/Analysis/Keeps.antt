-- ===== src/Analysis/Keeps.antt =====
-- The aggregation of the statement analysis (controller.py, handle_analyze_statements) replaces the
-- transactions and leaves the rest of the statements alone.
use fiu_data_governance.Prelude.{◌≡◌, ◌≢◌, sym, String, List, map, arith, string_eq}
use fiu_data_governance.Python.Errors.{ok, >>=-eq-ok}
use fiu_data_governance.Python.Json.{Json, array}
use fiu_data_governance.Python.Subscript.{index, put_item, find-put, find-put_self}
use fiu_data_governance.Analysis.{Flow, flow_json, aggregate, aggregate_statements}

pub index-put_item_ne :
    (value v value' : Json) (k j : String)
    → put_item value k v ≡ ok value'
    → k ≢ j
    → index value' j ≡ index value j
index-put_item_ne (Json.obj fs) v value' k j h ne =
    ground (arith, find-put k j v fs, string_eq.beq_iff k j)
index-put_item_ne Json.null v value' k j h ne = cc
index-put_item_ne (Json.bool b) v value' k j h ne = cc
index-put_item_ne (Json.num n) v value' k j h ne = cc
index-put_item_ne (Json.str s) v value' k j h ne = cc
index-put_item_ne (Json.arr xs) v value' k j h ne = cc

pub index-put_item_self :
    (value v value' : Json) (k : String) → put_item value k v ≡ ok value' → index value' k ≡ ok v
index-put_item_self (Json.obj fs) v value' k h = ground (arith, find-put_self k v fs)
index-put_item_self Json.null v value' k h = cc
index-put_item_self (Json.bool b) v value' k h = cc
index-put_item_self (Json.num n) v value' k h = cc
index-put_item_self (Json.str s) v value' k h = cc
index-put_item_self (Json.arr xs) v value' k h = cc

-- If the statements can be aggregated, the result has, for the transactions, the entries of their
-- aggregation as a list, and under any key but "Transactions" what the statements have there.
pub keeps-aggregate_statements :
    (statements aggregated : Json)
    → aggregate_statements statements ≡ ok aggregated
    → (k : String) → k ≢ "Transactions"
    → (holder transactions holder' : Json) × (flows : List Flow) × (index statements "Transactions"
        ≡ ok holder)
      × (index holder "Transaction" ≡ ok transactions)
      × (aggregate transactions ≡ ok flows)
      × (index aggregated "Transactions" ≡ ok holder')
      × (index holder' "Transaction" ≡ ok (array (map flow_json flows)))
      × (index aggregated k ≡ index statements k)
unfolding aggregate_statements
keeps-aggregate_statements statements aggregated h k ne =
    let (holder, e1, h1) = >>=-eq-ok (index statements "Transactions") _ h in
    let (transactions, e2, h2) = >>=-eq-ok (index holder "Transaction") _ h1 in
    let (flows, e3, h3) = >>=-eq-ok (aggregate transactions) _ h2 in
    let (holder', e4, h4) = >>=-eq-ok (put_item holder "Transaction" _) _ h3 in
    (
      holder,
      transactions,
      holder',
      flows,
      e1,
      e2,
      e3,
      index-put_item_self statements holder' aggregated "Transactions" h4,
      index-put_item_self holder _ holder' "Transaction" e4,
      index-put_item_ne statements holder' aggregated "Transactions" k h4 (λ p. ne (sym p)),
    )
