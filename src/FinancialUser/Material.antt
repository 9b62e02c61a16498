-- ===== src/FinancialUser/Material.antt =====
-- The key material of the clean room at the financial information user
-- (financial-information-user/src/controller.py, start_workflow): one global for all transactions.
use fiu_data_governance.Prelude.{◌≡◌, ◌≢◌, ◌∙◌, refl, ap, sym, String, some, string_eq, arith}
use fiu_data_governance.Prelude.Dict.{Dict, lookup, insert, lookup-insert, lookup-insert_self}
use fiu_data_governance.Host.{Host, Sys, lift, ◌>>=◌, >>=-returns}
use fiu_data_governance.Host.Effects.Keeps.{Keeps, keeps_rules}
use fiu_data_governance.Client.Failures.{get_json_request-Keeps}
use fiu_data_governance.Python.Errors.{ok, Result, ok_inj}
use fiu_data_governance.Python.Json.{Json}
use fiu_data_governance.Python.Key.{Key, text, key_eq}
use fiu_data_governance.Python.Subscript.{index}
use fiu_data_governance.FinancialUser.{FinancialUser}
use fiu_data_governance.FinancialUser.Handlers.{get_ccr_public_key, open_transaction}

-- What a transaction that is opened takes from the clean room's answer and leaves in the globals.
pub record Opens (s t : FinancialUser) (answer : Json) (txn_id : String) : Type 0 where
  pub ccr_txn_id : Json
  pub given : index answer "txnid" ≡ ok ccr_txn_id
  pub material : index answer "KeyMaterial" ≡ ok t.ccr_public_key_material
  pub kept : t.txn_ids ≡ insert (text txn_id) ccr_txn_id s.txn_ids

module _ {W : Type 0} (host : Host W) where
  -- The transaction that is opened with an answer of the clean room.
  abbrev opened : Json → Json → Sys FinancialUser W → Result String × Sys FinancialUser W
  opened ccr_txn_id material s =
      let (txn_id, w) = host.uuid4 s.world in
      (
        ok txn_id,
        record {
          self = record s.self {
            ccr_public_key_material = material;
            txn_ids = insert (text txn_id) ccr_txn_id s.self.txn_ids;
          };
          world = w;
        },
      )

  open_transaction-opened :
      (s : Sys FinancialUser W) (answer ccr_txn_id material : Json)
      → (get_ccr_public_key host s).0 ≡ ok answer
      → index answer "txnid" ≡ ok ccr_txn_id
      → index answer "KeyMaterial" ≡ ok material
      → open_transaction host s ≡ opened ccr_txn_id material (get_ccr_public_key host s).1
  unfolding open_transaction ◌>>=◌
  open_transaction-opened s answer ccr_txn_id material e1 e2 e3 = rw (e1, e2, e3) refl

  open_transaction-Opens :
      (s : Sys FinancialUser W) (txn_id : String)
      → (open_transaction host s).0 ≡ ok txn_id
      → (answer : Json) × ((get_ccr_public_key host s).0 ≡ ok answer)
        × Opens (get_ccr_public_key host s).1.self (open_transaction host s).1.self answer txn_id
  unfolding open_transaction lift
  open_transaction-Opens s txn_id h =
      let (answer, e1, h1) = >>=-returns (get_ccr_public_key host) _ s h in
      let s' = (get_ccr_public_key host s).1 in
      let (ccr_txn_id, e2, h2) = >>=-returns (lift (index answer "txnid")) _ s' h1 in
      let (material, e3, h3) = >>=-returns (lift (index answer "KeyMaterial")) _ s' h2 in
      let all = open_transaction-opened s answer ccr_txn_id material e1 e2 e3 in
      let named = ok_inj (sym (ap (λ r. r.0) all) ∙ h) in
      let self = ap (λ r. r.1.self) all in
      (
        answer,
        e1,
        record {
          ccr_txn_id = ccr_txn_id;
          given = e2;
          material = e3 ∙ ap ok (sym (ap (λ u. u.ccr_public_key_material) self));
          kept =
              ap (λ u. u.txn_ids) self ∙ ap (λ n. insert (text n) ccr_txn_id s'.self.txn_ids) named;
        },
      )

  get_ccr_public_key-Keeps : {P : FinancialUser → Type 0} → Keeps P (get_ccr_public_key host)
  unfolding get_ccr_public_key
  get_ccr_public_key-Keeps = search (keeps_rules, get_json_request-Keeps) depth 20

  self-get_ccr_public_key : (s : Sys FinancialUser W) → (get_ccr_public_key host s).1.self ≡ s.self
  self-get_ccr_public_key s = (get_ccr_public_key-Keeps {P = λ a. a ≡ s.self}).at s refl

  lookup-insert_other :
      (a b : String) (v : Json) (d : Dict Key Json)
      → a ≢ b
      → lookup (text a) (insert (text b) v d) ≡ lookup (text a) d
  lookup-insert_other a b v d differ =
      ground (arith, lookup-insert (text b) (text a) v d, string_eq.beq_iff b a)

  -- If two transactions with different ids are opened, and the ids of the clean room are not written
  -- in between, then after the second one each of the two still has its own id of the clean room, but
  -- the key material is that of the second.
  pub material-open_transaction :
      (s u : Sys FinancialUser W) (a b : String)
      → (open_transaction host s).0 ≡ ok a
      → (open_transaction host u).0 ≡ ok b
      → u.self.txn_ids ≡ (open_transaction host s).1.self.txn_ids
      → a ≢ b
      → let t = (open_transaction host u).1.self in
        (first second ccr_a ccr_b : Json) × ((get_ccr_public_key host s).0 ≡ ok first)
        × ((get_ccr_public_key host u).0 ≡ ok second)
        × (index first "txnid" ≡ ok ccr_a)
        × (index second "txnid" ≡ ok ccr_b)
        × (lookup (text a) t.txn_ids ≡ some ccr_a)
        × (lookup (text b) t.txn_ids ≡ some ccr_b)
        × (index second "KeyMaterial" ≡ ok t.ccr_public_key_material)
  material-open_transaction s u a b ha hb same differ =
      let (first, e1, one) = open_transaction-Opens s a ha in
      let (second, e2, two) = open_transaction-Opens u b hb in
      let u' = (get_ccr_public_key host u).1.self in
      let s' = (get_ccr_public_key host s).1.self in
      let before = ap (λ x. x.txn_ids) (self-get_ccr_public_key u) ∙ same ∙ one.kept in
      let find = λ (k : Key) (d : Dict Key Json). lookup k d in
      (
        first,
        second,
        one.ccr_txn_id,
        two.ccr_txn_id,
        e1,
        e2,
        one.given,
        two.given,
        ap (find (text a)) two.kept
            ∙ lookup-insert_other a b two.ccr_txn_id u'.txn_ids differ
            ∙ ap (find (text a)) before
            ∙ lookup-insert_self (text a) one.ccr_txn_id s'.txn_ids,
        ap (find (text b)) two.kept ∙ lookup-insert_self (text b) two.ccr_txn_id u'.txn_ids,
        two.material,
      )
