-- ===== src/FinancialUser/Artifacts.antt =====
-- The tables of the financial information user that are keyed by consent transactions
-- (financial-information-user/src, controller.py and main.py): in every state that requests and task
-- runs lead to, an entry stands under its own transaction id.
use mathlib.Core.Path.{subst₂}
use fiu_data_governance.Prelude.{false, ◌≡◌, refl, inl, inr, String, some, List}
use fiu_data_governance.Prelude.Dict.{Dict, lookup, insert, lookup-insert-cases}
use fiu_data_governance.Host.{Host, modify}
use fiu_data_governance.Host.Effects.Keeps.{
  Keeps, Keeps-bind, Keeps-lift, Keeps-gets, Keeps-ask, Keeps-modify, Keeps-lift-then, keeps_rules,
}
use fiu_data_governance.Client.Failures.{post_json_request-Keeps, get_json_request-Keeps}
use fiu_data_governance.Python.Errors.{ok}
use fiu_data_governance.Python.Json.{Json, str}
use fiu_data_governance.Python.Key.{Key, text, key_of, key_eq}
use fiu_data_governance.Python.Subscript.{index}
use fiu_data_governance.FinancialUser.{FinancialUser, Task}
use fiu_data_governance.FinancialUser.Requests.{consent_request-inv}
use fiu_data_governance.FinancialUser.Handlers.{
  get_ccr_public_key, open_transaction, start_workflow, handle_consent_notification, assemble,
  prepare_process_request, handle_fi_notification,
}

-- A value has a transaction id, and the key is that of the id.
abbrev pub IsOf : Key → Json → Type 0
IsOf key value = (txn_id : Json) × (index value "txnid" ≡ ok txn_id) × (key_of txn_id ≡ ok key)

abbrev pub IsKeyed : Dict Key Json → Type 0
IsKeyed d = (key : Key) (value : Json) → lookup key d ≡ some value → IsOf key value

pub record HasKeyedTables (s : FinancialUser) : Type 0 where
  pub requests_keyed : IsKeyed s.consent_requests
  pub artifacts_keyed : IsKeyed s.consent_artifacts

IsKeyed-insert :
    (key : Key) (value : Json) (d : Dict Key Json)
    → IsKeyed d
    → IsOf key value
    → IsKeyed (insert key value d)
IsKeyed-insert key value d old new k v h = elim (lookup-insert-cases key k value v d h) [
  | inl (same, equal) ↦ subst₂ IsOf same equal new
  | inr before ↦ old k v before
]

module _ {W : Type 0} where
  store_request-Keeps :
      (txn_id : String) (request : Json)
      → IsOf (text txn_id) request
      → Keeps {W = W} HasKeyedTables (
          modify
            (λ s. record s { consent_requests = insert (text txn_id) request s.consent_requests }))
  store_request-Keeps txn_id request own = Keeps-modify _ (λ s h. record {
    requests_keyed = IsKeyed-insert (text txn_id) request s.consent_requests h.requests_keyed own;
    artifacts_keyed = h.artifacts_keyed;
  })

  store_artifact-Keeps :
      (key : Key) (artifact : Json)
      → IsOf key artifact
      → Keeps {W = W} HasKeyedTables
          (modify (λ s. record s { consent_artifacts = insert key artifact s.consent_artifacts }))
  store_artifact-Keeps key artifact own = Keeps-modify _ (λ s h. record {
    requests_keyed = h.requests_keyed;
    artifacts_keyed = IsKeyed-insert key artifact s.consent_artifacts h.artifacts_keyed own;
  })

  -- Writes to the other globals.
  material-Keeps :
      (material : Json)
      → Keeps {W = W} HasKeyedTables (modify (λ s. record s { ccr_public_key_material = material }))
  material-Keeps material =
      Keeps-modify _
        (λ s h. record { requests_keyed = h.requests_keyed; artifacts_keyed = h.artifacts_keyed })

  txn_ids-Keeps :
      (key : Key) (ccr_txn_id : Json)
      → Keeps {W = W} HasKeyedTables
          (modify (λ s. record s { txn_ids = insert key ccr_txn_id s.txn_ids }))
  txn_ids-Keeps key ccr_txn_id =
      Keeps-modify _
        (λ s h. record { requests_keyed = h.requests_keyed; artifacts_keyed = h.artifacts_keyed })

  pub tasks-Keeps :
      (f : List Task → List Task)
      → Keeps {W = W} HasKeyedTables (modify (λ s. record s { tasks = f s.tasks }))
  tasks-Keeps f =
      Keeps-modify _
        (λ s h. record { requests_keyed = h.requests_keyed; artifacts_keyed = h.artifacts_keyed })

  pub url_bre-Keeps :
      (url : String) → Keeps {W = W} HasKeyedTables (modify (λ s. record s { url_bre = url }))
  url_bre-Keeps url =
      Keeps-modify _
        (λ s h. record { requests_keyed = h.requests_keyed; artifacts_keyed = h.artifacts_keyed })

module _ {W : Type 0} (host : Host W) where
  get_ccr_public_key-Keeps : Keeps HasKeyedTables (get_ccr_public_key host)
  unfolding get_ccr_public_key
  get_ccr_public_key-Keeps = search (keeps_rules, get_json_request-Keeps) depth 20

  open_transaction-Keeps : Keeps HasKeyedTables (open_transaction host)
  unfolding open_transaction
  open_transaction-Keeps =
      search (keeps_rules, get_ccr_public_key-Keeps, material-Keeps, txn_ids-Keeps) depth 20

  pub start_workflow-Keeps :
      (data_json : Json) → Keeps HasKeyedTables (start_workflow host data_json)
  unfolding start_workflow
  start_workflow-Keeps data_json = Keeps-bind _ _ open_transaction-Keeps (λ txn_id.
      Keeps-bind _ _ (Keeps-ask _) (λ timestamp. Keeps-lift-then _ _ (λ request made.
        let (detail, customer_id, own, _, _, _) =
          consent_request-inv timestamp txn_id data_json request made in
        Keeps-bind _ _ (Keeps-gets _) (λ url_aa.
          Keeps-bind _ _ (post_json_request-Keeps host false url_aa _ _) (λ reply.
            Keeps-bind _ _ (Keeps-lift _) (λ consent. Keeps-bind _ _ (Keeps-lift _) (λ value.
              Keeps-bind _ _ (Keeps-lift _) (λ consent_handle.
                Keeps-bind _ _ (get_json_request-Keeps host false url_aa _ _) (λ reply'.
                  Keeps-bind _ _ (Keeps-lift _) (λ consent_status.
                    store_request-Keeps txn_id request (str txn_id, own, refl)))))))))))

  pub handle_consent_notification-Keeps :
      (request : Json) → Keeps HasKeyedTables (handle_consent_notification host request)
  unfolding handle_consent_notification
  handle_consent_notification-Keeps request = Keeps-bind _ _ (Keeps-lift _) (λ notification.
      Keeps-bind _ _ (Keeps-lift _) (λ value. Keeps-bind _ _ (Keeps-lift _) (λ consent_id.
        Keeps-bind _ _ (Keeps-gets _) (λ url_aa.
          Keeps-bind _ _ (get_json_request-Keeps host false url_aa _ _) (λ reply.
            Keeps-bind _ _ (Keeps-lift _) (λ artifact. Keeps-lift-then _ _ (λ txn_id own.
              Keeps-lift-then _ _ (λ key of_id.
                Keeps-bind _ _ (store_artifact-Keeps key artifact (txn_id, own, of_id))
                  (λ _. search (keeps_rules, post_json_request-Keeps) depth 20)))))))))

  pub handle_fi_notification-Keeps :
      (request : Json) → Keeps HasKeyedTables (handle_fi_notification host request)
  unfolding handle_fi_notification prepare_process_request assemble
  handle_fi_notification-Keeps request =
      search (keeps_rules, post_json_request-Keeps, get_json_request-Keeps) depth 40
