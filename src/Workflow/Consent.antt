-- ===== src/Workflow/Consent.antt =====
-- The consent request of the financial information user at the account aggregator
-- (financial-information-user/src/controller.py, start_workflow; account-aggregator/src/controller.py,
-- handle_consent).
use fiu_data_governance.Prelude.{◌≡◌, String, some, string_eq}
use fiu_data_governance.Python.Errors.{ok}
use fiu_data_governance.Python.Json.{Json, str}
use fiu_data_governance.Python.Subscript.{index}
use fiu_data_governance.Prelude.Dict.{lookup, lookup-insert_self}
use fiu_data_governance.Host.{Host, Sys, ◌>>=◌}
use fiu_data_governance.Aggregator.{Aggregator}
use fiu_data_governance.Aggregator.Messages.{consent_response}
use fiu_data_governance.Aggregator.Consent.{store_consent, handle_consent}
use fiu_data_governance.FinancialUser.Messages.{consent_request, nested}
use fiu_data_governance.FinancialUser.Requests.{consent_request-inv}

module _ {W : Type 0} (host : Host W) where
  -- The account aggregator accepts every consent request that the FIU can build: it answers with the
  -- request's transaction id, the customer of the user's data and the new handle, and keeps under that
  -- handle the transaction id with a new consent id, and the request's consent detail as claims.
  pub handle_consent-consent_request :
      (timestamp txn_id consent_handle : String) (data_json request : Json) (s : Sys Aggregator W)
      → consent_request timestamp txn_id data_json ≡ ok request
      → let (answer, t) = handle_consent host consent_handle request s in
        let (consent_id, w) = host.uuid4 s.world in
        (detail customer_id : Json) × (index request "ConsentDetail" ≡ ok detail)
        × (nested data_json "Customer" "id" ≡ ok customer_id)
        × (answer ≡ ok (consent_response (host.now w).0 (str txn_id) customer_id consent_handle))
        × (lookup consent_handle t.self.consent_handles ≡ some (str txn_id, consent_id))
        × (lookup consent_handle t.self.consent_claims ≡ some detail)
  unfolding handle_consent store_consent ◌>>=◌
  handle_consent-consent_request timestamp txn_id consent_handle data_json request s h =
      let (detail, customer_id, e1, e2, e3, e4) =
        consent_request-inv timestamp txn_id data_json request h in
      (
        detail,
        customer_id,
        e2,
        e3,
        rw (e1, e2, e4),
        rw (e1, e2, e4)
            (lookup-insert_self consent_handle (str txn_id, (host.uuid4 s.world).0)
              s.self.consent_handles),
        rw (e1, e2, e4) (lookup-insert_self consent_handle detail s.self.consent_claims),
      )
