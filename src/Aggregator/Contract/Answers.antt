-- ===== src/Aggregator/Contract/Answers.antt =====
-- A consent that the account aggregator has answered for is in its book
-- (account-aggregator/src/main.py, process_consent; controller.py, handle_consent).
use fiu_data_governance.Prelude.{◌≡◌, ap, sym, false, inl, inr, some, string_eq}
use fiu_data_governance.Host.{Host, Sys, ◌>>=◌}
use fiu_data_governance.Python.Errors.{ok, ok_inj, Result-cases}
use fiu_data_governance.Python.Json.{Json, str}
use fiu_data_governance.Python.Subscript.{index}
use fiu_data_governance.Aggregator.{Aggregator}
use fiu_data_governance.Aggregator.Consent.{handle_consent, store_consent}
use fiu_data_governance.Aggregator.Routes.{process_consent}
use fiu_data_governance.Aggregator.Invariant.Handlers.{HasConsistentTables}
use fiu_data_governance.Aggregator.Contract.{book, IsUnused}
use fiu_data_governance.Aggregator.Contract.Writes.{book_of-insert_self}
use fiu_data_governance.Aggregator.Contract.Writers.{unused_unsigned}

module _ {W : Type 0} (host : Host W) (request : Json) (s : Sys Aggregator W) where
  -- The answer names a handle, under which the book has the consent that was asked for, as pending.
  abbrev pub IsPending : Json → Type 0
  IsPending answer =
      let (consent_handle, w) = host.uuid4 s.world in
      (txn_id detail : Json) × (index request "txnid" ≡ ok txn_id)
      × (index request "ConsentDetail" ≡ ok detail)
      × (index answer "ConsentHandle" ≡ ok (str consent_handle))
      × (index answer "txnid" ≡ ok txn_id)
      × (book (process_consent host request s).1.self consent_handle
          ≡ some (record {
            txn_id = txn_id;
            consent_id = (host.uuid4 w).0;
            claims = detail;
            ready = false;
          }))

  -- In a state with consistent tables, and with an id for the new consent that is not in use: when the
  -- route of a new consent returns, its answer has the transaction id of the request and a handle, under
  -- which the book has a pending consent with this transaction id, the new id, and the consent detail
  -- of the request as its claims.
  pub process_consent-IsPending :
      (answer : Json)
      → HasConsistentTables host s.self
      → IsUnused (host.uuid4 (host.uuid4 s.world).1).0 s.self.consent_handles
      → (process_consent host request s).0 ≡ ok answer
      → IsPending answer
  unfolding process_consent handle_consent store_consent ◌>>=◌
  process_consent-IsPending answer c unused r =
      let (h, w) = host.uuid4 s.world in
      let id = (host.uuid4 w).0 in
      let unsigned = unused_unsigned host id s.self c unused in
      elim (Result-cases (index request "txnid")) [
        | inr (x, e1) ↦ absurd (cc (rw e1 at r))
        | inl (txn_id, e1) ↦ elim (Result-cases (index request "ConsentDetail")) [
          | inr (x, e2) ↦ absurd (cc (rw (e1, e2) at r))
          | inl (detail, e2) ↦ elim (Result-cases (index detail "Customer")) [
            | inr (x, e3) ↦ absurd (cc (rw (e1, e2, e3) at r))
            | inl (customer, e3) ↦ elim (Result-cases (index customer "id")) [
              | inr (x, e4) ↦ absurd (cc (rw (e1, e2, e3, e4) at r))
              | inl (customer_id, e4) ↦
                  let built = ok_inj (rw (e1, e2, e3, e4) at r) in
                  (
                    txn_id,
                    detail,
                    e1,
                    e2,
                    sym (ap (λ a. index a "ConsentHandle") built),
                    sym (ap (λ a. index a "txnid") built),
                    rw (e1, e2, e3, e4)
                        (book_of-insert_self s.self.consent_handles s.self.consent_claims
                          s.self.consent_artifacts h txn_id detail id unsigned),
                  )
            ]
          ]
        ]
      ]
