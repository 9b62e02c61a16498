-- ===== src/FinancialUser/Transactions.antt =====
-- The transaction ids of the financial information user (financial-information-user/src/controller.py):
-- what goes to the clean room goes under the id that the clean room gave, with the consent artifact of
-- the same consent transaction.
use Prim.Native.String.{◌++◌ as ◌<>◌}
use mathlib.Core.Path.{subst}
use fiu_data_governance.Prelude.{false, ◌≡◌, ap, sym, String, Option, none, some}
use fiu_data_governance.Prelude.Dict.{lookup}
use fiu_data_governance.Host.{Host, Sys, lift, reads, gets, ask, pure, >>=-returns}
use fiu_data_governance.FinancialUser.Client.{get_json_request}
use fiu_data_governance.Client.Failures.{self-get_json_request}
use fiu_data_governance.Python.Errors.{Exn, ok, ok_inj}
use fiu_data_governance.Python.Json.{Json, null}
use fiu_data_governance.Python.Key.{Key, key_of, key_eq}
use fiu_data_governance.Python.Subscript.{index, text_of, or_raise}
use fiu_data_governance.FinancialUser.{FinancialUser}
use fiu_data_governance.FinancialUser.Messages.{convert_fi_data_to_ccr_json, process_request}
use fiu_data_governance.FinancialUser.Handlers.{assemble, prepare_process_request}

or_raise-eq-ok {ℓ} :
    {A : Type ℓ} (o : Option A) (e : Exn) (a : A) → or_raise o e ≡ ok a → o ≡ some a
or_raise-eq-ok none e a h = cc
or_raise-eq-ok (some b) e a h = ap some (ok_inj h)

-- The body of a request to the clean room, prepared for a fetched response: it is for the transaction
-- of the response, with the id and the artifact that are kept under it and the converted payload.
abbrev pub IsFor : FinancialUser → Json → Json → Type 0
IsFor s fetched body =
    (txn_id ccr_txn_id artifact fi payload : Json) × (key : Key) × (timestamp : String) × (index
        fetched "txnid"
      ≡ ok txn_id)
    × (key_of txn_id ≡ ok key)
    × (lookup key s.txn_ids ≡ some ccr_txn_id)
    × (lookup key s.consent_artifacts ≡ some artifact)
    × (index fetched "FI" ≡ ok fi)
    × (convert_fi_data_to_ccr_json fi ≡ ok payload)
    × (body ≡ process_request timestamp ccr_txn_id payload artifact)

module _ {W : Type 0} (host : Host W) where
  assemble-IsFor :
      (fetched body : Json) (s : Sys FinancialUser W)
      → (assemble host fetched s).0 ≡ ok body
      → IsFor s.self fetched body
  unfolding assemble lift reads pure
  assemble-IsFor fetched body s h =
      let (txn_id, e1, h1) = >>=-returns (lift (index fetched "txnid")) _ s h in
      let (key, e2, h2) = >>=-returns (lift (key_of txn_id)) _ s h1 in
      let (ccr, e3, h3) = >>=-returns (reads (λ a. or_raise (lookup key a.txn_ids) _)) _ s h2 in
      let (art, e4, h4) =
        >>=-returns (reads (λ a. or_raise (lookup key a.consent_artifacts) _)) _ s h3 in
      let (timestamp, e5, h5) = >>=-returns (ask host.now) _ s h4 in
      let t = (ask host.now s).1 in
      let (fi, e6, h6) = >>=-returns (lift (index fetched "FI")) _ t h5 in
      let (payload, e7, h7) = >>=-returns (lift (convert_fi_data_to_ccr_json fi)) _ t h6 in
      (
        txn_id,
        ccr,
        art,
        fi,
        payload,
        key,
        timestamp,
        e1,
        e2,
        or_raise-eq-ok _ _ ccr e3,
        or_raise-eq-ok _ _ art e4,
        e6,
        e7,
        sym (ok_inj h7),
      )

  -- If a request to the clean room is prepared, then it is made for a response, parsed from some text:
  -- it has the transaction id that the clean room gave for the response's own transaction, the consent
  -- artifact that is kept under that same transaction, and the response's financial information as
  -- payload.
  pub prepare_process_request-IsFor :
      (request body : Json) (s : Sys FinancialUser W)
      → (prepare_process_request host request s).0 ≡ ok body
      → (answer : String) × (fetched : Json) × (host.loads answer ≡ ok fetched)
        × IsFor s.self fetched body
  unfolding prepare_process_request lift reads gets pure
  prepare_process_request-IsFor request body s h =
      let (notification, e1, h1) =
        >>=-returns (lift (index request "FIStatusNotification")) _ s h in
      let (value, e2, h2) = >>=-returns (lift (index notification "sessionId")) _ s h1 in
      let (session_id, e3, h3) = >>=-returns (lift (text_of value)) _ s h2 in
      let (url_aa, e4, h4) = >>=-returns (gets (λ a. a.url_aa)) _ s h3 in
      let ask_aa = get_json_request host url_aa ("FI/fetch" <> "/" <> session_id) null in
      let (reply, e5, h5) = >>=-returns ask_aa _ s h4 in
      let u = (ask_aa s).1 in
      let (fetched, e6, h6) = >>=-returns (lift (host.loads reply.1)) _ u h5 in
      let same = self-get_json_request host false url_aa ("FI/fetch" <> "/" <> session_id) null s in
      (
        reply.1,
        fetched,
        e6,
        subst (λ a. IsFor a fetched body) same (assemble-IsFor fetched body u h6),
      )
