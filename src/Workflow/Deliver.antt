-- ===== src/Workflow/Deliver.antt =====
-- The notification of financial information at the financial information user, with the account
-- aggregator as its peer (financial-information-user/src/controller.py, handle_fi_notification;
-- account-aggregator/src/controller.py, handle_fi_fetch).
use Prim.Native.String.{◌++◌ as ◌<>◌}
use fiu_data_governance.Prelude.{◌≡◌, sym, ap, ◌∙◌, String, false, some, string_eq}
use fiu_data_governance.Prelude.Dict.{lookup}
use fiu_data_governance.Host.{Host, Sys, reads, ◌>>=◌}
use fiu_data_governance.Python.Errors.{ok}
use fiu_data_governance.Python.Json.{Json, null, str}
use fiu_data_governance.Python.Key.{text, key_eq}
use fiu_data_governance.Python.Subscript.{index}
use fiu_data_governance.Client.{make_url}
use fiu_data_governance.Client.Failures.{get_request}
use fiu_data_governance.Aggregator.{Aggregator}
use fiu_data_governance.Aggregator.Messages.{fi_result, fi_notification}
use fiu_data_governance.Aggregator.Session.{handle_fi_fetch}
use fiu_data_governance.FinancialUser.{FinancialUser}
use fiu_data_governance.FinancialUser.Messages.{process_request}
use fiu_data_governance.FinancialUser.Handlers.{assemble, prepare_process_request}
use fiu_data_governance.Scoring.{encrypted_data}
use fiu_data_governance.Workflow.Payload.{single_package, fi_result-inv}
use fiu_data_governance.Workflow.Peers.{Serves, Understands, IsApart, get-served}

fetched :
    {V : Type 0} (aa : Host V) (session_id : String) (result : Json) (s : Sys Aggregator V)
    → lookup session_id s.self.sessions ≡ some result
    → handle_fi_fetch aa session_id s ≡ (ok result, s)
unfolding handle_fi_fetch reads
fetched aa session_id result s e = rw e

module _ {W V : Type 0} (fiu : Host W) (aa : Host V) (peer : W → Sys Aggregator V) where
  -- The notification that the account aggregator sends for a session gets the financial information
  -- user to the request for the clean room, with the account aggregator behind its URL, if the session
  -- has the result that was built for a request, whose transaction id is one with a clean room
  -- transaction and an artifact at the financial information user: the request is for that clean room
  -- transaction and with that artifact, and what the business rule engine takes out of it is what the
  -- encryption of the session returned. The globals of the two stay as they were. The result can be
  -- read back from its JSON.
  pub prepare_process_request-encrypted_data :
      (aa_time txn_id session_id url : String)
      (crypto_keys request encryption result ccr_txn_id artifact : Json) (s : Sys FinancialUser W)
      → fi_result aa_time crypto_keys request encryption ≡ ok result
      → index request "txnid" ≡ ok (str txn_id)
      → lookup session_id (peer s.world).self.sessions ≡ some result
      → lookup (text txn_id) s.self.txn_ids ≡ some ccr_txn_id
      → lookup (text txn_id) s.self.consent_artifacts ≡ some artifact
      → IsApart fiu peer
      → fiu.is_error 200 ≡ false
      → make_url s.self.url_aa ("FI/fetch" <> "/" <> session_id) ≡ ok url
      → Serves fiu aa peer (get_request false url null) (handle_fi_fetch aa session_id)
      → Understands fiu aa result
      → (notified id : String) (txn : Json)
      → let (r, t) = prepare_process_request fiu (fi_notification notified txn id session_id) s in
        (timestamp : String) × (payload : Json) × (r
          ≡ ok (process_request timestamp ccr_txn_id payload artifact))
        × (encrypted_data (process_request timestamp ccr_txn_id payload artifact)
            ≡ index encryption "base64Data")
        × (t.self ≡ s.self)
        × (peer t.world ≡ peer s.world)
  unfolding prepare_process_request assemble encrypted_data ◌>>=◌ reads
  prepare_process_request-encrypted_data aa_time txn_id session_id url crypto_keys request
        encryption result ccr_txn_id artifact s built of_txn kept opened signed apart accepted at
        serves understands notified id txn =
      let (fi, encrypted, name, material, e1, e2, e3, e4) =
        fi_result-inv aa_time crypto_keys request encryption result built in
      let p = peer s.world in
      let (v, sent, same) =
        get-served fiu aa peer false s.self.url_aa ("FI/fetch" <> "/" <> session_id) url
          (handle_fi_fetch aa session_id) accepted at result s p
          (fetched aa session_id result p kept) serves in
      let payload = single_package name encrypted material in
      let timestamp = (fiu.now v).0 in
      let run : prepare_process_request fiu (fi_notification notified txn id session_id) s ≡ (
        ok (process_request timestamp ccr_txn_id payload artifact),
        record s { world = (fiu.now v).1 },
      ) =
        rw (sent, understands, e4, of_txn, opened, signed, e1, e3) in
      (
        timestamp,
        payload,
        ap (λ q. q.0) run,
        sym e2,
        ap (λ q. q.1.self) run,
        ap (λ q. peer q.1.world) run ∙ apart v ∙ same,
      )
