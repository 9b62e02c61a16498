-- ===== src/Workflow/Session.antt =====
-- The task that has the information encrypted at the account aggregator, with the financial information
-- user as its peer (account-aggregator/src/controller.py, handle_fi_request;
-- financial-information-user/src/main.py, process_fi_notification).
use fiu_data_governance.Prelude.{◌≡◌, ◌≢◌, refl, ap, ◌∙◌, String, true, false, string_eq}
use fiu_data_governance.Prelude.Dict.{insert}
use fiu_data_governance.Host.{Host, Sys, ◌>>=◌}
use fiu_data_governance.Python.Errors.{ok}
use fiu_data_governance.Python.Json.{Json, null}
use fiu_data_governance.Python.Subscript.{index}
use fiu_data_governance.Client.{make_url}
use fiu_data_governance.Client.Failures.{post_request}
use fiu_data_governance.Aggregator.{Aggregator}
use fiu_data_governance.Aggregator.Fetch.{require_fi_data-ok}
use fiu_data_governance.Aggregator.Messages.{fi_notification}
use fiu_data_governance.Aggregator.Session.{encrypt_fi, notify_fi, handle_fi_request}
use fiu_data_governance.FinancialUser as Fiu
use fiu_data_governance.FinancialUser.{FinancialUser}
use fiu_data_governance.FinancialUser.Routes.{process_fi_notification, acknowledgement}
use fiu_data_governance.Workflow.Grant.{with_task}
use fiu_data_governance.Workflow.Peers.{Serves, IsApart, post-served}

module _ {V : Type 0} (fiu : Host V) where
  process_fi_notification_lem :
      (timestamp id session_id : String) (txn_id : Json) (s : Sys FinancialUser V)
      → let message = fi_notification timestamp txn_id id session_id in
        process_fi_notification fiu message s ≡ (
          ok (acknowledgement (fiu.now s.world).0 txn_id),
          with_task fiu (Fiu.fi_notification message) s,
        )
  unfolding process_fi_notification ◌>>=◌
  process_fi_notification_lem timestamp id session_id txn_id s = refl

module _ {W V : Type 0} (aa : Host W) (fiu : Host V) (peer : W → Sys FinancialUser V)
    (apart : IsApart aa peer) (accepted : aa.is_error 200 ≡ false) (session_id url : String)
    (request result txn_id : Json) (s s' : Sys Aggregator W) where
  abbrev pub session_message : Json
  session_message = fi_notification (aa.now s'.world).0 txn_id s'.self.id session_id

  -- If there is FI data and its encryption succeeds, then with the financial information user behind its
  -- URL the task of a request for financial information gets through: it returns, what the encryption
  -- returned is stored under the session and nothing else is changed since, and the financial
  -- information user has started a task for the notification of the session, and is otherwise as it
  -- was after the encryption.
  pub handle_fi_request-with_task :
      s.self.fi_data_json ≢ null
      → encrypt_fi aa s.self.fi_data_json request s ≡ (ok result, s')
      → index request "txnid" ≡ ok txn_id
      → make_url s'.self.url_fiu "FI/Notification" ≡ ok url
      → Serves aa fiu peer
          (post_request true url session_message)
          (process_fi_notification fiu session_message)
      → let (r, t) = handle_fi_request aa session_id request s in
        (r ≡ ok tt)
        × (t.self ≡ record s'.self { sessions = insert session_id result s'.self.sessions })
        × (peer t.world ≡ with_task fiu (Fiu.fi_notification session_message) (peer s'.world))
  unfolding handle_fi_request notify_fi ◌>>=◌
  handle_fi_request-with_task some_data encrypted of_txn built serves =
      let p = peer s'.world in
      let a : Aggregator = record s'.self {
        sessions = insert session_id result s'.self.sessions;
      } in
      let (timestamp, w) = aa.now s'.world in
      let runs = process_fi_notification_lem fiu timestamp s'.self.id session_id txn_id p in
      let (v, sent, after) =
        post-served aa fiu peer true s'.self.url_fiu "FI/Notification" url
          (process_fi_notification fiu session_message) accepted built
          (acknowledgement (fiu.now p.world).0 txn_id) (record { self = a; world = w })
          (with_task fiu (Fiu.fi_notification session_message) p) (rw (apart s'.world) runs)
          session_message serves in
      let run : handle_fi_request aa session_id request s
          ≡ (ok tt, record { self = a; world = v }) =
        rw (require_fi_data-ok s.self.fi_data_json some_data, encrypted, of_txn, sent) in
      (ap (λ q. q.0) run, ap (λ q. q.1.self) run, ap (λ q. peer q.1.world) run ∙ after)
