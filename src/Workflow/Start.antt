-- ===== src/Workflow/Start.antt =====
-- The start of a workflow at the financial information user, with the account aggregator as its peer
-- (financial-information-user/src/controller.py, start_workflow; account-aggregator/src/main.py,
-- process_consent and get_consent_handle).
use Prim.Native.String.{◌++◌ as ◌<>◌}
use fiu_data_governance.Prelude.{
  ◌≡◌, refl, sym, ap, ◌∙◌, String, false, [], ◌∷◌, ◌++◌, string_eq, if◌then◌else◌,
}
use fiu_data_governance.Prelude.Dict.{insert, contains, lookup-insert_self}
use fiu_data_governance.Host.{Host, Sys, ◌>>=◌}
use fiu_data_governance.Python.Errors.{ok, ok_inj}
use fiu_data_governance.Python.Json.{Json, null, str}
use fiu_data_governance.Python.Key.{text, key_eq}
use fiu_data_governance.Python.Subscript.{index}
use fiu_data_governance.Client.{make_url}
use fiu_data_governance.Client.Failures.{post_request, get_request}
use fiu_data_governance.Workflow.Peers.{Serves, Understands, IsApart, post-served, get-served}
use fiu_data_governance.Aggregator.{Aggregator, create_artifact}
use fiu_data_governance.Aggregator.Messages.{consent_response, status_response}
use fiu_data_governance.Aggregator.Consent.{handle_consent, store_consent, handle_consent_handle}
use fiu_data_governance.Aggregator.Routes.{process_consent}
use fiu_data_governance.FinancialUser.{FinancialUser}
use fiu_data_governance.FinancialUser.Client.{post_json_request, get_json_request}
use fiu_data_governance.FinancialUser.Messages.{consent_request, nested}
use fiu_data_governance.FinancialUser.Handlers.{open_transaction, start_workflow}
use fiu_data_governance.FinancialUser.Requests.{consent_request-inv}

-- The account aggregator takes the request.
module _ {V : Type 0} (aa : Host V) where
  -- What it answers, and the state that it is left in.
  abbrev pub consent_answer : String → Json → Sys Aggregator V → Json
  consent_answer txn_id customer_id s =
      let (consent_handle, w) = aa.uuid4 s.world in
      consent_response (aa.now (aa.uuid4 w).1).0 (str txn_id) customer_id consent_handle

  abbrev pub with_consent : String → Json → Json → Sys Aggregator V → Sys Aggregator V
  with_consent txn_id detail request s =
      let (consent_handle, w) = aa.uuid4 s.world in
      let (consent_id, w') = aa.uuid4 w in
      record {
        self = record s.self {
          consent_handles = insert consent_handle (str txn_id, consent_id) s.self.consent_handles;
          consent_claims = insert consent_handle detail s.self.consent_claims;
          tasks = s.self.tasks ++ create_artifact consent_handle request ∷ [];
        };
        world = (aa.now w').1;
      }

  abbrev pub status_answer : String → Sys Aggregator V → Json
  status_answer txn_id s =
      let (consent_handle, w) = aa.uuid4 s.world in
      let (consent_id, w') = aa.uuid4 w in
      status_response (aa.now (aa.now w').1).0 (str txn_id) consent_handle consent_id
        (if contains consent_id s.self.consent_artifacts then "READY" else "PENDING")

  process_consent_lem :
      (timestamp txn_id : String) (data_json request detail customer_id : Json)
      (s : Sys Aggregator V)
      → consent_request timestamp txn_id data_json ≡ ok request
      → index request "ConsentDetail" ≡ ok detail
      → nested data_json "Customer" "id" ≡ ok customer_id
      → process_consent aa request s
        ≡ (ok (consent_answer txn_id customer_id s), with_consent txn_id detail request s)
  unfolding process_consent handle_consent store_consent ◌>>=◌
  process_consent_lem timestamp txn_id data_json request detail customer_id s built of_request
        of_data =
      let (d, c, e1, e2, e3, e4) = consent_request-inv timestamp txn_id data_json request built in
      let same : d ≡ detail = ok_inj (sym e2 ∙ of_request) in
      let same' : c ≡ customer_id = ok_inj (sym e3 ∙ of_data) in
      rw (e1, of_request, sym same, e4, same')

  handle_consent_handle-with_consent :
      (txn_id : String) (detail request : Json) (s : Sys Aggregator V)
      → let t = with_consent txn_id detail request s in
        handle_consent_handle aa (aa.uuid4 s.world).0 t
        ≡ (ok (status_answer txn_id s), record t { world = (aa.now t.world).1 })
  unfolding handle_consent_handle ◌>>=◌
  handle_consent_handle-with_consent txn_id detail request s = rw (lookup-insert_self)

-- The two services together.
module _ {W V : Type 0} (fiu : Host W) (aa : Host V) (peer : W → Sys Aggregator V) where
  module _ (data_json request detail customer_id : Json) (txn_id consent_url handle_url : String)
      (s s' : Sys FinancialUser W) (opened : open_transaction fiu s ≡ (ok txn_id, s'))
      (built : consent_request (fiu.now s'.world).0 txn_id data_json ≡ ok request)
      (of_request : index request "ConsentDetail" ≡ ok detail)
      (of_data : nested data_json "Customer" "id" ≡ ok customer_id) (apart : IsApart fiu peer)
      (accepted : fiu.is_error 200 ≡ false)
      (consent_at : make_url s'.self.url_aa "Consent" ≡ ok consent_url)
      (handle_at : make_url s'.self.url_aa
          ("Consent/handle" <> "/" <> (aa.uuid4 (peer s'.world).world).0)
        ≡ ok handle_url)
      (serves_consent : Serves fiu aa peer
        (post_request false consent_url request)
        (process_consent aa request))
      (serves_handle : Serves fiu aa peer
        (get_request false handle_url null)
        (handle_consent_handle aa (aa.uuid4 (peer s'.world).world).0))
      (understands : Understands fiu aa (consent_answer aa txn_id customer_id (peer s'.world)))
      (understands' : Understands fiu aa (status_answer aa txn_id (peer s'.world))) where
    -- After the consent request: its answer, and the account aggregator with the consent.
    posted :
        (v : W) × (post_json_request fiu s'.self.url_aa "Consent" request
            (record s' { world = (fiu.now s'.world).1 })
          ≡ (
            ok (200, aa.dumps (consent_answer aa txn_id customer_id (peer s'.world))),
            record s' { world = v },
          ))
        × (peer v ≡ with_consent aa txn_id detail request (peer s'.world))
    posted =
        let w = (fiu.now s'.world).1 in
        let taken =
          process_consent_lem aa (fiu.now s'.world).0 txn_id data_json request detail customer_id
            (peer s'.world) built of_request of_data in
        post-served fiu aa peer false s'.self.url_aa "Consent" consent_url
          (process_consent aa request) accepted consent_at
          (consent_answer aa txn_id customer_id (peer s'.world)) (record s' { world = w })
          (with_consent aa txn_id detail request (peer s'.world)) (rw (apart s'.world) taken)
          request serves_consent

    -- After the request for the status of the handle.
    got :
        (v : W)
        → peer v ≡ with_consent aa txn_id detail request (peer s'.world)
        → (u : W) × (get_json_request fiu s'.self.url_aa
              ("Consent/handle" <> "/" <> (aa.uuid4 (peer s'.world).world).0)
              null
              (record s' { world = v })
            ≡ (
              ok (200, aa.dumps (status_answer aa txn_id (peer s'.world))),
              record s' { world = u },
            ))
          × ((peer u).self ≡ (with_consent aa txn_id detail request (peer s'.world)).self)
    got v after =
        let handle = (aa.uuid4 (peer s'.world).world).0 in
        let t = with_consent aa txn_id detail request (peer s'.world) in
        let asked = handle_consent_handle-with_consent aa txn_id detail request (peer s'.world) in
        let (u, sent, after') =
          get-served fiu aa peer false s'.self.url_aa ("Consent/handle" <> "/" <> handle) handle_url
            (handle_consent_handle aa handle) accepted handle_at
            (status_answer aa txn_id (peer s'.world)) (record s' { world = v })
            (record t { world = (aa.now t.world).1 }) (rw after asked) serves_handle in
        (u, sent, ap (λ p. p.self) after')

    -- If the clean room gives a transaction and the consent request can be built from the user's
    -- data, a workflow of the financial information user gets through: with the account aggregator
    -- behind its URL, start_workflow returns, the financial information user has kept the consent
    -- request under its transaction id and changed nothing else since the transaction was opened, and
    -- the account aggregator has a new handle with that transaction id and a new consent id, has kept
    -- the consent detail as the claims for it, and has started the task that is to sign the artifact.
    -- The account aggregator's two answers can be read back from their JSON.
    pub start_workflow-with_consent :
        let (r, t) = start_workflow fiu data_json s in
        (r ≡ ok tt)
        × (t.self ≡ record s'.self {
          consent_requests = insert (text txn_id) request s'.self.consent_requests;
        })
        × ((peer t.world).self ≡ (with_consent aa txn_id detail request (peer s'.world)).self)
    unfolding start_workflow ◌>>=◌
    start_workflow-with_consent =
        let (v, sent, after) = posted in
        let (u, sent', after') = got v after in
        rw (opened, built, sent, understands, sent', understands') (refl, refl, after')
