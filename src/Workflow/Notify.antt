-- ===== src/Workflow/Notify.antt =====
-- The notification of a consent at the financial information user, with the account aggregator as its
-- peer (financial-information-user/src/controller.py, handle_consent_notification;
-- account-aggregator/src, get_consent_artifact and process_fi_request).
use Prim.Native.String.{◌++◌ as ◌<>◌}
use fiu_data_governance.Prelude.{◌≡◌, ap, ◌∙◌, String, false, some, [], ◌∷◌, ◌++◌, string_eq}
use fiu_data_governance.Prelude.Dict.{lookup, insert}
use fiu_data_governance.Host.{Host, Sys, reads, ◌>>=◌}
use fiu_data_governance.Python.Errors.{ok}
use fiu_data_governance.Python.Json.{Json, null, str}
use fiu_data_governance.Python.Key.{text, key_eq}
use fiu_data_governance.Python.Subscript.{index}
use fiu_data_governance.Client.{make_url}
use fiu_data_governance.Client.Failures.{post_request, get_request}
use fiu_data_governance.Aggregator.{Aggregator, request_fi}
use fiu_data_governance.Aggregator.Consent.{get_consent_artifact}
use fiu_data_governance.Aggregator.Routes.{process_fi_request, accepted_response}
use fiu_data_governance.FinancialUser.{FinancialUser}
use fiu_data_governance.Aggregator.Messages.{consent_notification}
use fiu_data_governance.FinancialUser.Client.{post_json_request}
use fiu_data_governance.FinancialUser.Messages.{fi_request}
use fiu_data_governance.FinancialUser.Handlers.{handle_consent_notification}
use fiu_data_governance.FinancialUser.Requests.{fi_request-inv}
use fiu_data_governance.Workflow.Peers.{Serves, Understands, IsApart, post-served, get-served}

module _ {V : Type 0} (aa : Host V) where
  -- The account aggregator with the task that is to fetch the information.
  abbrev pub with_request : Json → Sys Aggregator V → Sys Aggregator V
  with_request body s =
      let (session_id, w) = aa.uuid4 s.world in
      record {
        self = record s.self { tasks = s.self.tasks ++ request_fi session_id body ∷ [] };
        world = (aa.now w).1;
      }

  -- It takes every request that the financial information user can build.
  process_fi_request-fi_request :
      (timestamp : String) (artifact request material body : Json) (s : Sys Aggregator V)
      → fi_request timestamp artifact request material ≡ ok body
      → (answer : Json) × (process_fi_request aa body s ≡ (ok answer, with_request body s))
  unfolding process_fi_request ◌>>=◌
  process_fi_request-fi_request timestamp artifact request material body s built =
      let (txn_id, consent, consent_id, copied, _, _, e1, e2, e3, _, _) =
        fi_request-inv timestamp artifact request material body built in
      let (session_id, w) = aa.uuid4 s.world in
      (accepted_response (aa.now w).0 txn_id consent_id session_id, rw (e1, e2, e3))

  artifact_served :
      (consent_id : String) (artifact : Json) (s : Sys Aggregator V)
      → lookup consent_id s.self.consent_artifacts ≡ some artifact
      → get_consent_artifact aa consent_id s ≡ (ok artifact, s)
  unfolding get_consent_artifact reads
  artifact_served consent_id artifact s e = rw e

-- The two services together.
module _ {W V : Type 0} (fiu : Host W) (aa : Host V) (peer : W → Sys Aggregator V) where
  module _ (artifact request : Json) (body : String → Json)
      (txn_id consent_id artifact_url request_url : String) (s : Sys FinancialUser W)
      (apart : IsApart fiu peer) (accepted : fiu.is_error 200 ≡ false)
      (signed : lookup consent_id (peer s.world).self.consent_artifacts ≡ some artifact)
      (of_txn : index artifact "txnid" ≡ ok (str txn_id))
      (kept : lookup (text txn_id) s.self.consent_requests ≡ some request)
      (built : (timestamp : String)
        → fi_request timestamp artifact request s.self.ccr_public_key_material
          ≡ ok (body timestamp))
      (artifact_at : make_url s.self.url_aa ("Consent" <> "/" <> consent_id) ≡ ok artifact_url)
      (request_at : make_url s.self.url_aa "FI/request" ≡ ok request_url)
      (serves_artifact : Serves fiu aa peer
        (get_request false artifact_url null)
        (get_consent_artifact aa consent_id))
      (serves_request : (timestamp : String)
        → Serves fiu aa peer
            (post_request false request_url (body timestamp))
            (process_fi_request aa (body timestamp)))
      (understands : Understands fiu aa artifact) where
    -- The globals once the artifact has been fetched.
    abbrev with_artifact : FinancialUser
    with_artifact = record s.self {
      consent_artifacts = insert (text txn_id) artifact s.self.consent_artifacts;
    }

    -- After the request for financial information.
    requested :
        (v : W)
        → peer v ≡ peer s.world
        → let (timestamp, w) = fiu.now v in
          (answer : Json) × (u : W) × (post_json_request fiu s.self.url_aa "FI/request"
              (body timestamp)
              (record { self = with_artifact; world = w })
            ≡ (ok (200, aa.dumps answer), record { self = with_artifact; world = u }))
          × (peer u ≡ with_request aa (body timestamp) (peer s.world))
    requested v same =
        let (timestamp, w) = fiu.now v in
        let (answer, runs) =
          process_fi_request-fi_request aa timestamp artifact request s.self.ccr_public_key_material
            (body timestamp) (peer s.world) (built timestamp) in
        let (u, sent, after) =
          post-served fiu aa peer false s.self.url_aa "FI/request" request_url
            (process_fi_request aa (body timestamp)) accepted request_at answer
            (record { self = with_artifact; world = w })
            (with_request aa (body timestamp) (peer s.world)) (rw (apart v, same) runs)
            (body timestamp) (serves_request timestamp) in
        (answer, u, sent, after)

    -- The notification that the account aggregator sends for a consent gets the financial information
    -- user to request the information, with the account aggregator behind its URL, if the account
    -- aggregator has an artifact for the consent id, whose transaction id is one with a consent request
    -- at the financial information user, and the request can be built from the two and the key material:
    -- the handler returns, the artifact is kept under its transaction id and nothing else of the
    -- globals is changed, and the account aggregator has started a task for the request that was
    -- built, and is otherwise as it was. The artifact can be read back from its JSON.
    pub handle_consent_notification-with_request :
        (notified id handle : String) (txn : Json)
        → let (r, t) =
            handle_consent_notification fiu
              (consent_notification notified txn id consent_id handle)
              s in
          (timestamp : String) × (r ≡ ok tt)
          × (t.self ≡ with_artifact)
          × (peer t.world ≡ with_request aa (body timestamp) (peer s.world))
    unfolding handle_consent_notification ◌>>=◌ reads
    handle_consent_notification-with_request notified id handle txn =
        let (v, sent, same) =
          get-served fiu aa peer false s.self.url_aa ("Consent" <> "/" <> consent_id) artifact_url
            (get_consent_artifact aa consent_id) accepted artifact_at artifact s (peer s.world)
            (artifact_served aa consent_id artifact (peer s.world) signed) serves_artifact in
        let (answer, u, sent', after) = requested v same in
        let message = consent_notification notified txn id consent_id handle in
        let run : handle_consent_notification fiu message s
            ≡ (ok tt, record { self = with_artifact; world = u }) =
          rw (sent, understands, of_txn, kept, built, sent') in
        (
          (fiu.now v).0,
          ap (λ p. p.0) run,
          ap (λ p. p.1.self) run,
          ap (λ p. peer p.1.world) run ∙ after,
        )
