-- ===== src/Interleaving/Consented.antt =====
-- A workflow from its start to the signed consent, while the account aggregator and the financial
-- information user are side by side (start_workflow in financial-information-user/src/controller.py;
-- process_consent in account-aggregator/src/main.py and create_consent_artifact in its controller.py).
use Prim.Native.String.{◌++◌ as ◌<>◌}
use mathlib.Core.Path.{subst}
use fiu_data_governance.Prelude.{
  ℕ, ◌≡◌, refl, sym, ap, ◌∙◌, String, true, false, Option, some, List, [], ◌∷◌, ◌++◌, length,
  string_eq,
}
use fiu_data_governance.Prelude.Dict.{lookup, insert, lookup-insert_self}
use fiu_data_governance.Host.{Host, HttpRequest, Outcome, response, Sys}
use fiu_data_governance.Host.Tasks.{take_task}
use fiu_data_governance.Python.Errors.{Result, ok}
use fiu_data_governance.Python.Json.{Json, null, str}
use fiu_data_governance.Python.Key.{text, key_eq}
use fiu_data_governance.Python.Subscript.{index}
use fiu_data_governance.Client.{make_url}
use fiu_data_governance.Client.Failures.{post_request, get_request}
use fiu_data_governance.Aggregator as Aa
use fiu_data_governance.Aggregator.{Aggregator}
use fiu_data_governance.Aggregator.Messages.{consent_artifact, consent_notification}
use fiu_data_governance.Aggregator.Routes as AaRoutes
use fiu_data_governance.FinancialUser as Fiu
use fiu_data_governance.FinancialUser.{FinancialUser}
use fiu_data_governance.FinancialUser.Messages.{consent_request, nested}
use fiu_data_governance.FinancialUser.Handlers.{open_transaction}
use fiu_data_governance.FinancialUser.Routes as FiuRoutes
use fiu_data_governance.Workflow.Peers.{Understands}
use fiu_data_governance.Workflow.Start.{consent_answer, with_consent, status_answer}
use fiu_data_governance.Interleaving.{idle}
use fiu_data_governance.Interleaving.Services.{AaEvent, FiuEvent, AaCalls, FiuCalls}
use fiu_data_governance.Interleaving.Beside.{Beside, with_peers}
use fiu_data_governance.Interleaving.Runs.{ReachInTurn}
use fiu_data_governance.Interleaving.Start as Start
use fiu_data_governance.Interleaving.Start.{start_workflow-ReachInTurn}
use fiu_data_governance.Interleaving.Grant.{create_consent_artifact-ReachInTurn}

take_last : {T : Type 0} (t : T) (ts : List T) → take_task (length ts) (ts ++ t ∷ []) ≡ some (t, ts)
take_last t [] = refl
take_last t (u ∷ ts) = rw (take_last t ts) refl

-- A consent that an account aggregator takes in a state, and its signing.
module _ {W : Type 0} (host : Host W) (b : Sys Aggregator W) (txn_id : String) where
  -- The notification of the consent, from the time of sending.
  abbrev pub notice : String → Json
  notice notified =
      let (handle, w) = host.uuid4 b.world in
      consent_notification notified (str txn_id) b.self.id (host.uuid4 w).0 handle

  -- The two services with the signed artifact and the task for the notification; before, the second
  -- was as given.
  abbrev pub IsGranted : String → FinancialUser → Aggregator → FinancialUser → Type 0
  IsGranted signature before after_aa after_fiu =
      let consent_id = (host.uuid4 (host.uuid4 b.world).1).0 in
      (created used notified : String) × (lookup consent_id after_aa.consent_artifacts
        ≡ some (consent_artifact (str txn_id) consent_id created signature used))
      × (after_aa.tasks ≡ b.self.tasks)
      × (after_fiu ≡ record before {
        tasks = before.tasks ++ Fiu.consent_notification (notice notified) ∷ [];
      })

module _ {W V X : Type 0} (host : Host W) (other : Host V) (to_aa : HttpRequest → Option AaEvent)
    (to_fiu : HttpRequest → Option FiuEvent) (aa_respond fiu_respond : Result Json → Outcome)
    (elsewhere : HttpRequest → X → Outcome × X)
    (local_aa : (r : HttpRequest) (e : AaEvent) → to_aa r ≡ some e → ¬ AaCalls e)
    (local_fiu : (r : HttpRequest) (e : FiuEvent) → to_fiu r ≡ some e → ¬ FiuCalls e)
    (aa_responds : (j : Json) → aa_respond (ok j) ≡ response 200 (host.dumps j))
    (fiu_responds : (j : Json) → fiu_respond (ok j) ≡ response 200 (other.dumps j))
    (aa_accepts : host.is_error 200 ≡ false) (fiu_accepts : other.is_error 200 ≡ false) where
  module _ (s₀ b p : Sys Aggregator W) (t₀ q : Sys FinancialUser V) (x : X) (request detail : Json)
      (txn_id url signature : String) where
    abbrev handle : String
    handle = (host.uuid4 b.world).0

    abbrev consent_id : String
    consent_id = (host.uuid4 (host.uuid4 b.world).1).0

    -- A consent that has just been taken is signed.
    pub with_consent-IsGranted :
        p.self ≡ (with_consent host txn_id detail request b).self
        → host.sign detail ≡ ok signature
        → make_url b.self.url_fiu "Consent/Notification" ≡ ok url
        → ((notified : String)
            → to_fiu (post_request true url (notice host b txn_id notified))
              ≡ some (FiuRoutes.post_consent_notification (notice host b txn_id notified)))
        → ReachInTurn host other to_aa to_fiu aa_respond fiu_respond s₀ t₀ (idle p) (idle q)
        → (p' : Sys Aggregator W) × (q' : Sys FinancialUser V) × ReachInTurn host other to_aa to_fiu
            aa_respond fiu_respond s₀ t₀
            (idle p')
            (idle q')
          × IsGranted host b txn_id signature q.self p'.self q'.self
    with_consent-IsGranted consented signed built routes reached =
        let notified = (host.now (host.now (host.now p.world).1).1).0 in
        let same_id : b.self.id ≡ p.self.id = sym (ap (λ s. s.id) consented) in
        let message : String → Json =
          λ i. consent_notification notified (str txn_id) i consent_id handle in
        let (p', q', reached', stored, noticed) =
          create_consent_artifact-ReachInTurn host other to_aa to_fiu aa_respond fiu_respond
            elsewhere local_aa local_fiu fiu_responds aa_accepts s₀ p t₀ q x (length b.self.tasks)
            b.self.tasks handle url signature consent_id request (str txn_id) detail
            (ap (λ s. take_task (length b.self.tasks) s.tasks) consented
              ∙ take_last (Aa.create_artifact handle request) b.self.tasks)
            (ap (λ s. lookup handle s.consent_handles) consented
              ∙ lookup-insert_self handle (str txn_id, consent_id) b.self.consent_handles)
            (ap (λ s. lookup handle s.consent_claims) consented
              ∙ lookup-insert_self handle detail b.self.consent_claims)
            signed (ap (λ s. make_url s.url_fiu "Consent/Notification") consented ∙ built)
            (subst
              (λ i.
                to_fiu (post_request true url (message i))
                ≡ some (FiuRoutes.post_consent_notification (message i)))
              same_id (routes notified))
            reached in
        (
          p',
          q',
          reached',
          (
            (host.now p.world).0,
            (host.now (host.now p.world).1).0,
            notified,
            ap (λ s. lookup consent_id s.consent_artifacts) stored
                ∙ lookup-insert_self consent_id _ p.self.consent_artifacts,
            ap (λ s. s.tasks) stored,
            ap (λ s. s.self) noticed
                ∙ ap {B = FinancialUser}
                    (λ i. record q.self {
                      tasks = q.self.tasks ++ Fiu.consent_notification (message i) ∷ [];
                    })
                    (sym same_id),
          ),
        )

  module _ (s₀ a : Sys Aggregator W) (t₀ t : Sys FinancialUser V) (x : X) (n : ℕ) (data_json : Json)
      (rest : List Fiu.Task) (u : Sys FinancialUser (Beside V (Sys Aggregator W × X)))
      (request detail customer_id : Json)
      (txn_id consent_url handle_url url signature : String) where
    abbrev taking : Sys Aggregator W
    taking = u.world.around.0

    abbrev new_handle : String
    new_handle = (host.uuid4 taking.world).0

    -- A workflow that waits to run at the financial information user, while both services are idle, leads
    -- with the handlers in turn to a signed consent: there is a state with both idle again in which the
    -- account aggregator has, under the id of the new consent, an artifact with its transaction id and
    -- the signature of its detail, and no more tasks than before, and the financial information user has
    -- kept the consent request under the transaction id and has one more task, for the notification of
    -- this consent, and is otherwise as it was since the transaction was opened. The conditions are
    -- that the clean room gives a transaction, that the consent request can be built and its detail
    -- signed, that FastAPI routes the three requests between the services to process_consent,
    -- get_consent_handle and process_consent_notification of main.py and none to a handler that sends
    -- requests, and answers with status 200 and the JSON of what they return, and that the first two
    -- answers can be read back from their JSON.
    pub workflow-IsGranted :
        take_task n t.self.tasks ≡ some (Fiu.workflow data_json, rest)
        → open_transaction
            (Start.fiu host other to_aa to_fiu aa_respond fiu_respond elsewhere local_aa local_fiu
              aa_responds fiu_accepts)
            (with_peers (record t.self { tasks = rest }) t.world (a, x))
          ≡ (ok txn_id, u)
        → consent_request (other.now u.world.own).0 txn_id data_json ≡ ok request
        → index request "ConsentDetail" ≡ ok detail
        → nested data_json "Customer" "id" ≡ ok customer_id
        → make_url u.self.url_aa "Consent" ≡ ok consent_url
        → make_url u.self.url_aa ("Consent/handle" <> "/" <> new_handle) ≡ ok handle_url
        → to_aa (post_request false consent_url request) ≡ some (AaRoutes.post_consent request)
        → to_aa (get_request false handle_url null) ≡ some (AaRoutes.get_consent_handle new_handle)
        → Understands other host (consent_answer host txn_id customer_id taking)
        → Understands other host (status_answer host txn_id taking)
        → host.sign detail ≡ ok signature
        → make_url taking.self.url_fiu "Consent/Notification" ≡ ok url
        → ((notified : String)
            → to_fiu (post_request true url (notice host taking txn_id notified))
              ≡ some (FiuRoutes.post_consent_notification (notice host taking txn_id notified)))
        → ReachInTurn host other to_aa to_fiu aa_respond fiu_respond s₀ t₀ (idle a) (idle t)
        → (p : Sys Aggregator W) × (q q' : Sys FinancialUser V) × ReachInTurn host other to_aa
            to_fiu aa_respond fiu_respond s₀ t₀
            (idle p)
            (idle q')
          × (q.self ≡ record u.self {
            consent_requests = insert (text txn_id) request u.self.consent_requests;
          })
          × IsGranted host taking txn_id signature q.self p.self q'.self
    workflow-IsGranted taken opened built of_request of_data consent_at handle_at to_consent
          to_handle understands understands' signed notice_at to_notice reached =
        let (p, q, started, kept, consented) =
          start_workflow-ReachInTurn host other to_aa to_fiu aa_respond fiu_respond elsewhere
            local_aa local_fiu aa_responds fiu_accepts s₀ a t₀ t x n data_json rest u request detail
            customer_id txn_id consent_url handle_url taken opened built of_request of_data
            consent_at handle_at to_consent to_handle understands understands' reached in
        let (p', q', granted, is_granted) =
          with_consent-IsGranted s₀ taking p t₀ q x request detail txn_id url signature consented
            signed notice_at to_notice started in
        (p', q, q', granted, kept, is_granted)
