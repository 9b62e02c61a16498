-- ===== src/Workflow/Grant.antt =====
-- The task that signs a consent at the account aggregator, with the financial information user as its
-- peer (account-aggregator/src/controller.py, create_consent_artifact;
-- financial-information-user/src/main.py, process_consent_notification).
use fiu_data_governance.Prelude.{
  ◌≡◌, refl, ap, ◌∙◌, String, true, false, some, [], ◌∷◌, ◌++◌, string_eq,
}
use fiu_data_governance.Prelude.Dict.{lookup, insert}
use fiu_data_governance.Host.{Host, Sys, ◌>>=◌}
use fiu_data_governance.Python.Errors.{ok}
use fiu_data_governance.Python.Json.{Json}
use fiu_data_governance.Client.{make_url}
use fiu_data_governance.Client.Failures.{post_request}
use fiu_data_governance.Aggregator.{Aggregator}
use fiu_data_governance.Aggregator.Consent.{
  create_consent_artifact, sign_artifact, get_consent_signature, notify_fiu,
}
use fiu_data_governance.Aggregator.Messages.{consent_artifact, consent_notification}
use fiu_data_governance.FinancialUser as Fiu
use fiu_data_governance.FinancialUser.{FinancialUser}
use fiu_data_governance.FinancialUser.Routes.{process_consent_notification, acknowledgement}
use fiu_data_governance.Workflow.Peers.{Serves, IsApart, post-served}

module _ {V : Type 0} (fiu : Host V) where
  -- The financial information user with one more task.
  abbrev pub with_task : Fiu.Task → Sys FinancialUser V → Sys FinancialUser V
  with_task task s = record {
    self = record s.self { tasks = s.self.tasks ++ task ∷ [] };
    world = (fiu.now s.world).1;
  }

  process_consent_notification_lem :
      (timestamp id consent_id consent_handle : String) (txn_id : Json) (s : Sys FinancialUser V)
      → let message = consent_notification timestamp txn_id id consent_id consent_handle in
        process_consent_notification fiu message s ≡ (
          ok (acknowledgement (fiu.now s.world).0 txn_id),
          with_task (Fiu.consent_notification message) s,
        )
  unfolding process_consent_notification ◌>>=◌
  process_consent_notification_lem timestamp id consent_id consent_handle txn_id s = refl

module _ {W V : Type 0} (aa : Host W) (fiu : Host V) (peer : W → Sys FinancialUser V)
    (apart : IsApart aa peer) (accepted : aa.is_error 200 ≡ false)
    (h url signature consent_id : String) (txn_id claim : Json) (s : Sys Aggregator W) where
  -- The three times that the task takes, and the world after each.
  abbrev created : String × W
  created = aa.now s.world

  abbrev used : String × W
  used = aa.now created.1

  abbrev notified : String × W
  notified = aa.now used.1

  abbrev pub message : Json
  message = consent_notification notified.0 txn_id s.self.id consent_id h

  abbrev pub with_artifact : Aggregator
  with_artifact = record s.self {
    consent_artifacts =
        insert consent_id (consent_artifact txn_id consent_id created.0 signature used.0)
          s.self.consent_artifacts;
  }

  peer_unchanged : peer notified.1 ≡ peer s.world
  peer_unchanged = apart used.1 ∙ apart created.1 ∙ apart s.world

  -- For a known handle with claims that can be signed, and with the financial information user behind
  -- its URL, the task that creates the artifact gets through: it returns, the account aggregator has
  -- stored the signed artifact under the consent id and changed nothing else, and the financial
  -- information user has started a task for the notification of that consent id, and is otherwise as
  -- it was.
  pub create_consent_artifact-with_task :
      (request : Json)
      → lookup h s.self.consent_handles ≡ some (txn_id, consent_id)
      → lookup h s.self.consent_claims ≡ some claim
      → aa.sign claim ≡ ok signature
      → make_url s.self.url_fiu "Consent/Notification" ≡ ok url
      → Serves aa fiu peer
          (post_request true url message)
          (process_consent_notification fiu message)
      → let (r, t) = create_consent_artifact aa h request s in
        (r ≡ ok tt)
        × (t.self ≡ with_artifact)
        × (peer t.world ≡ with_task fiu (Fiu.consent_notification message) (peer s.world))
  unfolding create_consent_artifact sign_artifact get_consent_signature notify_fiu ◌>>=◌
  create_consent_artifact-with_task request known claimed signed built serves =
      let p = peer s.world in
      let runs = process_consent_notification_lem fiu notified.0 s.self.id consent_id h txn_id p in
      let (v, sent, after) =
        post-served aa fiu peer true s.self.url_fiu "Consent/Notification" url
          (process_consent_notification fiu message) accepted built
          (acknowledgement (fiu.now p.world).0 txn_id)
          (record { self = with_artifact; world = notified.1 })
          (with_task fiu (Fiu.consent_notification message) p) (rw peer_unchanged runs) message
          serves in
      let run : create_consent_artifact aa h request s
          ≡ (ok tt, record { self = with_artifact; world = v }) =
        rw (known, claimed, signed, sent) in
      (ap (λ q. q.0) run, ap (λ q. q.1.self) run, ap (λ q. peer q.1.world) run ∙ after)
