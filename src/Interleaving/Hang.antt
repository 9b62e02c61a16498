-- ===== src/Interleaving/Hang.antt =====
-- The race that the comment in account-aggregator/src/controller.py (create_consent_artifact) names: the
-- task that creates an artifact runs before the financial information user has its answer.
use fiu_data_governance.Prelude.{
  ◌≡◌, refl, inl, ℕ, true, false, String, Option, some, List, [], string_eq,
}
use fiu_data_governance.Prelude.Dict.{lookup}
use fiu_data_governance.Host.{Host, Sys, HttpRequest, Outcome, ◌>>=◌}
use fiu_data_governance.Host.Tasks.{take_task}
use fiu_data_governance.Python.Errors.{Result, ok}
use fiu_data_governance.Python.Json.{Json}
use fiu_data_governance.Client.{make_url, accept, post_json_request}
use fiu_data_governance.Client.Failures.{post_request}
use fiu_data_governance.Aggregator.{Aggregator, Task, create_artifact}
use fiu_data_governance.Aggregator.Consent.{
  create_consent_artifact, sign_artifact, get_consent_signature, notify_fiu,
}
use fiu_data_governance.Aggregator.Messages.{consent_notification}
use fiu_data_governance.Aggregator.Routes.{handle_event, run_task, run_at, run_taken, start_task}
use fiu_data_governance.FinancialUser.{FinancialUser}
use fiu_data_governance.Interleaving.{Proc, idle, busy, run, awaits, begin}
use fiu_data_governance.Interleaving.Progress.{WaitsFor, IsHung-Move}
use fiu_data_governance.Interleaving.Services.{aa, fiu, AaEvent, FiuEvent, Anytime, Step}

module _ {W V : Type 0} (host : Host W) (other : Host V) (to_aa : HttpRequest → Option AaEvent)
    (to_fiu : HttpRequest → Option FiuEvent) (aa_respond fiu_respond : Result Json → Outcome)
    (s : Sys Aggregator W) (n : ℕ) (h url consent_id signature : String)
    (request txn_id claim : Json) (rest : List Task) where
  -- The notification of the task, with the third time that it takes.
  abbrev pub notification : HttpRequest
  notification =
      let notified = (host.now (host.now (host.now s.world).1).1).0 in
      post_request true url (consent_notification notified txn_id s.self.id consent_id h)

  task_awaits :
      take_task n s.self.tasks ≡ some (create_artifact h request, rest)
      → lookup h s.self.consent_handles ≡ some (txn_id, consent_id)
      → lookup h s.self.consent_claims ≡ some claim
      → host.sign claim ≡ ok signature
      → make_url s.self.url_fiu "Consent/Notification" ≡ ok url
      → awaits (aa host other to_aa to_fiu aa_respond fiu_respond) (busy false s (run_task n) [])
        ≡ some notification
  unfolding handle_event run_at run_taken start_task create_consent_artifact sign_artifact
      get_consent_signature notify_fiu post_json_request accept ◌>>=◌
  task_awaits taken known claimed signed built =
      rw (awaits, run, take_task, taken, known, claimed, signed, built) refl

  -- If the account aggregator is idle and has a task that creates an artifact, for a consent that it
  -- knows and can sign, while the financial information user waits for it, whatever for, then the task
  -- may begin, and after that no step of either service is possible any more: each waits for the other.
  pub create_consent_artifact-hangs :
      (q : Proc FinancialUser V FiuEvent) (f : FiuEvent)
      → take_task n s.self.tasks ≡ some (create_artifact h request, rest)
      → lookup h s.self.consent_handles ≡ some (txn_id, consent_id)
      → lookup h s.self.consent_claims ≡ some claim
      → host.sign claim ≡ ok signature
      → make_url s.self.url_fiu "Consent/Notification" ≡ ok url
      → to_fiu notification ≡ some f
      → WaitsFor
          (fiu host other to_aa to_fiu aa_respond fiu_respond)
          (aa host other to_aa to_fiu aa_respond fiu_respond)
          q
      → let p : Proc Aggregator W AaEvent = busy false s (run_task n) [] in
        let Steps = Step host other to_aa to_fiu aa_respond fiu_respond Anytime Anytime in
        Steps (idle s) q p q
        × ((p' : Proc Aggregator W AaEvent) (q' : Proc FinancialUser V FiuEvent)
            → ¬ Steps p q p' q')
  create_consent_artifact-hangs q f taken known claimed signed built routed waits =
      let asks = task_awaits taken known claimed signed built in
      (
        inl (begin (run_task n) tt),
        λ p' q'. IsHung-Move _ _ Anytime Anytime ((notification, f, asks, routed), waits),
      )
