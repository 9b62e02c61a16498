-- ===== src/Aggregator/Drain.antt =====
-- The tasks of the account aggregator come to an end: a task that the event loop runs starts no other
-- one, whether it returns or raises (account-aggregator/src/controller.py and main.py).
use fiu_data_governance.Prelude.{◌≡◌, ◌∙◌, refl, ℕ, Option, none, some, List, [], length}
use fiu_data_governance.Host.{Host, Sys, modify, ◌>>=◌}
use fiu_data_governance.Host.Tasks.{take_task}
use fiu_data_governance.Host.Tasks.Drain.{IsSchedule, left, run_each, TakesOne, run_each-empties}
use fiu_data_governance.Host.Effects.Keeps.{Keeps, Keeps-modify, then-keeps, keeps_rules}
use fiu_data_governance.Client.Failures.{post_json_request-Keeps, get_json_request-Keeps}
use fiu_data_governance.Python.Json.{Json}
use fiu_data_governance.Prelude.{String}
use fiu_data_governance.Aggregator.{Aggregator, Task, create_artifact, request_fi}
use fiu_data_governance.Aggregator.Consent.{
  sign_artifact, notify_fiu, create_consent_artifact, get_consent_signature,
}
use fiu_data_governance.Aggregator.Session.{
  ensure_crypto_keys, encrypt_fi, notify_fi, handle_fi_request,
}
use fiu_data_governance.Aggregator.Routes.{run_task, handle_event, run_at, run_taken, start_task}

abbrev HasTasks : List Task → Aggregator → Type 0
HasTasks ts s = s.tasks ≡ ts

-- A write to the other globals.
write-HasTasks :
    {W : Type 0} {ts : List Task} (f : Aggregator → Aggregator)
    → ((s : Aggregator) → (f s).tasks ≡ s.tasks)
    → Keeps {W = W} (HasTasks ts) (modify f)
write-HasTasks f same = Keeps-modify f (λ s h. same s ∙ h)

module _ {W : Type 0} (host : Host W) {ts : List Task} where
  ruleset drain_rules =
      (keeps_rules, post_json_request-Keeps, get_json_request-Keeps, write-HasTasks, refl)

  create_consent_artifact-HasTasks :
      (h : String) (request : Json) → Keeps (HasTasks ts) (create_consent_artifact host h request)
  unfolding create_consent_artifact sign_artifact get_consent_signature notify_fiu
  create_consent_artifact-HasTasks h request = search drain_rules depth 40

  ensure_crypto_keys-HasTasks : Keeps (HasTasks ts) (ensure_crypto_keys host)
  unfolding ensure_crypto_keys
  ensure_crypto_keys-HasTasks = search drain_rules depth 40

  handle_fi_request-HasTasks :
      (session_id : String) (request : Json)
      → Keeps (HasTasks ts) (handle_fi_request host session_id request)
  unfolding handle_fi_request encrypt_fi notify_fi
  handle_fi_request-HasTasks session_id request =
      search (drain_rules, ensure_crypto_keys-HasTasks) depth 40

  start_task-HasTasks : (t : Task) → Keeps (HasTasks ts) (start_task host t)
  unfolding start_task
  start_task-HasTasks (create_artifact h request) = create_consent_artifact-HasTasks h request
  start_task-HasTasks (request_fi session_id request) =
      handle_fi_request-HasTasks session_id request

module _ {W : Type 0} (host : Host W) where
  abbrev pub run : ℕ → Sys Aggregator W → Sys Aggregator W
  run n s = (handle_event host (run_task n) s).1

  tasks-run_taken :
      (o : Option (Task × List Task)) (s : Sys Aggregator W)
      → (run_taken host o s).1.self.tasks ≡ left s.self.tasks o
  unfolding run_taken ◌>>=◌
  tasks-run_taken none s = refl
  tasks-run_taken (some (t, us)) s =
      let s' : Sys Aggregator W = record s { self = record s.self { tasks = us } } in
      then-keeps (HasTasks us) (start_task host t) _ s' ((start_task-HasTasks host t).at s' refl)
        (λ _. search drain_rules)

  run-TakesOne : TakesOne (λ s. s.tasks) run
  unfolding handle_event run_at ◌>>=◌
  run-TakesOne n s = tasks-run_taken (take_task n s.self.tasks) s

  -- When the event loop runs as many tasks as the account aggregator has, one after another and in any
  -- order, none is left, whatever the peers answer and also where a task raises: no task starts
  -- another one.
  pub tasks-run_each :
      (ns : List ℕ) (s : Sys Aggregator W)
      → IsSchedule ns (length s.self.tasks)
      → (run_each run ns s).self.tasks ≡ []
  tasks-run_each ns s h = run_each-empties (λ a. a.tasks) run run-TakesOne ns _ s h refl
