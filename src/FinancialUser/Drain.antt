-- ===== src/FinancialUser/Drain.antt =====
-- The tasks of the financial information user come to an end: a task that the event loop runs starts no
-- other one, whether it returns or raises (financial-information-user/src/controller.py and main.py).
use fiu_data_governance.Prelude.{◌≡◌, ◌∙◌, refl, ℕ, Option, none, some, List, [], length}
use fiu_data_governance.Host.{Host, Sys, modify, ◌>>=◌}
use fiu_data_governance.Host.Tasks.{take_task}
use fiu_data_governance.Host.Tasks.Drain.{IsSchedule, left, run_each, TakesOne, run_each-empties}
use fiu_data_governance.Host.Effects.Keeps.{Keeps, Keeps-modify, then-keeps, keeps_rules}
use fiu_data_governance.Client.Failures.{post_json_request-Keeps, get_json_request-Keeps}
use fiu_data_governance.Python.Json.{Json}
use fiu_data_governance.FinancialUser.{
  FinancialUser, Task, workflow, consent_notification, fi_notification,
}
use fiu_data_governance.FinancialUser.Handlers.{
  get_ccr_public_key, open_transaction, start_workflow, handle_consent_notification, assemble,
  prepare_process_request, handle_fi_notification,
}
use fiu_data_governance.FinancialUser.Routes.{run_task, handle_event, run_at, run_taken, start_task}

abbrev HasTasks : List Task → FinancialUser → Type 0
HasTasks ts s = s.tasks ≡ ts

-- A write to the other globals.
write-HasTasks :
    {W : Type 0} {ts : List Task} (f : FinancialUser → FinancialUser)
    → ((s : FinancialUser) → (f s).tasks ≡ s.tasks)
    → Keeps {W = W} (HasTasks ts) (modify f)
write-HasTasks f same = Keeps-modify f (λ s h. same s ∙ h)

module _ {W : Type 0} (host : Host W) {ts : List Task} where
  ruleset drain_rules =
      (keeps_rules, post_json_request-Keeps, get_json_request-Keeps, write-HasTasks, refl)

  start_workflow-HasTasks : (data_json : Json) → Keeps (HasTasks ts) (start_workflow host data_json)
  unfolding start_workflow open_transaction get_ccr_public_key
  start_workflow-HasTasks data_json = search drain_rules depth 60

  handle_consent_notification-HasTasks :
      (request : Json) → Keeps (HasTasks ts) (handle_consent_notification host request)
  unfolding handle_consent_notification
  handle_consent_notification-HasTasks request = search drain_rules depth 60

  handle_fi_notification-HasTasks :
      (request : Json) → Keeps (HasTasks ts) (handle_fi_notification host request)
  unfolding handle_fi_notification prepare_process_request assemble
  handle_fi_notification-HasTasks request = search drain_rules depth 60

  start_task-HasTasks : (t : Task) → Keeps (HasTasks ts) (start_task host t)
  unfolding start_task
  start_task-HasTasks (workflow request) = start_workflow-HasTasks request
  start_task-HasTasks (consent_notification request) = handle_consent_notification-HasTasks request
  start_task-HasTasks (fi_notification request) = handle_fi_notification-HasTasks request

module _ {W : Type 0} (host : Host W) where
  abbrev pub run : ℕ → Sys FinancialUser W → Sys FinancialUser W
  run n s = (handle_event host (run_task n) s).1

  tasks-run_taken :
      (o : Option (Task × List Task)) (s : Sys FinancialUser W)
      → (run_taken host o s).1.self.tasks ≡ left s.self.tasks o
  unfolding run_taken ◌>>=◌
  tasks-run_taken none s = refl
  tasks-run_taken (some (t, us)) s =
      let s' : Sys FinancialUser W = record s { self = record s.self { tasks = us } } in
      then-keeps (HasTasks us) (start_task host t) _ s' ((start_task-HasTasks host t).at s' refl)
        (λ _. search drain_rules)

  run-TakesOne : TakesOne (λ s. s.tasks) run
  unfolding handle_event run_at ◌>>=◌
  run-TakesOne n s = tasks-run_taken (take_task n s.self.tasks) s

  -- When the event loop runs as many tasks as the financial information user has, one after another and
  -- in any order, none is left, whatever the peers answer and also where a task raises: no task starts
  -- another one.
  pub user_tasks-run_each :
      (ns : List ℕ) (s : Sys FinancialUser W)
      → IsSchedule ns (length s.self.tasks)
      → (run_each run ns s).self.tasks ≡ []
  user_tasks-run_each ns s h = run_each-empties (λ a. a.tasks) run run-TakesOne ns _ s h refl
