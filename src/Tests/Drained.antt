-- ===== src/Tests/Drained.antt =====
-- Services with tasks whose peers are out of reach, and typed statements.
use fiu_data_governance.Prelude.{ℕ, ◌≡◌, refl, [], ◌∷◌, arith}
use fiu_data_governance.Host.{Sys}
use fiu_data_governance.Python.Errors.{ok}
use fiu_data_governance.Python.Json.{Json, null}
use fiu_data_governance.Python.Schema.{HasType}
use fiu_data_governance.Host.Tasks.Drain.{run_each}
use fiu_data_governance.Aggregator as Aa
use fiu_data_governance.Aggregator.{Aggregator, create_artifact, request_fi}
use fiu_data_governance.Aggregator.Drain as AaDrain
use fiu_data_governance.FinancialUser as Fiu
use fiu_data_governance.FinancialUser.{FinancialUser, workflow, fi_notification}
use fiu_data_governance.FinancialUser.Drain as FiuDrain
use fiu_data_governance.Analysis.{aggregate_statements}
use fiu_data_governance.Analysis.Typed.{statements_type, flow_type, aggregate_statements-HasType}
use fiu_data_governance.Scoring.{compute_score}
use fiu_data_governance.Generator.{generate}
use fiu_data_governance.Generator.Typed.{generate-HasType}
use fiu_data_governance.Tests.Documents.{host, answers}
use fiu_data_governance.Tests.Hosts.{Script}
use fiu_data_governance.Tests.Generated.{draw, draws, date_text, datetime_text}

abbrev aggregator : Sys Aggregator Script
aggregator = record {
  self = record (Aa.initial "aa" "http://fiu" "http://crypto") {
    tasks = create_artifact "handle-1" null ∷ request_fi "session-1" null ∷ [];
  };
  world = answers [];
}

tasks-run_each_example : (run_each (AaDrain.run host) (1 ∷ 0 ∷ []) aggregator).self.tasks ≡ []
tasks-run_each_example =
    AaDrain.tasks-run_each host (1 ∷ 0 ∷ []) aggregator (omega arith, (omega arith, refl))

abbrev user : Sys FinancialUser Script
user = record {
  self = record (Fiu.initial "http://ccr" "http://aa") {
    tasks = workflow null ∷ fi_notification null ∷ [];
  };
  world = answers [];
}

user_tasks-run_each_example : (run_each (FiuDrain.run host) (0 ∷ 0 ∷ []) user).self.tasks ≡ []
user_tasks-run_each_example =
    FiuDrain.user_tasks-run_each host (0 ∷ 0 ∷ []) user (omega arith, (omega arith, refl))

abbrev statements : Json
statements = generate date_text datetime_text draws

aggregate_statements-HasType_example :
    (aggregated : Json) × (score : ℕ) × (aggregate_statements statements ≡ ok aggregated)
    × HasType (statements_type flow_type) aggregated
    × (compute_score aggregated ≡ ok score)
aggregate_statements-HasType_example =
    aggregate_statements-HasType statements
      (generate-HasType date_text datetime_text (draw "CREDIT" 5000) (draw "DEBIT" 1500 ∷ []))
