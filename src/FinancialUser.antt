-- ===== src/FinancialUser.antt =====
-- The financial information user (FIU), samples/aa-flow-based-lending/src/financial-information-user/src:
-- controller.py (its globals are the record `FinancialUser`, its functions are in Messages and
-- Handlers) and main.py (Routes). A task that has been started and has not run stands in `tasks`.
pub mod Main
pub mod Client
pub mod Logger
pub mod Messages
pub mod Handlers
pub mod Routes
pub mod Payload
pub mod Transactions
pub mod Requests
pub mod Artifacts
pub mod Reach
pub mod Material
pub mod Outcome
pub mod Drain
use fiu_data_governance.Prelude.{String, List, []}
use fiu_data_governance.Prelude.Dict.{Dict}
use fiu_data_governance.Python.Json.{Json, null}
use fiu_data_governance.Python.Key.{Key}

pub data Task : Type 0 where
  workflow consent_notification fi_notification : Json → Task

pub record FinancialUser : Type 0 where
  pub url_bre : String
  pub url_aa : String
  -- `null` for None
  pub ccr_public_key_material : Json
  pub txn_ids : Dict Key Json
  pub consent_requests : Dict Key Json
  pub consent_artifacts : Dict Key Json
  pub tasks : List Task

abbrev pub initial : String → String → FinancialUser
initial url_bre url_aa = record {
  url_bre = url_bre;
  url_aa = url_aa;
  ccr_public_key_material = null;
  txn_ids = [];
  consent_requests = [];
  consent_artifacts = [];
  tasks = [];
}
