-- ===== src/Aggregator.antt =====
-- The account aggregator (AA), samples/aa-flow-based-lending/src/account-aggregator/src:
-- controller.py (its globals are the record `Aggregator`, its functions are in Consent and Session)
-- and main.py (Routes). A task that `asyncio.ensure_future` started and that has not run stands in
-- `tasks`. The bodies of requests and responses are built in Messages.
pub mod Main
pub mod Start
pub mod Client
pub mod Logger
pub mod Messages
pub mod Consent
pub mod Session
pub mod Routes
pub mod Invariant
pub mod Status
pub mod Fetch
pub mod Contract
pub mod Drain
use fiu_data_governance.Prelude.{String, Option, none, List, []}
use fiu_data_governance.Prelude.Dict.{Dict}
use fiu_data_governance.Python.Json.{Json, null}

pub data Task : Type 0 where
  create_artifact : String → Json → Task
  request_fi : String → Json → Task

pub record Aggregator : Type 0 where
  -- the configuration
  pub id : String
  pub url_cr : Option String
  pub url_fiu : String
  pub url_crypto : String
  -- the other globals of the controller, `null` for None
  pub crypto_keys : Json
  pub fi_data_json : Json
  pub consent_handles : Dict String (Json × String)
  pub consent_claims : Dict String Json
  pub consent_artifacts : Dict String Json
  pub sessions : Dict String Json
  -- the tasks that wait for the event loop
  pub tasks : List Task

abbrev pub initial : String → String → String → Aggregator
initial id url_fiu url_crypto = record {
  id = id;
  url_cr = none;
  url_fiu = url_fiu;
  url_crypto = url_crypto;
  crypto_keys = null;
  fi_data_json = null;
  consent_handles = [];
  consent_claims = [];
  consent_artifacts = [];
  sessions = [];
  tasks = [];
}
