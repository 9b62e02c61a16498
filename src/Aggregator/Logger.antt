-- ===== src/Aggregator/Logger.antt =====
-- The account aggregator's copy of the logger, account-aggregator/src/logger.py, whose line for a
-- response has no size.
use Prim.Native.String.{◌++◌ as ◌<>◌}
use fiu_data_governance.Prelude.{String, Bool, List}
use fiu_data_governance.Logger as Shared
use fiu_data_governance.Logger.{Switches}

module _ (switches : Switches) where
  abbrev pub log : String → List String
  log = Shared.log switches

  abbrev pub log_received_request : String → List String
  log_received_request = Shared.log_received_request switches

  abbrev pub log_action : String → String → List String
  log_action = Shared.log_action switches

  abbrev pub log_debug : String → List String
  log_debug = Shared.log_debug switches

  module _ {F : Type 0} (is_zero : F → Bool) (fixed1 : F → String) where
    abbrev pub log_http_request : String → String → String → F → List String
    log_http_request = Shared.log_http_request switches is_zero fixed1

    unfoldable pub log_http_response : String → F → List String
    log_http_response verb latency_ms = log (
        Shared.okgreen
        <> Shared.bold
        <> "Received "
        <> verb
        <> " response after "
        <> fixed1 latency_ms
        <> " ms"
        <> Shared.reset)
