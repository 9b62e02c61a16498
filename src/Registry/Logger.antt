-- ===== src/Registry/Logger.antt =====
-- The certificate registry's copy of the logger, certificate-registry/src/logger.py, which is the same code as that of the
-- statement analysis.
use fiu_data_governance.Prelude.{String, Bool, List}
use fiu_data_governance.Logger as Shared
use fiu_data_governance.Logger.{Switches}

module _ (switches : Switches) where
  abbrev pub log : String → List String
  log = Shared.log switches

  abbrev pub log_received_request : String → List String
  log_received_request = Shared.log_received_request switches

  abbrev pub log_action : String → String → List String
  log_action = Shared.log_action switches

  abbrev pub log_success : String → List String
  log_success = Shared.log_success switches

  abbrev pub log_error : String → List String
  log_error = Shared.log_error switches

  abbrev pub log_debug : String → List String
  log_debug = Shared.log_debug switches

  module _ {F : Type 0} (is_zero : F → Bool) (fixed1 : F → String) where
    abbrev pub log_http_request : String → String → String → F → List String
    log_http_request = Shared.log_http_request switches is_zero fixed1

    abbrev pub log_http_response : String → F → F → List String
    log_http_response = Shared.log_http_response switches is_zero fixed1
