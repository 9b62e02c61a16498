-- ===== src/Logger/Gate.antt =====
-- How many lines a call of the logger prints (logger.py).
use fiu_data_governance.Prelude.{◌≡◌, String, Bool, ◌||◌, List, length, arith, if◌then◌else◌}
use fiu_data_governance.Logger.{
  Switches, log, log_received_request, log_success, log_error, log_action, log_debug,
  log_http_request, log_http_response,
}

-- A call of a function of the logger.
pub data Call (F : Type 0) : Type 0 where
  received_request success failure debug_message : String → Call F
  action : String → String → Call F
  http_request : String → String → String → F → Call F
  http_response : String → F → F → Call F

module _ {F : Type 0} (is_zero : F → Bool) (fixed1 : F → String) (switches : Switches) where
  abbrev pub printed : Call F → List String
  printed (received_request url_path) = log_received_request switches url_path
  printed (success msg) = log_success switches msg
  printed (failure msg) = log_error switches msg
  printed (debug_message msg) = log_debug switches msg
  printed (action name msg) = log_action switches name msg
  printed (http_request verb url_path url size) =
      log_http_request switches is_zero fixed1 verb url_path url size
  printed (http_response verb latency_ms size) =
      log_http_response switches is_zero fixed1 verb latency_ms size

  -- The switch that a call waits for.
  abbrev pub is_on : Call F → Bool
  is_on (debug_message msg) = switches.debug
  is_on _ = switches.verbose || switches.debug

  -- A call prints one line or none: a debug message is printed if the debug switch is on, and every
  -- other call prints if one of the two switches is on.
  pub length-printed : (c : Call F) → length (printed c) ≡ (if is_on c then 1 else 0)
  unfolding log_received_request log_success log_error log_action log_debug log_http_request
      log_http_response log
  length-printed (received_request url_path) = ground arith
  length-printed (success msg) = ground arith
  length-printed (failure msg) = ground arith
  length-printed (debug_message msg) = ground arith
  length-printed (action name msg) = ground arith
  length-printed (http_request verb url_path url size) = ground arith
  length-printed (http_response verb latency_ms size) = ground arith
