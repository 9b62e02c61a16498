-- ===== src/Logger.antt =====
-- The loggers of the services, samples/aa-flow-based-lending/src/*/src/logger.py: what each call
-- prints, under the two switches of the module. Three of the copies are this code; those of the account
-- aggregator and of the financial information user differ in a function (Aggregator/Logger and
-- FinancialUser/Logger). Numbers with a fraction are of a type `F`, with the test for zero and the
-- format `.1f`.
pub mod Gate
use Prim.Native.String.{◌++◌ as ◌<>◌}
use fiu_data_governance.Prelude.{String, Bool, ◌||◌, List, [], ◌∷◌, if◌then◌else◌}

abbrev pub header : String
header = "\u{1b}[95m"

abbrev pub okblue : String
okblue = "\u{1b}[94m"

abbrev pub okgreen : String
okgreen = "\u{1b}[92m"

abbrev pub error : String
error = "\u{1b}[91m"

-- `END`
abbrev pub reset : String
reset = "\u{1b}[0m"

abbrev pub bold : String
bold = "\u{1b}[1m"

abbrev pub underline : String
underline = "\u{1b}[4m"

pub record Switches : Type 0 where
  pub verbose : Bool
  pub debug : Bool

module _ (switches : Switches) where
  unfoldable pub log : String → List String
  log msg = if switches.verbose || switches.debug then msg ∷ [] else []

  unfoldable pub log_received_request : String → List String
  log_received_request url_path = log (
      okblue <> bold <> "Received " <> underline <> url_path <> reset <> " " <> okblue <> bold
      <> "request" <> reset)

  unfoldable pub log_success : String → List String
  log_success msg = log (okgreen <> bold <> msg <> reset)

  unfoldable pub log_error : String → List String
  log_error msg = log (error <> bold <> msg <> reset)

  unfoldable pub log_action : String → String → List String
  log_action action msg = log (okgreen <> bold <> underline <> action <> reset <> ": " <> msg)

  unfoldable pub log_debug : String → List String
  unfolding log
  log_debug msg =
      if switches.debug
      then log (header <> bold <> underline <> "DEBUG" <> reset <> ": " <> msg)
      else []

  module _ {F : Type 0} (is_zero : F → Bool) (fixed1 : F → String) where
    unfoldable pub log_http_request : String → String → String → F → List String
    log_http_request verb url_path url size =
        let sending =
          header <> bold <> "Sending " <> verb <> " " <> underline <> url_path <> reset <> " "
          <> header <> bold <> "request to " <> url in
        if is_zero size
        then log (sending <> reset)
        else log (sending <> " (" <> fixed1 size <> " KiB)" <> reset)

    unfoldable pub log_http_response : String → F → F → List String
    log_http_response verb latency_ms size =
        let received =
          okgreen
          <> bold
          <> "Received "
          <> verb
          <> " response after "
          <> fixed1 latency_ms
          <> " ms" in
        if is_zero size
        then log (received <> reset)
        else log (received <> " (" <> fixed1 size <> " KiB)" <> reset)
