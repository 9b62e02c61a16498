-- ===== src/Tests/Setups.antt =====
-- The test client sets the services up, and the loggers print.
use Prim.Native.String.{◌++◌ as ◌<>◌}
use fiu_data_governance.Prelude.{
  ℕ, zero, suc, ◌≡◌, refl, true, false, Bool, String, [], ◌∷◌, some, string_eq, length,
}
use fiu_data_governance.Host.{Sys, Host, response, ◌>>=◌}
use fiu_data_governance.Python.Errors.{Result, ok}
use fiu_data_governance.Python.Json.{Json, str, object}
use fiu_data_governance.Logger.{Switches}
use fiu_data_governance.Logger.Gate.{Call, http_request, printed, length-printed}
use fiu_data_governance.TestClient.{
  Args, setup_request, url_body, with_slash, load_named, process_req, send_post_json_request,
  do_post_json_request,
}
use fiu_data_governance.TestClient.Order.{sent, process_req-sent}
use fiu_data_governance.TestClient.Endpoint.{setup_url, setup_url-make_url}
use fiu_data_governance.Client.{make_url}
use fiu_data_governance.Tests.Hosts.{Script, scripted}

abbrev switches : Switches
switches = record { verbose = true; debug = false }

-- Sizes are whole numbers here.
abbrev is_zero : ℕ → Bool
is_zero zero = true
is_zero (suc n) = false

abbrev fixed1 : ℕ → String
fixed1 n = "2.0"

abbrev call : Call ℕ
call = http_request "POST" "/Consent" "http://aa/Consent" 2

length-printed_example : length (printed is_zero fixed1 switches call) ≡ 1
length-printed_example = length-printed is_zero fixed1 switches call

setup_url-make_url_example :
    setup_url "http://localhost:8000/" "setup/cr-info"
    ≡ make_url "http://localhost:8000/" "setup/cr-info"
setup_url-make_url_example = setup_url-make_url "http://localhost:8000/" "setup/cr-info" refl

abbrev host : Host Script
host = scripted []

abbrev files : String → Result Json
files name = ok (object (("file", str name) ∷ []))

abbrev args : Args
args = record {
  fi = some "fi.json";
  consent = some "consent.json";
  aa_url = "http://localhost:8000/";
  fiu_url = "http://localhost:8011";
  bre_url = some "http://bre";
  cr_url = some "http://cr";
}

abbrev start : Sys (Unit {0}) Script
start = record {
  self = tt;
  world = record {
    outcomes =
        response 200 "null" ∷ response 200 "null" ∷ response 200 "null" ∷ response 200 "null" ∷ [];
    names = [];
  };
}

abbrev finished : Sys (Unit {0}) Script
finished = record { self = tt; world = record { outcomes = []; names = [] } }

process_req_run : process_req host files args start ≡ (ok tt, finished)
unfolding process_req send_post_json_request do_post_json_request ◌>>=◌
process_req_run = refl

process_req-sent_example :
    (statements consent : Json) × (aa fiu : String) × (load_named host files (some "fi.json")
      ≡ ok statements)
    × (load_named host files (some "consent.json") ≡ ok consent)
    × (with_slash "http://localhost:8000/" ≡ ok aa)
    × (with_slash "http://localhost:8011" ≡ ok fiu)
    × (sent host
          (setup_request (aa <> "setup/statements") statements
            ∷ setup_request (fiu <> "setup/bre-info") (url_body (some "http://bre"))
            ∷ setup_request (aa <> "setup/cr-info") (url_body (some "http://cr"))
            ∷ setup_request (fiu <> "request") consent
            ∷ [])
          start.world
        ≡ finished.world)
process_req-sent_example = process_req-sent host files args start finished process_req_run
