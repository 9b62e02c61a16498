-- ===== src/Scoring/Main.antt =====
-- The start of the business rule engine (business-rule-engine/src/main.py, main). `environment` are
-- the variables of os.environ.
use fiu_data_governance.Prelude.{String, none, some, string_eq}
use fiu_data_governance.Prelude.Dict.{Dict, lookup}
use fiu_data_governance.Prelude.Int.{pos}
use fiu_data_governance.Python.Errors.{Result, ok, ◌>>=◌}
use fiu_data_governance.Startup.{Arguments, Service, option, port_of}
use fiu_data_governance.Scoring.Service.{Engine}

-- `environment.get(name, otherwise)`
abbrev pub environment_or : Dict String String → String → String → String
environment_or environment name otherwise = elim (lookup name environment) [
  | none ↦ otherwise
  | some value ↦ value
]

unfoldable pub main : Dict String String → Arguments → Result (Service Engine)
main environment args = do
  port ← port_of args (pos 80)
  let url_sa = option args "--url-sa" "http://statement-analysis:8000/"
  ok (record {
    globals = record { url_sa = environment_or environment "SA_URL" url_sa };
    verbose = args.verbose;
    debug = args.debug;
    host = option args "--host" "localhost";
    port = port;
  })
