-- ===== src/Analysis/Main.antt =====
-- The start of the statement analysis (statement-analysis/src/main.py, main).
use fiu_data_governance.Prelude.Int.{pos}
use fiu_data_governance.Python.Errors.{Result, ok, ◌>>=◌}
use fiu_data_governance.Startup.{Arguments, Service, option, port_of}

unfoldable pub main : Arguments → Result (Service (Unit {0}))
main args = do
  port ← port_of args (pos 80)
  ok (record {
    globals = tt;
    verbose = args.verbose;
    debug = args.debug;
    host = option args "--host" "localhost";
    port = port;
  })
