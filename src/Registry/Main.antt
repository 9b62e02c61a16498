-- ===== src/Registry/Main.antt =====
-- The start of the certificate registry (certificate-registry/src/main.py, main).
use fiu_data_governance.Prelude.Int.{pos}
use fiu_data_governance.Python.Errors.{Result, ok, ◌>>=◌}
use fiu_data_governance.Startup.{Arguments, Service, option, port_of}
use fiu_data_governance.Registry.{Registry, initial}

unfoldable pub main : Arguments → Result (Service Registry)
main args = do
  port ← port_of args (pos 80)
  ok (record {
    globals = initial;
    verbose = args.verbose;
    debug = args.debug;
    host = option args "--host" "localhost";
    port = port;
  })
