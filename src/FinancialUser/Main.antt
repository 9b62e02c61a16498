-- ===== src/FinancialUser/Main.antt =====
-- The start of the financial information user (financial-information-user/src/main.py, main).
use fiu_data_governance.Prelude.Int.{pos}
use fiu_data_governance.Python.Errors.{Result, ok, ◌>>=◌}
use fiu_data_governance.Startup.{Arguments, Service, option, port_of}
use fiu_data_governance.FinancialUser.{FinancialUser, initial}

unfoldable pub main : Arguments → Result (Service FinancialUser)
main args = do
  port ← port_of args (pos 8001)
  let url_bre = option args "--url-bre" "http://127.0.0.1:8888/"
  let url_aa = option args "--url-aa" "http://account-aggregator:8000/"
  ok (record {
    globals = initial url_bre url_aa;
    verbose = args.verbose;
    debug = args.debug;
    host = option args "--host" "127.0.0.1";
    port = port;
  })
