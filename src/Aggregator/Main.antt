-- ===== src/Aggregator/Main.antt =====
-- The start of the account aggregator (account-aggregator/src/main.py, main).
use Prim.Native.String.{◌++◌ as ◌<>◌}
use fiu_data_governance.Prelude.{String, Option, none, some, ◌==◌, string_eq, if◌then◌else◌}
use fiu_data_governance.Prelude.Dict.{lookup}
use fiu_data_governance.Prelude.Int.{pos}
use fiu_data_governance.Host.{Host}
use fiu_data_governance.Python.Errors.{Result, ok, ◌>>=◌}
use fiu_data_governance.Startup.{Arguments, Service, option, port_of}
use fiu_data_governance.Aggregator.{Aggregator, initial}

-- `args.id`, or a new one if that is None or empty.
abbrev pub id_or_new : Option String → String → String
id_or_new none unique = "AA" <> "-" <> unique
id_or_new (some id) unique = if id == "" then "AA" <> "-" <> unique else id

module _ {W : Type 0} (host : Host W) where
  unfoldable pub main : Arguments → W → Result (Service Aggregator)
  main args w = do
    port ← port_of args (pos 8000)
    let url_fiu = option args "--url-fiu" "http://financial-information-user:8001/"
    let url_crypto = option args "--url-crypto" "http://crypto-sidecar:8283/"
    let id = id_or_new (lookup "--id" args.given) (host.uuid4 w).0
    ok (record {
      globals = record (initial id url_fiu url_crypto) { url_cr = lookup "--url-cr" args.given };
      verbose = args.verbose;
      debug = args.debug;
      host = option args "--host" "127.0.0.1";
      port = port;
    })
