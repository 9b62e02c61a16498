-- ===== src/Aggregator/Start.antt =====
-- How the account aggregator starts (account-aggregator/src/main.py, main).
use Prim.Native.String.{◌++◌ as ◌<>◌}
use text.Mathlib.TextLemmas.{cons-append}
use fiu_data_governance.Prelude.{
  arith, ◌∙◌, ◌≡◌, ◌≢◌, ◌⊎◌, inl, inr, refl, sym, ap, Bool-cases, Option-cases, String, Option,
  none, some, [], ◌==◌, string_eq,
}
use fiu_data_governance.Prelude.Dict.{lookup}
use fiu_data_governance.Prelude.Int.{ℤ, pos}
use fiu_data_governance.Host.{Host}
use fiu_data_governance.Python.Errors.{Exn, ok, err}
use fiu_data_governance.Python.Text.{parse_int, first_char}
use fiu_data_governance.Startup.{Arguments, Service, option, port_of}
use fiu_data_governance.Aggregator.{Aggregator, initial}
use fiu_data_governance.Aggregator.Main.{id_or_new, main}

new_id_lem : (unique : String) → ("AA" <> "-" <> unique) ≢ ""
new_id_lem unique e =
    let first = ap first_char (sym (cons-append "A" "A" ("-" <> unique)) ∙ e) in absurd (cc first)

id_or_new_lem : (given : Option String) (unique : String) → id_or_new given unique ≢ ""
id_or_new_lem none unique = new_id_lem unique
id_or_new_lem (some id) unique = elim (Bool-cases (id == "")) [
  | inl empty ↦ rw empty (new_id_lem unique)
  | inr given ↦ rw given (λ e. absurd (cc ((string_eq.beq_iff id "").1 e)))
]

module _ {W : Type 0} (host : Host W) where
  -- The service runs, under an id that is not empty, and with nothing in its tables.
  abbrev pub IsStarted : Arguments → W → Type 0
  IsStarted args w =
      (service : Service Aggregator) × (main host args w ≡ ok service)
      × (service.globals.id ≢ "")
      × (service.globals.consent_handles ≡ [])
      × (service.globals.sessions ≡ [])
      × (service.globals.tasks ≡ [])

  service_on : Arguments → W → ℤ → Service Aggregator
  service_on args w port = record {
    globals =
        record (initial (id_or_new (lookup "--id" args.given) (host.uuid4 w).0)
          (option args "--url-fiu" "http://financial-information-user:8001/")
          (option args "--url-crypto" "http://crypto-sidecar:8283/")) {
            url_cr = lookup "--url-cr" args.given;
          };
    verbose = args.verbose;
    debug = args.debug;
    host = option args "--host" "127.0.0.1";
    port = port;
  }

  port_of-IsStarted :
      (args : Arguments) (w : W) (port : ℤ) → port_of args (pos 8000) ≡ ok port → IsStarted args w
  unfolding main service_on
  port_of-IsStarted args w port e =
      let named = id_or_new_lem (lookup "--id" args.given) (host.uuid4 w).0 in
      (service_on args w port, rw e, named, refl, refl, refl)

  port_of-exit :
      (args : Arguments) (w : W)
      → port_of args (pos 8000) ≡ err (Exn.system_exit 2)
      → main host args w ≡ err (Exn.system_exit 2)
  unfolding main
  port_of-exit args w e = rw e

  -- Every start of the account aggregator, with any arguments, ends in one of two ways: the service
  -- runs under an id that is not empty, with no consent handle, no session and no task, or the text
  -- given for the port is no number and the program ends with status 2.
  pub main-outcome :
      (args : Arguments) (w : W)
      → IsStarted args w
        ⊎ ((text : String) × (lookup "--port" args.given ≡ some text)
            × (parse_int text ≡ none)
            × (main host args w ≡ err (Exn.system_exit 2)))
  main-outcome args w = elim (Option-cases (lookup "--port" args.given)) [
    | inl missing ↦ inl (port_of-IsStarted args w (pos 8000) (rw missing))
    | inr (text, given) ↦ elim (Option-cases (parse_int text)) [
      | inl bad ↦ inr (text, given, bad, port_of-exit args w (ground arith))
      | inr (port, good) ↦ inl (port_of-IsStarted args w port (ground arith))
    ]
  ]
