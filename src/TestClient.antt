-- ===== src/TestClient.antt =====
-- The test client, samples/aa-flow-based-lending/client.py: it sets the services up and starts a
-- workflow with four requests. `load` is `open` followed by `json.load`.
pub mod Order
pub mod Endpoint
use Prim.Native.String.{◌++◌ as ◌<>◌}
use fiu_data_governance.Prelude.{
  ℕ, String, Bool, true, false, Option, none, some, [], ◌∷◌, ◌==◌, string_eq, if◌then◌else◌,
}
use fiu_data_governance.Prelude.Dict.{Dict, lookup}
use fiu_data_governance.Host.{
  Host, HttpRequest, Outcome, response, unreachable, post, Action, pure, raise, lift, ask, ◌>>=◌,
  ◌>>◌,
}
use fiu_data_governance.Python.Errors.{Exn, Result, ok, err}
use fiu_data_governance.Python.Json.{Json, null, str, object}
use fiu_data_governance.Python.Text.{last_char, is_slash}
use fiu_data_governance.Client as Shared
use fiu_data_governance.Startup.{Arguments, option}

pub record Args : Type 0 where
  -- `none` for None
  pub fi : Option String
  pub consent : Option String
  pub aa_url : String
  pub fiu_url : String
  pub bre_url : Option String
  pub cr_url : Option String

abbrev pub request_headers : Dict String String
request_headers = ("Content-Type", "application/json") ∷ ("Accept", "application/json") ∷ []

-- `url`, with a slash at its end.
abbrev pub with_slash : String → Result String
with_slash url = elim (last_char url) [
  | none ↦ err Exn.index_error
  | some c ↦ ok (if is_slash c then url else url <> "/")
]

-- An argument that is given and is not empty.
abbrev pub nonempty : Option String → Option String
nonempty none = none
nonempty (some text) = if text == "" then none else some text

-- A value in JSON, with None as null.
abbrev pub optional : Option String → Json
optional none = null
optional (some text) = str text

abbrev pub url_body : Option String → Json
url_body url = object (("url", optional url) ∷ [])

-- The checks of `main`: argparse ends the program with status 2.
abbrev pub check_args : Args → Result Args
check_args args = elim (nonempty args.fi) [
  | none ↦ err (Exn.system_exit 2)
  | some fi ↦ elim (nonempty args.consent) [
    | none ↦ err (Exn.system_exit 2)
    | some consent ↦ elim (nonempty args.bre_url) [
      | none ↦ err (Exn.system_exit 2)
      | some bre ↦ elim (nonempty args.cr_url) [
        | none ↦ err (Exn.system_exit 2)
        | some cr ↦ ok args
      ]
    ]
  ]
]

abbrev pub parsed : Arguments → Args
parsed a = record {
  fi = lookup "--fi" a.given;
  consent = lookup "--consent" a.given;
  aa_url = option a "--aa-url" "http://localhost:8000/";
  fiu_url = option a "--fiu-url" "http://localhost:8011/";
  bre_url = lookup "--bre-url" a.given;
  cr_url = lookup "--cr-url" a.given;
}

abbrev pub setup_request : String → Json → HttpRequest
setup_request url body = record {
  verb = post;
  url = url;
  headers = request_headers;
  body = body;
  query = null;
  verify = true;
}

module _ {W : Type 0} (host : Host W) where
  abbrev pub request_error : ℕ → String → Exn
  request_error = Shared.request_error host

  abbrev pub accept : Outcome → Action (Unit {0}) W String
  accept unreachable = raise Exn.connection_error
  accept (response status text) =
      if host.is_error status then raise (request_error status text) else pure text

  unfoldable pub do_post_json_request : String → Json → Action (Unit {0}) W String
  do_post_json_request url body = do
    outcome ← ask (host.send (setup_request url body))
    accept outcome

  unfoldable pub send_post_json_request : String → String → Json → Action (Unit {0}) W String
  unfolding do_post_json_request
  send_post_json_request url url_path body = do
    base ← lift (with_slash url)
    do_post_json_request (base <> url_path) body

  module _ (load : String → Result Json) where
    -- `json.load` of a file that is named, or NotImplementedError.
    abbrev pub load_named : Option String → Result Json
    load_named name = elim (nonempty name) [
      | none ↦ err Exn.not_implemented
      | some file ↦ load file
    ]

    unfoldable pub process_req : Args → Action (Unit {0}) W (Unit {0})
    process_req args = do
      statements ← lift (load_named args.fi)
      send_post_json_request args.aa_url "setup/statements" statements
      consent ← lift (load_named args.consent)
      send_post_json_request args.fiu_url "setup/bre-info" (url_body args.bre_url)
      send_post_json_request args.aa_url "setup/cr-info" (url_body args.cr_url)
      send_post_json_request args.fiu_url "request" consent
      pure tt

    unfoldable pub main : Arguments → Action (Unit {0}) W (Unit {0})
    main arguments = do args ← lift (check_args (parsed arguments)); process_req args
