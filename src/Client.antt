-- ===== src/Client.antt =====
-- The HTTP client of the services, samples/aa-flow-based-lending/src/*/src/client.py. The three copies
-- differ in one argument: that of the financial information user does not verify certificates. Here it
-- is the argument `verify`; the copies are FinancialUser/Client, Aggregator/Client and Scoring/Client.
-- `requests` and the peers are behind `Host.send`. The default `{}` of `headers` is one shared
-- dict, which every call updates with the same two entries. The body of an answer is one text here,
-- both where the source reads `response.text` and where it decodes `response.content`, so that a body
-- which is no UTF-8 is left out.
pub mod Url
pub mod Failures
use Prim.Native.String.{◌++◌ as ◌<>◌}
use fiu_data_governance.Prelude.{
  ℕ, String, Bool, true, false, Option, none, some, List, [], ◌∷◌, string_eq, if◌then◌else◌,
}
use fiu_data_governance.Prelude.Dict.{Dict, update}
use fiu_data_governance.Host.{
  Host, HttpRequest, Outcome, response, unreachable, Verb, post, get, Action, pure, raise, lift,
  ask, ◌>>=◌,
}
use fiu_data_governance.Python.Errors.{Exn, Result, ok, err}
use fiu_data_governance.Python.Json.{Json, null, str, truthy}
use fiu_data_governance.Python.Subscript.{index, or_raise}
use fiu_data_governance.Python.Text.{first_char, last_char, drop_first, drop_last, is_slash}

-- The text before the joining slash, and the text after it.
abbrev pub without_last_slash : String → Result String
without_last_slash url = elim (last_char url) [
  | none ↦ err Exn.index_error
  | some c ↦ ok (if is_slash c then drop_last url else url)
]

abbrev pub without_first_slash : String → Result String
without_first_slash path = elim (first_char path) [
  | none ↦ err Exn.index_error
  | some c ↦ ok (if is_slash c then drop_first path else path)
]

abbrev joined : Result String → Result String → Result String
joined (ok url) (ok path) = ok (url <> "/" <> path)
joined (ok url) (err e) = err e
joined (err e) _ = err e

-- `_make_url`
unfoldable pub make_url : String → String → Result String
make_url url path = joined (without_last_slash url) (without_first_slash path)

abbrev pub request_headers : Dict String String
request_headers = ("Content-Type", "application/json") ∷ ("Accept", "application/json") ∷ []

-- `headers.update(REQUEST_HEADERS)`
abbrev update_headers : Dict String String → Dict String String
update_headers headers = update headers request_headers

-- What `raise RequestError(status_code, response_text)` raises. A body that is no JSON is caught; a
-- body that is JSON without the two entries raises from the constructor.
abbrev error_of : ℕ → Result Json → Result Json → Exn
error_of status (ok code) (ok message) = Exn.request_error status code message
error_of status (ok code) (err e) = e
error_of status (err e) _ = e

module _ {W : Type 0} (host : Host W) where
  unfoldable pub request_error : ℕ → String → Exn
  request_error status text = elim (host.loads text) [
    | ok body ↦ error_of status (index body "error_code") (index body "error_message")
    | err Exn.decode_error ↦ Exn.request_error status (str "N/A") (str text)
    | err e ↦ e
  ]

  module _ {S : Type 0} where
    -- `raise_for_status` and what follows it in `_do_post_json_request`
    unfoldable pub accept : Outcome → Action S W (ℕ × String)
    accept unreachable = raise Exn.connection_error
    accept (response status text) =
        if host.is_error status then raise (request_error status text) else pure (status, text)

    unfoldable pub post_json_request : Bool → String → String → Json → Action S W (ℕ × String)
    unfolding update
    post_json_request verify endpoint path body = do
      url ← lift (make_url endpoint path)
      outcome ← ask (
          host.send (record {
            verb = post;
            url = url;
            headers = update_headers [];
            body = body;
            query = null;
            verify = verify;
          }))
      accept outcome

    unfoldable pub get_json_request : Bool → String → String → Json → Action S W (ℕ × String)
    unfolding update
    get_json_request verify endpoint path query = do
      url ← lift (make_url endpoint path)
      outcome ← ask (
          host.send (record {
            verb = get;
            url = url;
            headers = update_headers [];
            body = null;
            query = if truthy query then query else null;
            verify = verify;
          }))
      accept outcome
