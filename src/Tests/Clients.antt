-- ===== src/Tests/Clients.antt =====
-- Requests of the client, with answers that succeed, that describe an error, and that do not.
use fiu_data_governance.Prelude.{◌≡◌, refl, true, String, [], ◌∷◌, inr, string_eq}
use fiu_data_governance.Prelude.Dict.{Dict, lookup}
use fiu_data_governance.Host.{Sys, Host, Outcome, response}
use fiu_data_governance.Python.Errors.{Exn, ok, err}
use fiu_data_governance.Python.Json.{Json, null, str, object}
use fiu_data_governance.Client.{make_url, post_json_request}
use fiu_data_governance.Client.Url.{make_url-one_slash, one_slash}
use fiu_data_governance.Client.Failures.{post-RequestError, post-hides_status}
use fiu_data_governance.Tests.Hosts.{Script, scripted}

make_url-one_slash_example :
    (make_url "http://aa:80" "Consent" ≡ one_slash "http://aa:80" "Consent")
    × (make_url "http://aa:80/" "Consent" ≡ one_slash "http://aa:80" "Consent")
    × (make_url "http://aa:80" "/Consent" ≡ one_slash "http://aa:80" "Consent")
    × (make_url "http://aa:80/" "/Consent" ≡ one_slash "http://aa:80" "Consent")
make_url-one_slash_example = make_url-one_slash "http://aa:80" "Consent" refl refl

-- An answer that describes an error, and one of the kind that FastAPI gives to an HTTPException.
abbrev described : Json
described = object (("error_code", str "E1") ∷ ("error_message", str "no such consent") ∷ [])

abbrev undescribed : Json
undescribed = object (("detail", str "Not Found") ∷ [])

abbrev documents : Dict String Json
documents = ("described", described) ∷ ("undescribed", undescribed) ∷ []

abbrev host : Host Script
host = scripted documents

abbrev answered : Outcome → Sys String Script
answered outcome = record {
  self = "globals";
  world = record { outcomes = outcome ∷ []; names = [] };
}

abbrev failed : String → Sys String Script
failed text = answered (response 404 text)

url_run : make_url "http://aa" "Consent" ≡ ok "http://aa/Consent"
unfolding make_url
url_run = refl

loads_described : host.loads "described" ≡ ok described
unfolding lookup
loads_described = refl

loads_undescribed : host.loads "undescribed" ≡ ok undescribed
unfolding lookup
loads_undescribed = refl

post-RequestError_example :
    (post_json_request host true "http://aa" "Consent" null (failed "described")).0
    ≡ err (Exn.request_error 404 (str "E1") (str "no such consent"))
post-RequestError_example =
    post-RequestError host true "http://aa" "Consent" "http://aa/Consent" "described" 404 null
      (failed "described") url_run refl refl (str "E1") (str "no such consent")
      (inr (described, loads_described, refl, refl))

post-hides_status_example :
    (post_json_request host true "http://aa" "Consent" null (failed "undescribed")).0
    ≡ err (Exn.key_error "error_code")
post-hides_status_example =
    post-hides_status host true "http://aa" "Consent" "http://aa/Consent" "undescribed" 404 null
      (failed "undescribed") url_run refl refl undescribed (Exn.key_error "error_code")
      loads_undescribed refl
