-- ===== src/Aggregator/Invariant/Frame.antt =====
-- What the handlers of the account aggregator other than those that write the consent tables keep
-- true of the globals: whatever does not depend on the four globals that they write, and allows one
-- more task for financial information (account-aggregator/src/controller.py and main.py).
use fiu_data_governance.Prelude.{String, [], ◌∷◌, ◌++◌, some, string_eq}
use fiu_data_governance.Prelude.Dict.{Dict, insert}
use fiu_data_governance.Host.{Host, modify}
use fiu_data_governance.Host.Effects.Keeps.{Keeps, Keeps-modify, keeps_rules}
use fiu_data_governance.Client.Failures.{post_json_request-Keeps, get_json_request-Keeps}
use fiu_data_governance.Python.Json.{Json}
use fiu_data_governance.Aggregator.{Aggregator, request_fi}
use fiu_data_governance.Aggregator.Consent.{
  setup_certificate, handle_consent_handle, get_consent_artifact,
}
use fiu_data_governance.Aggregator.Session.{
  ensure_crypto_keys, encrypt_fi, notify_fi, handle_fi_request, handle_fi_fetch,
}
use fiu_data_governance.Aggregator.Routes.{
  ensure_future, setup_cr_url, setup_statements, process_fi_request,
}

pub record Framed (P : Aggregator → Type 0) : Type 0 where
  pub url_cr : (url : String) (s : Aggregator) → P s → P (record s { url_cr = some url })
  pub fi_data_json : (j : Json) (s : Aggregator) → P s → P (record s { fi_data_json = j })
  pub crypto_keys : (j : Json) (s : Aggregator) → P s → P (record s { crypto_keys = j })
  pub sessions : (d : Dict String Json) (s : Aggregator) → P s → P (record s { sessions = d })
  pub request_task :
      (session_id : String) (request : Json) (s : Aggregator)
      → P s
      → P (record s { tasks = s.tasks ++ request_fi session_id request ∷ [] })

module _ {W : Type 0} (host : Host W) {P : Aggregator → Type 0} (framed : Framed P) where
  url_cr-Keeps : (url : String) → Keeps {W = W} P (modify (λ s. record s { url_cr = some url }))
  url_cr-Keeps url = Keeps-modify _ (framed.url_cr url)

  fi_data_json-Keeps : (j : Json) → Keeps {W = W} P (modify (λ s. record s { fi_data_json = j }))
  fi_data_json-Keeps j = Keeps-modify _ (framed.fi_data_json j)

  crypto_keys-Keeps : (j : Json) → Keeps {W = W} P (modify (λ s. record s { crypto_keys = j }))
  crypto_keys-Keeps j = Keeps-modify _ (framed.crypto_keys j)

  sessions-Keeps :
      (k : String) (j : Json)
      → Keeps {W = W} P (modify (λ s. record s { sessions = insert k j s.sessions }))
  sessions-Keeps k j = Keeps-modify _ (λ s h. framed.sessions (insert k j s.sessions) s h)

  request_fi-Keeps :
      (session_id : String) (request : Json)
      → Keeps {W = W} P (ensure_future (request_fi session_id request))
  request_fi-Keeps session_id request = Keeps-modify _ (framed.request_task session_id request)

  ruleset frame_rules = (
    keeps_rules, post_json_request-Keeps, get_json_request-Keeps, url_cr-Keeps, fi_data_json-Keeps,
    crypto_keys-Keeps, sessions-Keeps, request_fi-Keeps,
  )

  pub setup_cr_url-Keeps : (request : Json) → Keeps P (setup_cr_url host request)
  unfolding setup_cr_url setup_certificate
  setup_cr_url-Keeps request = search frame_rules depth 20

  pub setup_statements-Keeps : (statements : Json) → Keeps P (setup_statements host statements)
  unfolding setup_statements
  setup_statements-Keeps statements = search frame_rules

  ensure_crypto_keys-Keeps : Keeps P (ensure_crypto_keys host)
  unfolding ensure_crypto_keys
  ensure_crypto_keys-Keeps = search frame_rules depth 20

  pub handle_fi_request-Keeps :
      (session_id : String) (request : Json) → Keeps P (handle_fi_request host session_id request)
  unfolding handle_fi_request encrypt_fi notify_fi
  handle_fi_request-Keeps session_id request =
      search (frame_rules, ensure_crypto_keys-Keeps) depth 40

  pub process_fi_request-Keeps : (request : Json) → Keeps P (process_fi_request host request)
  unfolding process_fi_request
  process_fi_request-Keeps request = search (frame_rules) depth 20

  pub handle_consent_handle-Keeps : (h : String) → Keeps P (handle_consent_handle host h)
  unfolding handle_consent_handle
  handle_consent_handle-Keeps h = search frame_rules depth 20

  pub get_consent_artifact-Keeps : (i : String) → Keeps P (get_consent_artifact host i)
  unfolding get_consent_artifact
  get_consent_artifact-Keeps i = search frame_rules

  pub handle_fi_fetch-Keeps : (k : String) → Keeps P (handle_fi_fetch host k)
  unfolding handle_fi_fetch
  handle_fi_fetch-Keeps k = search frame_rules
