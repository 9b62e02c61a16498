-- ===== src/Aggregator/Fetch.antt =====
-- A request for financial information, once its task has run (account-aggregator/src/controller.py,
-- handle_fi_request and handle_fi_fetch).
use fiu_data_governance.Prelude.{◌≡◌, ◌≢◌, ◌∙◌, refl, ap, String, false, string_eq}
use fiu_data_governance.Prelude.Dict.{insert, lookup-insert_self}
use fiu_data_governance.Host.{Host, Sys, reads, ◌>>=◌}
use fiu_data_governance.Host.Effects.Keeps.{Keeps, keeps_rules}
use fiu_data_governance.Client.Failures.{post_json_request-Keeps}
use fiu_data_governance.Python.Errors.{Exn, ok, err}
use fiu_data_governance.Python.Json.{Json, null}
use fiu_data_governance.Aggregator.{Aggregator}
use fiu_data_governance.Aggregator.Session.{
  is_none, require_fi_data, ensure_crypto_keys, encrypt_fi, notify_fi, handle_fi_request,
  handle_fi_fetch,
}

pub require_fi_data-ok : (j : Json) → j ≢ null → require_fi_data j ≡ ok tt
require_fi_data-ok null h = absurd (h refl)
require_fi_data-ok _ h = refl

module _ {W : Type 0} (host : Host W) where
  -- Without FI data the task raises before it asks for keys or sends anything: nothing has changed.
  handle_fi_request_without_data :
      (session_id : String) (request : Json) (s : Sys Aggregator W)
      → s.self.fi_data_json ≡ null
      → handle_fi_request host session_id request s ≡ (err (Exn.exception "Missing FI data."), s)
  unfolding handle_fi_request ◌>>=◌
  handle_fi_request_without_data session_id request s e = rw e

  -- Keys that are there are used as they are: the sidecar is not asked again.
  ensure_crypto_keys_again :
      (s : Sys Aggregator W)
      → is_none s.self.crypto_keys ≡ false
      → ensure_crypto_keys host s ≡ (ok s.self.crypto_keys, s)
  unfolding ensure_crypto_keys ◌>>=◌
  ensure_crypto_keys_again s e = rw e

  notify_fi-Keeps :
      {P : Aggregator → Type 0} (session_id : String) (request : Json)
      → Keeps P (notify_fi host session_id request)
  unfolding notify_fi
  notify_fi-Keeps session_id request = search (keeps_rules, post_json_request-Keeps) depth 20

  module _ (session_id : String) (request result : Json) (s t : Sys Aggregator W)
      (some_data : s.self.fi_data_json ≢ null)
      (encrypted : encrypt_fi host s.self.fi_data_json request s ≡ (ok result, t)) where
    self-handle_fi_request :
        (handle_fi_request host session_id request s).1.self
        ≡ record t.self { sessions = insert session_id result t.self.sessions }
    unfolding handle_fi_request ◌>>=◌
    self-handle_fi_request =
        let a : Aggregator = record t.self {
          sessions = insert session_id result t.self.sessions;
        } in
        let s' : Sys Aggregator W = record { self = a; world = t.world } in
        rw (require_fi_data-ok s.self.fi_data_json some_data, encrypted)
          ((notify_fi-Keeps {P = λ b. b ≡ a} session_id request).at s' refl)

    -- If there is FI data and its encryption succeeds, then in the globals that the task of the request
    -- leaves, whether its notification of the FIU succeeds or not, GET /FI/fetch for the session
    -- returns what the encryption returned, and changes nothing.
    pub fetch-handle_fi_request :
        (u : Sys Aggregator W)
        → u.self ≡ (handle_fi_request host session_id request s).1.self
        → handle_fi_fetch host session_id u ≡ (ok result, u)
    unfolding handle_fi_fetch reads
    fetch-handle_fi_request u same =
        let e = ap (λ a. a.sessions) (same ∙ self-handle_fi_request) in
        rw (e, lookup-insert_self session_id result t.self.sessions)
