-- ===== src/Workflow/Encryption.antt =====
-- For whom the financial information is encrypted: the request of the financial information user at
-- the account aggregator, and the aggregator's at its crypto sidecar
-- (financial-information-user/src/controller.py, handle_consent_notification;
-- account-aggregator/src/controller.py, handle_fi_request).
use fiu_data_governance.Prelude.{◌≡◌, ◌∙◌, sym, ap, String, string_eq}
use fiu_data_governance.Python.Errors.{ok, ok_inj, >>=-eq-ok}
use fiu_data_governance.Python.Json.{Json}
use fiu_data_governance.Python.Subscript.{index}
use fiu_data_governance.Python.Errors.{◌>>=◌}
use fiu_data_governance.Aggregator.Messages.{crypto_request}
use fiu_data_governance.FinancialUser.Messages.{fi_request}
use fiu_data_governance.FinancialUser.Requests.{fi_request-inv, copied_material-inv, nested_key}

crypto_request-inv :
    (encoded : String) (crypto_keys request material sent : Json)
    → index request "KeyMaterial" ≡ ok material
    → crypto_request encoded crypto_keys request ≡ ok sent
    → (index sent "base64RemoteNonce" ≡ index material "Nonce")
      × ((index sent "remoteKeyMaterial" >>= nested_key) ≡ nested_key material)
      × (index sent "ourPrivateKey" ≡ index crypto_keys "privateKey")
unfolding crypto_request
crypto_request-inv encoded crypto_keys request material sent m h =
    let (material', e0, h0) = >>=-eq-ok (index request "KeyMaterial") _ h in
    let (remote_nonce, e1, h1) = >>=-eq-ok (index material' "Nonce") _ h0 in
    let (private_key, e2, h2) = >>=-eq-ok (index crypto_keys "privateKey") _ h1 in
    let (public_key, e3, h3) = >>=-eq-ok (index material' "DHPublicKey") _ h2 in
    let (key_value, e4, h4) = >>=-eq-ok (index public_key "KeyValue") _ h3 in
    let (parameters, e5, h5) = >>=-eq-ok (index public_key "Parameters") _ h4 in
    let (expiry, e6, h6) = >>=-eq-ok (index public_key "expiry") _ h5 in
    let (algorithm, e7, h7) = >>=-eq-ok (index material' "cryptoAlg") _ h6 in
    let (curve, e8, h8) = >>=-eq-ok (index material' "curve") _ h7 in
    let (params, e9, h9) = >>=-eq-ok (index material' "params") _ h8 in
    let built = sym (ok_inj h9) in
    let same = ok_inj (sym e0 ∙ m) in
    (
      ap (λ r. index r "base64RemoteNonce") built ∙ sym e1 ∙ ap (λ r. index r "Nonce") same,
      ap (λ r. index r "remoteKeyMaterial" >>= nested_key) built
          ∙ sym (ap (λ r. r >>= λ v. index v "KeyValue") e3 ∙ e4)
          ∙ ap nested_key same,
      ap (λ r. index r "ourPrivateKey") built ∙ sym e2,
    )

-- If the FIU builds a request for financial information from some key material, and the account
-- aggregator builds a request to its crypto sidecar from it, then the sidecar is asked to encrypt for
-- the nonce and the public key of that material, with the aggregator's own private key.
pub crypto_request-fi_request :
    (timestamp encoded : String) (artifact request material body crypto_keys sent : Json)
    → fi_request timestamp artifact request material ≡ ok body
    → crypto_request encoded crypto_keys body ≡ ok sent
    → (index sent "base64RemoteNonce" ≡ index material "Nonce")
      × ((index sent "remoteKeyMaterial" >>= nested_key) ≡ nested_key material)
      × (index sent "ourPrivateKey" ≡ index crypto_keys "privateKey")
crypto_request-fi_request timestamp encoded artifact request material body crypto_keys sent made
      asked =
    let (_, _, _, copied, _, _, _, _, _, e1, e2) =
      fi_request-inv timestamp artifact request material body made in
    let (n, k) = copied_material-inv material copied e1 in
    let (n', k', own) = crypto_request-inv encoded crypto_keys body copied sent e2 asked in
    (n' ∙ n, k' ∙ k, own)
