-- ===== src/Workflow/Certificate.antt =====
-- The certificate of the account aggregator at the certificate registry
-- (account-aggregator/src/controller.py, setup_certificate; certificate-registry/src).
use fiu_data_governance.Prelude.{
  ◌≡◌, refl, sym, ℕ, ap, ◌∙◌, String, true, false, some, [], ◌∷◌, string_eq,
}
use fiu_data_governance.Host.{Host, Sys, ◌>>=◌}
use fiu_data_governance.Python.Errors.{ok}
use fiu_data_governance.Python.Json.{null, str, object}
use fiu_data_governance.Client.{make_url}
use fiu_data_governance.Client.Failures.{post_request}
use fiu_data_governance.Aggregator.{Aggregator}
use fiu_data_governance.Aggregator.Consent.{setup_certificate}
use fiu_data_governance.Aggregator.Routes.{setup_cr_url}
use fiu_data_governance.Registry.{Registry, store_certificate}
use mathlib.Core.Path.{subst}
use fiu_data_governance.Registry.Laws.{asked_times, HandsOut, HandsOut-asked_times}
use fiu_data_governance.TestClient.{url_body}
use fiu_data_governance.Workflow.Peers.{Serves, Understands, post-served}

module _ {W V : Type 0} (aa : Host W) (cr : Host V) (peer : W → Sys Registry V) where
  -- The account aggregator takes the URL of the certificate registry as the test client sends it: with
  -- the certificate registry behind that URL the route returns, the account aggregator has kept the URL
  -- and changed nothing else, and until another certificate is stored, that is, after any number of
  -- requests for the entity information, the certificate registry answers the next one, and has the
  -- account aggregator's public key as "certificate" in the "entityinfo" of its answer's first element.
  -- The account aggregator can read its own key back from JSON.
  pub setup_cr_url-certificate :
      (endpoint url : String) (s : Sys Aggregator W)
      → make_url endpoint "certificate/AA" ≡ ok url
      → aa.is_error 200 ≡ false
      → Understands aa aa aa.public_jwk
      → Serves aa cr peer (post_request true url aa.public_jwk) (store_certificate cr aa.public_jwk)
      → let (r, t) = setup_cr_url aa (url_body (some endpoint)) s in
        (r ≡ ok null)
        × (t.self ≡ record s.self { url_cr = some endpoint })
        × ((n : ℕ) → HandsOut cr aa.public_jwk (asked_times cr n (peer t.world)))
  unfolding setup_cr_url setup_certificate store_certificate ◌>>=◌
  setup_cr_url-certificate endpoint url s built accepted own serves =
      let p = peer s.world in
      let self' : Aggregator = record s.self { url_cr = some endpoint } in
      let p' : Sys Registry V = record {
        self = record p.self { certificate = aa.public_jwk };
        world = (cr.now p.world).1;
      } in
      let (v, sent, after) =
        post-served aa cr peer true endpoint "certificate/AA" url
          (store_certificate cr aa.public_jwk) accepted built
          (object (("timestamp", str (cr.now p.world).0) ∷ []))
          (record { self = self'; world = s.world }) p' refl aa.public_jwk serves in
      let run : setup_cr_url aa (url_body (some endpoint)) s
          ≡ (ok null, record { self = self'; world = v }) =
        rw (own, sent) in
      let now_at : peer (setup_cr_url aa (url_body (some endpoint)) s).1.world ≡ p' =
        ap (λ q. peer q.1.world) run ∙ after in
      (
        ap (λ q. q.0) run,
        ap (λ q. q.1.self) run,
        λ n.
            subst (λ q. HandsOut cr aa.public_jwk (asked_times cr n q)) (sym now_at)
              (HandsOut-asked_times cr n p'),
      )
