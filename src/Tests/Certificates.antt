-- ===== src/Tests/Certificates.antt =====
-- The certificate of the account aggregator, with the certificate registry in its world.
use fiu_data_governance.Prelude.{◌≡◌, refl, ℕ, ap, true, [], ◌∷◌, some}
use fiu_data_governance.Host.{Sys, Host}
use fiu_data_governance.Python.Errors.{ok}
use fiu_data_governance.Python.Json.{null}
use fiu_data_governance.Client.{make_url}
use fiu_data_governance.Client.Failures.{post_request}
use fiu_data_governance.Aggregator.{Aggregator, initial}
use fiu_data_governance.Aggregator.Routes.{setup_cr_url}
use fiu_data_governance.Registry.{Registry, store_certificate}
use fiu_data_governance.Registry as Cr
use fiu_data_governance.Registry.Laws.{asked_times, HandsOut}
use fiu_data_governance.TestClient.{url_body}
use fiu_data_governance.Workflow.Peers.{Serves}
use fiu_data_governance.Workflow.Certificate.{setup_cr_url-certificate}
use fiu_data_governance.Tests.Hosts.{Script, scripted, plain, serve}

abbrev cr : Host Script
cr = scripted []

-- The world of the account aggregator is the certificate registry.
abbrev World : Type 0
World = Sys Registry Script

abbrev aa : Host World
aa = record plain {
  send = λ r w. serve (store_certificate cr r.body w);
  loads = λ text. ok cr.public_jwk;
  public_jwk = cr.public_jwk;
}

abbrev start : Sys Aggregator World
start = record {
  self = initial "aa" "http://fiu" "http://crypto";
  world = record { self = Cr.initial; world = record { outcomes = []; names = "txn-1" ∷ [] } };
}

Serves-store_certificate :
    Serves aa cr
      (λ w. w)
      (post_request true "http://cr/certificate/AA" aa.public_jwk)
      (store_certificate cr aa.public_jwk)
Serves-store_certificate answer w t h = (t, ap serve h, refl)

setup_cr_url-certificate_example :
    let (r, t) = setup_cr_url aa (url_body (some "http://cr/")) start in
    (r ≡ ok null)
    × (t.self ≡ record start.self { url_cr = some "http://cr/" })
    × ((n : ℕ) → HandsOut cr cr.public_jwk (asked_times cr n t.world))
unfolding make_url
setup_cr_url-certificate_example =
    setup_cr_url-certificate aa cr (λ w. w) "http://cr/" "http://cr/certificate/AA" start refl refl
      refl Serves-store_certificate
