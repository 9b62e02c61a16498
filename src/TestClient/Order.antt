-- ===== src/TestClient/Order.antt =====
-- The requests that a run of the test client sends (client.py, process_req).
use Prim.Native.String.{◌++◌ as ◌<>◌}
use fiu_data_governance.Prelude.{◌≡◌, ◌∙◌, refl, ap, sym, arith, String, List, [], ◌∷◌}
use fiu_data_governance.Host.{
  Host, HttpRequest, Outcome, response, unreachable, Sys, lift, ask, raise, pure,
}
use fiu_data_governance.Host.Effects.{>>=-runs, lift-runs, pure-runs, ask-runs}
use fiu_data_governance.Python.Errors.{Result, ok, ok_inj}
use fiu_data_governance.Python.Json.{Json}
use fiu_data_governance.TestClient.{
  Args, accept, setup_request, url_body, with_slash, load_named, do_post_json_request,
  send_post_json_request, process_req,
}

module _ {W : Type 0} (host : Host W) where
  -- The world after some requests.
  abbrev pub sent : List HttpRequest → W → W
  sent [] w = w
  sent (r ∷ rs) w = sent rs (host.send r w).1

  accept-same : (o : Outcome) (s : Sys (Unit {0}) W) → (accept host o s).1 ≡ s
  unfolding raise pure
  accept-same unreachable s = refl
  accept-same (response status text) s = ground arith

  send-runs :
      (url path : String) (body : Json) (s : Sys (Unit {0}) W) {text : String}
      {t : Sys (Unit {0}) W}
      → send_post_json_request host url path body s ≡ (ok text, t)
      → (base : String) × (with_slash url ≡ ok base)
        × ((host.send (setup_request (base <> path) body) s.world).1 ≡ t.world)
  unfolding send_post_json_request do_post_json_request
  send-runs url path body s h =
      let (base, s1, e1, h1) = >>=-runs (lift (with_slash url)) _ s h in
      let (built, same) = lift-runs (with_slash url) s e1 in
      let request = setup_request (base <> path) body in
      let (outcome, s2, e2, h2) = >>=-runs (ask (host.send request)) _ s1 h1 in
      (
        base,
        built,
        ap (λ u. (host.send request u.world).1) same
            ∙ ask-runs (host.send request) s1 e2
            ∙ ap (λ u. u.world) (sym (accept-same outcome s2) ∙ ap (λ p. p.1) h2),
      )

  -- A run that returns has sent four requests and no other, in this order: the statements to the
  -- account aggregator, the URL of the business rule engine to the FIU, the URL of the certificate
  -- registry to the account aggregator, and the consent to the FIU, the first and the last as they are
  -- in the two files.
  pub process_req-sent :
      (load : String → Result Json) (args : Args) (s t : Sys (Unit {0}) W)
      → process_req host load args s ≡ (ok tt, t)
      → (statements consent : Json) × (aa fiu : String) × (load_named host load args.fi
          ≡ ok statements)
        × (load_named host load args.consent ≡ ok consent)
        × (with_slash args.aa_url ≡ ok aa)
        × (with_slash args.fiu_url ≡ ok fiu)
        × (sent
              (setup_request (aa <> "setup/statements") statements
                ∷ setup_request (fiu <> "setup/bre-info") (url_body args.bre_url)
                ∷ setup_request (aa <> "setup/cr-info") (url_body args.cr_url)
                ∷ setup_request (fiu <> "request") consent
                ∷ [])
              s.world
            ≡ t.world)
  unfolding process_req
  process_req-sent load args s t h =
      let (statements, s0, e0, h0) = >>=-runs (lift (load_named host load args.fi)) _ s h in
      let (l0, same0) = lift-runs (load_named host load args.fi) s e0 in
      let post1 = send_post_json_request host args.aa_url "setup/statements" statements in
      let (r1, s1, e1, h1) = >>=-runs post1 _ s0 h0 in
      let (aa, w1, p1) = send-runs args.aa_url "setup/statements" statements s0 e1 in
      let (consent, s2, e2, h2) = >>=-runs (lift (load_named host load args.consent)) _ s1 h1 in
      let (l2, same2) = lift-runs (load_named host load args.consent) s1 e2 in
      let post2 =
        send_post_json_request host args.fiu_url "setup/bre-info" (url_body args.bre_url) in
      let (r3, s3, e3, h3) = >>=-runs post2 _ s2 h2 in
      let (fiu, w3, p3) = send-runs args.fiu_url "setup/bre-info" (url_body args.bre_url) s2 e3 in
      let post3 = send_post_json_request host args.aa_url "setup/cr-info" (url_body args.cr_url) in
      let (r4, s4, e4, h4) = >>=-runs post3 _ s3 h3 in
      let (aa', w4, p4) = send-runs args.aa_url "setup/cr-info" (url_body args.cr_url) s3 e4 in
      let post4 = send_post_json_request host args.fiu_url "request" consent in
      let (r5, s5, e5, h5) = >>=-runs post4 _ s4 h4 in
      let (fiu', w5, p5) = send-runs args.fiu_url "request" consent s4 e5 in
      let call = λ (base path : String) (body : Json) (w : W).
        (host.send (setup_request (base <> path) body) w).1 in
      let q1 = ap (λ u. call aa "setup/statements" statements u.world) same0 ∙ p1 in
      let q2 =
        ap (call fiu "setup/bre-info" (url_body args.bre_url)) (q1 ∙ ap (λ u. u.world) same2)
        ∙ p3 in
      let q3 =
        ap (call aa "setup/cr-info" (url_body args.cr_url)) q2
        ∙ ap (λ b. call b "setup/cr-info" (url_body args.cr_url) s3.world) (ok_inj (sym w1 ∙ w4))
        ∙ p4 in
      let q4 =
        ap (call fiu "request" consent) q3
        ∙ ap (λ b. call b "request" consent s4.world) (ok_inj (sym w3 ∙ w5))
        ∙ p5 in
      (statements, consent, aa, fiu, l0, l2, w1, w3, q4 ∙ ap (λ u. u.world) (pure-runs tt s5 h5))
