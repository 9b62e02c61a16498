-- ===== src/Scoring/Response.antt =====
-- What the business rule engine answers (controller.py, handle_scoring_request). The egress policy
-- lets an answer out of the clean room only with four fields and a score from 1 to 100.
use fiu_data_governance.Prelude.{ℕ, ◌≤◌, ◌≡◌, ◌∙◌, refl, ap, true, sym, String, [], ◌∷◌}
use fiu_data_governance.Prelude.Int.{pos}
use fiu_data_governance.Host.{Host, Sys, ◌>>=◌, response, lift, ask, gets, pure, >>=-returns}
use fiu_data_governance.Python.Errors.{ok, ok_inj, >>=-eq-ok}
use fiu_data_governance.Python.Json.{Json, str, num, object}
use fiu_data_governance.Python.Subscript.{first, index, text_of}
use fiu_data_governance.Client.{make_url}
use fiu_data_governance.Client.Failures.{post_request, post_json_request-returns}
use fiu_data_governance.Scoring.Client.{post_json_request}
use fiu_data_governance.Scoring.{aggregation_request, encrypted_data, compute_score}
use fiu_data_governance.Scoring.Decision.{compute_score_range}
use fiu_data_governance.Scoring.Service.{Engine, aggregate_statements, handle_scoring_request}

text_of-str : (j : Json) (t : String) → text_of j ≡ ok t → j ≡ str t
text_of-str (str u) t e = ap str (ok_inj e)
text_of-str _ t e = absurd (cc e)

-- The encrypted data of a request: that of the first part of the data of the first element of its payload.
abbrev pub Carries : Json → Json → Type 0
Carries request encrypted =
    (payload element parts part : Json) × (index request "payload" ≡ ok payload)
    × (first payload ≡ ok element)
    × (index element "data" ≡ ok parts)
    × (first parts ≡ ok part)
    × (index part "encryptedData" ≡ ok encrypted)

encrypted_data-Carries :
    (request encrypted : Json) → encrypted_data request ≡ ok encrypted → Carries request encrypted
unfolding encrypted_data
encrypted_data-Carries request encrypted h =
    let (payload, e1, h1) = >>=-eq-ok (index request "payload") _ h in
    let (element, e2, h2) = >>=-eq-ok (first payload) _ h1 in
    let (parts, e3, h3) = >>=-eq-ok (index element "data") _ h2 in
    let (part, e4, h4) = >>=-eq-ok (first parts) _ h3 in
    (payload, element, parts, part, e1, e2, e3, e4, h4)

module _ {W : Type 0} (host : Host W) where
  -- From a world the statement analysis answers a POST to its URL, of the given statements under the given
  -- transaction id, with a text whose "response" is a document of the given aggregated statements.
  abbrev pub Analyses : String → Json → Json → Json → W → Type 0
  Analyses url_sa txn_id fi aggregated w =
      (url text document : String) × (body reply : Json) × (status : ℕ) × (make_url url_sa
          "AnalyzeStatements"
        ≡ ok url)
      × (index body "txnid" ≡ ok txn_id)
      × (index body "statements" ≡ ok (str (host.dumps fi)))
      × ((host.send (post_request true url body) w).0 ≡ response status text)
      × (host.loads text ≡ ok reply)
      × (index reply "response" ≡ ok (str document))
      × (host.loads document ≡ ok aggregated)

  aggregate_statements-Analyses :
      (txn_id fi aggregated : Json) (s : Sys Engine W)
      → (aggregate_statements host txn_id fi s).0 ≡ ok aggregated
      → Analyses s.self.url_sa txn_id fi aggregated (host.now s.world).1
  unfolding aggregate_statements ask gets ◌>>=◌
  aggregate_statements-Analyses txn_id fi aggregated s h =
      let (timestamp, w) = host.now s.world in
      let s' : Sys Engine W = record s { world = w } in
      let url_sa = s.self.url_sa in
      let body = aggregation_request timestamp txn_id (host.dumps fi) in
      let ((status, text), e3, h3) =
        >>=-returns (post_json_request host url_sa "AnalyzeStatements" body) _ s' h in
      let t = (post_json_request host url_sa "AnalyzeStatements" body s').1 in
      let (reply, e4, h4) = >>=-returns (lift (host.loads text)) _ t h3 in
      let (inner, e5, h5) = >>=-returns (lift (index reply "response")) _ t h4 in
      let (document, e6, h6) = >>=-returns (lift (text_of inner)) _ t h5 in
      let (url, built, sent) =
        post_json_request-returns host true url_sa "AnalyzeStatements" body s' e3 in
      (
        url,
        text,
        document,
        body,
        reply,
        status,
        built,
        refl,
        refl,
        sent,
        e4,
        e5 ∙ ap ok (text_of-str inner document e6),
        h6,
      )

  -- A request that is answered is answered with its own transaction id, in a response of the four
  -- fields version, timestamp, transaction id and score and of no others. The score lies between 1 and
  -- 100 and is that of the aggregated statements that the statement analysis, asked under the same
  -- transaction id, answers for the financial information of the request: the first
  -- "encryptedData" of its payload, decoded twice from Base64 and read from JSON.
  pub handle_scoring_request-response :
      (request answer : Json) (s : Sys Engine W)
      → (handle_scoring_request host request s).0 ≡ ok answer
      → (txn_id encrypted fi aggregated : Json) × (text once twice timestamp : String) × (score : ℕ)
        × (index request "txnid" ≡ ok txn_id)
        × Carries request encrypted
        × (text_of encrypted ≡ ok text)
        × (host.b64decode text ≡ ok once)
        × (host.b64decode once ≡ ok twice)
        × (host.loads twice ≡ ok fi)
        × Analyses s.self.url_sa txn_id fi aggregated (host.now s.world).1
        × (compute_score aggregated ≡ ok score)
        × (1 ≤ score)
        × (score ≤ 100)
        × (answer
            ≡ object (
                ("ver", str "1.0")
                ∷ ("timestamp", str timestamp)
                ∷ ("txnid", txn_id)
                ∷ ("score", num (pos score))
                ∷ []))
  unfolding handle_scoring_request lift pure
  handle_scoring_request-response request answer s h =
      let (txn_id, e1, h1) = >>=-returns (lift (index request "txnid")) _ s h in
      let (encrypted, e2, h2) = >>=-returns (lift (encrypted_data request)) _ s h1 in
      let (text, e3, h3) = >>=-returns (lift (text_of encrypted)) _ s h2 in
      let (once, e4, h4) = >>=-returns (lift (host.b64decode text)) _ s h3 in
      let (twice, e5, h5) = >>=-returns (lift (host.b64decode once)) _ s h4 in
      let (fi, e6, h6) = >>=-returns (lift (host.loads twice)) _ s h5 in
      let (aggregated, e7, h7) = >>=-returns (aggregate_statements host txn_id fi) _ s h6 in
      let s' = (aggregate_statements host txn_id fi s).1 in
      let (score, e8, h8) = >>=-returns (lift (compute_score aggregated)) _ s' h7 in
      let (timestamp, e9, h9) = >>=-returns (ask host.now) _ s' h8 in
      let (low, high) = compute_score_range aggregated score e8 in
      (
        txn_id,
        encrypted,
        fi,
        aggregated,
        text,
        once,
        twice,
        timestamp,
        score,
        e1,
        encrypted_data-Carries request encrypted e2,
        e3,
        e4,
        e5,
        e6,
        aggregate_statements-Analyses txn_id fi aggregated s e7,
        e8,
        low,
        high,
        sym (ok_inj h9),
      )
