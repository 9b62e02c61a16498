-- ===== src/Workflow/Scoring.antt =====
-- The business rule engine with the statement analysis as its peer (business-rule-engine/src and
-- statement-analysis/src, the controllers).
use fiu_data_governance.Prelude.{ℕ, ◌≡◌, String, true, false, [], ◌∷◌, string_eq}
use fiu_data_governance.Host.{Host, Sys, ◌>>=◌}
use fiu_data_governance.Python.Errors.{ok}
use fiu_data_governance.Python.Json.{Json, str, object}
use fiu_data_governance.Python.Subscript.{index, text_of}
use fiu_data_governance.Client.{make_url}
use fiu_data_governance.Client.Failures.{post_request}
use fiu_data_governance.Analysis.Service.{handle_analyze_statements}
use fiu_data_governance.Analysis as Sa
use fiu_data_governance.Scoring.{compute_score, encrypted_data, aggregation_request, score_response}
use fiu_data_governance.Scoring.Decision.{compute_score-aggregate_statements}
use fiu_data_governance.Scoring.Service.{Engine, aggregate_statements, handle_scoring_request}
use fiu_data_governance.Workflow.Peers.{Serves, Understands, IsApart, post-served}

-- The response of the statement analysis.
abbrev pub analysis_response : {V : Type 0} → Host V → String → Json → Json → Json
analysis_response sa timestamp txn_id aggregated = object (
    ("ver", str "1.0")
    ∷ ("timestamp", str timestamp)
    ∷ ("txnid", txn_id)
    ∷ ("response", str (sa.dumps aggregated))
    ∷ [])

module _ {W V : Type 0} (bre : Host W) (sa : Host V) (peer : W → Sys (Unit {0}) V)
    (txn_id fi aggregated : Json) (computed : Sa.aggregate_statements fi ≡ ok aggregated)
    (read : Understands sa bre fi) where
  handle_analyze_statements_lem :
      (timestamp : String) (t : Sys (Unit {0}) V)
      → handle_analyze_statements sa (aggregation_request timestamp txn_id (bre.dumps fi)) t ≡ (
        ok (analysis_response sa (sa.now t.world).0 txn_id aggregated),
        record t { world = (sa.now t.world).1 },
      )
  unfolding handle_analyze_statements ◌>>=◌
  handle_analyze_statements_lem timestamp t = rw (read, computed)

  module _ (url : String) (s : Sys Engine W) (apart : IsApart bre peer)
      (built : make_url s.self.url_sa "AnalyzeStatements" ≡ ok url)
      (serves : (body : Json)
        → Serves bre sa peer (post_request true url body) (handle_analyze_statements sa body))
      (accepted : bre.is_error 200 ≡ false) (read' : Understands bre sa aggregated)
      (answered : Understands bre sa
        (analysis_response sa (sa.now (peer s.world).world).0 txn_id aggregated)) where
    aggregate_statements_lem :
        (v : W) × (aggregate_statements bre txn_id fi s ≡ (ok aggregated, record s { world = v }))
    unfolding aggregate_statements ◌>>=◌
    aggregate_statements_lem =
        let (timestamp, w) = bre.now s.world in
        let t = peer s.world in
        let body = aggregation_request timestamp txn_id (bre.dumps fi) in
        let (v, sent, after) =
          post-served bre sa peer true s.self.url_sa "AnalyzeStatements" url
            (handle_analyze_statements sa body) accepted built
            (analysis_response sa (sa.now t.world).0 txn_id aggregated) (record s { world = w })
            (record t { world = (sa.now t.world).1 })
            (rw (apart s.world) (handle_analyze_statements_lem timestamp t)) body (serves body) in
        (v, rw (sent, answered, read'))

    -- The business rule engine with the statement analysis as its peer answers every request that
    -- carries statements, encoded twice, which can be aggregated and scored: the answer has the
    -- transaction id of the request and the score of the statements as they were, before they were
    -- aggregated. The statement analysis is behind the configured URL; the two services read what they
    -- write for each other as JSON, which is the statements, the aggregated statements and the
    -- response of the statement analysis.
    pub handle_scoring_request-scores :
        (request encrypted : Json) (text once twice : String) (score : ℕ)
        → index request "txnid" ≡ ok txn_id
        → encrypted_data request ≡ ok encrypted
        → text_of encrypted ≡ ok text
        → bre.b64decode text ≡ ok once
        → bre.b64decode once ≡ ok twice
        → bre.loads twice ≡ ok fi
        → compute_score fi ≡ ok score
        → (timestamp : String) × ((handle_scoring_request bre request s).0
            ≡ ok (score_response timestamp txn_id score))
    unfolding handle_scoring_request ◌>>=◌
    handle_scoring_request-scores request encrypted text once twice score e1 e2 e3 e4 e5 e6 e7 =
        let (v, done) = aggregate_statements_lem in
        let same = compute_score-aggregate_statements fi aggregated computed in
        ((bre.now v).0, rw (e1, e2, e3, e4, e5, e6, done, same, e7))
