-- ===== src/Scoring/Service.antt =====
-- The handler of the business rule engine (controller.py).
use fiu_data_governance.Prelude.{String}
use fiu_data_governance.Host.{Host, Action, pure, lift, gets, ask, ◌>>=◌}
use fiu_data_governance.Python.Json.{Json}
use fiu_data_governance.Python.Subscript.{index, text_of}
use fiu_data_governance.Scoring.Client.{post_json_request}
use fiu_data_governance.Scoring.{compute_score, encrypted_data, aggregation_request, score_response}

pub record Engine : Type 0 where
  pub url_sa : String

module _ {W : Type 0} (host : Host W) where
  unfoldable pub aggregate_statements : Json → Json → Action Engine W Json
  aggregate_statements txn_id fi = do
    timestamp ← ask host.now
    url_sa ← gets (λ s. s.url_sa)
    (status, answer) ←
        post_json_request host url_sa "AnalyzeStatements"
          (aggregation_request timestamp txn_id (host.dumps fi))
    aggregated ← lift (host.loads answer)
    inner ← lift (index aggregated "response")
    document ← lift (text_of inner)
    lift (host.loads document)

  unfoldable pub handle_scoring_request : Json → Action Engine W Json
  handle_scoring_request request = do
    txn_id ← lift (index request "txnid")
    encrypted ← lift (encrypted_data request)
    text ← lift (text_of encrypted)
    once ← lift (host.b64decode text)
    twice ← lift (host.b64decode once)
    fi ← lift (host.loads twice)
    aggregated ← aggregate_statements txn_id fi
    score ← lift (compute_score aggregated)
    timestamp ← ask host.now
    pure (score_response timestamp txn_id score)
