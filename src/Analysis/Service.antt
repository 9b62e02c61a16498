-- ===== src/Analysis/Service.antt =====
-- The request handler of the statement analysis service: controller.py, handle_analyze_statements,
-- which is also what the route of main.py calls. The service keeps no state.
use fiu_data_governance.Prelude.{[], ◌∷◌}
use fiu_data_governance.Host.{Host, Action, pure, lift, ask, ◌>>=◌}
use fiu_data_governance.Python.Json.{Json, str, object}
use fiu_data_governance.Python.Subscript.{index, text_of}
use fiu_data_governance.Analysis.{aggregate_statements}

module _ {W : Type 0} (host : Host W) where
  unfoldable pub handle_analyze_statements : Json → Action (Unit {0}) W Json
  handle_analyze_statements request = do
    text ← lift (index request "statements")
    document ← lift (text_of text)
    statements ← lift (host.loads document)
    aggregated ← lift (aggregate_statements statements)
    timestamp ← ask host.now
    txn_id ← lift (index request "txnid")
    pure (
        object (
          ("ver", str "1.0")
          ∷ ("timestamp", str timestamp)
          ∷ ("txnid", txn_id)
          ∷ ("response", str (host.dumps aggregated))
          ∷ []))
