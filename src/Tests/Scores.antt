-- ===== src/Tests/Scores.antt =====
-- The business rule engine with the statement analysis as its peer, on the statements of
-- Tests/Statements.
use fiu_data_governance.Prelude.{true, ◌≡◌, refl, ap, String, [], ◌∷◌, string_eq}
use fiu_data_governance.Prelude.Dict.{lookup}
use fiu_data_governance.Host.{Sys, Host, Outcome, response}
use fiu_data_governance.Python.Errors.{Exn, Result, ok, err, ◌>>=◌}
use fiu_data_governance.Python.Json.{Json, str, object, array}
use fiu_data_governance.Python.Subscript.{index, first, or_raise}
use fiu_data_governance.Analysis.Service.{handle_analyze_statements}
use fiu_data_governance.Scoring.{score_response, encrypted_data}
use fiu_data_governance.Scoring.Service.{Engine, handle_scoring_request}
use fiu_data_governance.Workflow.Peers.{Serves}
use fiu_data_governance.Workflow.Scoring.{handle_scoring_request-scores}
use fiu_data_governance.Client.Failures.{post_request}
use fiu_data_governance.Client.{make_url}
use fiu_data_governance.Tests.Hosts.{plain}
use fiu_data_governance.Tests.Statements.{
  statements, aggregated, aggregate_statements_run, compute_score_run,
}

abbrev now : String
now = "2022-01-01T00:00:00"

-- The total of the first day, in statements that have been aggregated.
abbrev first_total : Json → Result Json
first_total j = do
  holder ← index j "Transactions"
  transactions ← index holder "Transaction"
  head ← first transactions
  index head "totalCredit"

abbrev name_of : Json → String
name_of j = elim (index j "response") [
  | ok r ↦ "response"
  | err e ↦ elim (first_total j) [ ok t ↦ "aggregated" | err e' ↦ "statements" ]
]

abbrev answer : Json
answer = object (
    ("ver", str "1.0")
    ∷ ("timestamp", str now)
    ∷ ("txnid", str "room-1")
    ∷ ("response", str "aggregated")
    ∷ [])

-- The codec, without a network.
abbrev offline : Host (Unit {0})
offline = record plain {
  loads = λ text.
      or_raise
        (lookup text
          (("statements", statements) ∷ ("aggregated", aggregated) ∷ ("response", answer) ∷ []))
        Exn.decode_error;
  dumps = name_of;
  public_jwk = object [];
}

-- The network: the statement analysis behind every URL.
abbrev serve : Result Json × Sys (Unit {0}) (Unit {0}) → Outcome × Unit {0}
serve (ok j, t) = (response 200 (name_of j), t.world)
serve (err e, t) = (response 500 "Internal Server Error", t.world)

abbrev host : Host (Unit {0})
host = record offline {
  send = λ r w. serve (handle_analyze_statements offline r.body (record { self = tt; world = w }));
}

served :
    (body : Json)
    → Serves host host
        (λ w. record { self = tt; world = w })
        (post_request true "http://sa/AnalyzeStatements" body)
        (handle_analyze_statements host body)
unfolding handle_analyze_statements
served body j w t h = (t.world, ap serve h, refl)

abbrev engine : Sys Engine (Unit {0})
engine = record { self = record { url_sa = "http://sa" }; world = tt }

abbrev request : Json
request = object (
    ("txnid", str "room-1")
    ∷ (
      "payload",
      array (
          object (("data", array (object (("encryptedData", str "statements") ∷ []) ∷ [])) ∷ [])
          ∷ []),
    )
    ∷ [])

handle_scoring_request-scores_example :
    (timestamp : String) × ((handle_scoring_request host request engine).0
      ≡ ok (score_response timestamp (str "room-1") 82))
unfolding make_url lookup encrypted_data
handle_scoring_request-scores_example =
    handle_scoring_request-scores host host (λ w. record { self = tt; world = w }) (str "room-1")
      statements aggregated aggregate_statements_run refl "http://sa/AnalyzeStatements" engine
      (λ w. refl) refl served refl refl refl request (str "statements") "statements" "statements"
      "statements" 82 refl refl refl refl refl refl compute_score_run
