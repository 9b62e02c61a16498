-- ===== src/Tests/Deliveries.antt =====
-- The notification of financial information, with the account aggregator in the world of the financial
-- information user.
use fiu_data_governance.Prelude.{
  ◌≡◌, ◌↔◌, ◌==◌, if◌then◌else◌, refl, ap, String, [], ◌∷◌, false, string_eq,
}
use fiu_data_governance.Prelude.Dict.{lookup}
use fiu_data_governance.Host.{Sys, Host, response, reads, ◌>>=◌}
use fiu_data_governance.Python.Errors.{ok}
use fiu_data_governance.Python.Json.{Json, null, num, str, object}
use fiu_data_governance.Prelude.Int.{pos}
use fiu_data_governance.Python.Key.{text, key_eq}
use fiu_data_governance.Python.Subscript.{index}
use fiu_data_governance.Client.{make_url, accept, get_json_request, post_json_request}
use fiu_data_governance.Client.Failures.{get_request}
use fiu_data_governance.Aggregator.{Aggregator}
use fiu_data_governance.Aggregator as Aa
use fiu_data_governance.Aggregator.Messages.{fi_notification}
use fiu_data_governance.Aggregator.Session.{handle_fi_fetch}
use fiu_data_governance.FinancialUser.{FinancialUser, initial}
use fiu_data_governance.FinancialUser.Messages.{
  process_request, convert_fi_data_to_ccr_json, convert_items, convert_item, convert_data,
}
use fiu_data_governance.FinancialUser.Outcome.{IsScored, handle_fi_notification-IsScored}
use fiu_data_governance.FinancialUser.Handlers.{
  assemble, prepare_process_request, handle_fi_notification,
}
use fiu_data_governance.Scoring.{encrypted_data}
use fiu_data_governance.Workflow.Peers.{Serves}
use fiu_data_governance.Workflow.Deliver.{prepare_process_request-encrypted_data}
use fiu_data_governance.Tests.Documents.{now, artifact, keys, request, encryption, result}
use fiu_data_governance.Tests.Sessions.{fi_result_run}
use fiu_data_governance.Tests.Hosts.{Script, scripted, plain, serve}

abbrev aa : Host Script
aa = scripted []

-- The world of the financial information user is the account aggregator.
abbrev World : Type 0
World = Sys Aggregator Script

abbrev fiu : Host World
fiu = record plain {
  send = λ r w. serve (handle_fi_fetch aa "session-1" w);
  loads = λ text. ok result;
}

abbrev start : Sys FinancialUser World
start = record {
  self = record (initial "http://ccr" "http://aa") {
    txn_ids = (text "txn-1", str "room-1") ∷ [];
    consent_artifacts = (text "txn-1", artifact) ∷ [];
  };
  world = record {
    self = record (Aa.initial "aa" "http://fiu" "http://crypto") {
      sessions = ("session-1", result) ∷ [];
    };
    world = record { outcomes = []; names = [] };
  };
}

Serves-handle_fi_fetch :
    Serves fiu aa
      (λ w. w)
      (get_request false "http://aa/FI/fetch/session-1" null)
      (handle_fi_fetch aa "session-1")
Serves-handle_fi_fetch answer w t h = (t, ap serve h, refl)

prepare_process_request-encrypted_data_example :
    let (r, t) =
      prepare_process_request fiu (fi_notification now (str "txn-1") "aa" "session-1") start in
    (timestamp : String) × (payload : Json) × (r
      ≡ ok (process_request timestamp (str "room-1") payload artifact))
    × (encrypted_data (process_request timestamp (str "room-1") payload artifact)
        ≡ index encryption "base64Data")
    × (t.self ≡ start.self)
    × (t.world ≡ start.world)
unfolding make_url lookup
prepare_process_request-encrypted_data_example =
    prepare_process_request-encrypted_data fiu aa (λ w. w) now "txn-1" "session-1"
      "http://aa/FI/fetch/session-1" keys request encryption result (str "room-1") artifact start
      fi_result_run refl refl refl refl (λ w. refl) refl refl Serves-handle_fi_fetch refl now "aa"
      (str "txn-1")

-- The clean room answers with a score.
abbrev cleared : Host World
cleared = record fiu {
  send = λ r w.
      if r.url == "http://ccr/api/ccr/process"
      then (response 200 "a score", w)
      else serve (handle_fi_fetch aa "session-1" w);
  loads =
      λ text. if text == "a score" then ok (object (("score", num (pos 82)) ∷ [])) else ok result;
}

handle_fi_notification-IsScored_example :
    ((handle_fi_notification cleared (fi_notification now (str "txn-1") "aa" "session-1") start).0
      ≡ ok tt)
    ↔ IsScored cleared (fi_notification now (str "txn-1") "aa" "session-1") start
handle_fi_notification-IsScored_example =
    handle_fi_notification-IsScored cleared (fi_notification now (str "txn-1") "aa" "session-1")
      start

scored_run :
    (handle_fi_notification cleared (fi_notification now (str "txn-1") "aa" "session-1") start).0
    ≡ ok tt
unfolding handle_fi_notification prepare_process_request assemble convert_fi_data_to_ccr_json
    convert_items convert_item convert_data handle_fi_fetch get_json_request post_json_request
    accept make_url ◌>>=◌ reads lookup
scored_run = refl
