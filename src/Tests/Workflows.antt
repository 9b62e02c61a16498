-- ===== src/Tests/Workflows.antt =====
-- The FIU from the start of a workflow to the request to the clean room.
use mathlib.Core.Bool.{false≢true}
use package.text.Mathlib.TextEquality.{eq_iff}
use fiu_data_governance.Prelude.{◌≡◌, ◌≢◌, refl, String, [], ◌∷◌, some, string_eq}
use fiu_data_governance.Prelude.Dict.{lookup, insert}
use fiu_data_governance.Host.{Sys, ◌>>=◌}
use fiu_data_governance.Python.Errors.{ok}
use fiu_data_governance.Python.Json.{Json, str, object}
use fiu_data_governance.Python.Key.{Key, text, key_eq}
use fiu_data_governance.Python.Subscript.{index}
use fiu_data_governance.Client.{make_url, accept, post_json_request, get_json_request}
use fiu_data_governance.FinancialUser.{FinancialUser, initial}
use fiu_data_governance.FinancialUser.Messages.{
  consent_request, consent_detail, fi_request, copied_material, convert_fi_data_to_ccr_json,
  convert_items, convert_item, convert_data, process_request,
}
use fiu_data_governance.FinancialUser.Handlers.{
  get_ccr_public_key, open_transaction, start_workflow, handle_consent_notification, assemble,
  prepare_process_request,
}
use fiu_data_governance.FinancialUser.Routes.{
  post_request, post_consent_notification, run_task, handle_event, process_consent_notification,
  start_task, run_taken, run_at,
}
use fiu_data_governance.FinancialUser.Routes as Routes
use fiu_data_governance.FinancialUser.Artifacts.{IsOf}
use fiu_data_governance.FinancialUser.Reach.{
  Reach, here, next, prepare_process_request-SameTransaction,
}
use fiu_data_governance.FinancialUser.Material.{material-open_transaction}
use fiu_data_governance.Tests.Consents.{data_json}
use fiu_data_governance.Tests.Documents.{now, artifact, host, answers}
use fiu_data_governance.Tests.Hosts.{Script}
use fiu_data_governance.Tests.Users.{payload}

-- The clean room answers for the key, the aggregator for the rest.
abbrev script : Script
script = record (answers ("room" ∷ "consent" ∷ "consent" ∷ "artifact" ∷ "null" ∷ "fetched" ∷ [])) {
  names = "txn-1" ∷ [];
}

abbrev start : Sys FinancialUser Script
start = record { self = initial "http://ccr" "http://aa"; world = script }

abbrev consent_notified : Json
consent_notified = object (
    ("txnid", str "txn-1")
    ∷ ("ConsentStatusNotification", object (("consentId", str "consent-1") ∷ []))
    ∷ [])

abbrev requested : Sys FinancialUser Script
requested = (handle_event host (run_task 0) (handle_event host (post_request data_json) start).1).1

abbrev consented : Sys FinancialUser Script
consented =
    (handle_event host (run_task 0)
      (handle_event host (post_consent_notification consent_notified) requested).1).1

reached : Reach host start consented
reached =
    next
      (next (next (next here (post_request data_json)) (run_task 0))
        (post_consent_notification consent_notified))
      (run_task 0)

abbrev notification : Json
notification = object (("FIStatusNotification", object (("sessionId", str "session-1") ∷ [])) ∷ [])

abbrev body : Json
body = process_request now (str "room-1") payload artifact

prepare_run : (prepare_process_request host notification consented).0 ≡ ok body
unfolding handle_event Routes.process_request process_consent_notification run_at start_task
    start_workflow open_transaction get_ccr_public_key consent_request consent_detail
    handle_consent_notification fi_request copied_material prepare_process_request assemble
    convert_fi_data_to_ccr_json convert_items convert_item convert_data get_json_request
    post_json_request accept make_url ◌>>=◌ lookup insert
prepare_run = refl

prepare_process_request-SameTransaction_example :
    (answer timestamp : String) × (fetched kept ccr_txn_id fi sent : Json) × (key : Key)
    × (host.loads answer ≡ ok fetched)
    × IsOf key fetched
    × IsOf key kept
    × (lookup key consented.self.txn_ids ≡ some ccr_txn_id)
    × (index fetched "FI" ≡ ok fi)
    × (convert_fi_data_to_ccr_json fi ≡ ok sent)
    × (body ≡ process_request timestamp ccr_txn_id sent kept)
prepare_process_request-SameTransaction_example =
    prepare_process_request-SameTransaction host "http://ccr" "http://aa" script reached
      notification body prepare_run

-- Two workflows, for which the clean room gives different material.
abbrev first_opened : Sys FinancialUser Script
first_opened = record {
  self = (open_transaction host start).1.self;
  world = record (answers ("next room" ∷ [])) { names = "txn-2" ∷ [] };
}

first_run : (open_transaction host start).0 ≡ ok "txn-1"
unfolding open_transaction get_ccr_public_key get_json_request accept make_url ◌>>=◌ lookup
first_run = refl

second_run : (open_transaction host first_opened).0 ≡ ok "txn-2"
unfolding open_transaction get_ccr_public_key get_json_request accept make_url ◌>>=◌ lookup
second_run = refl

txn_ids_differ : ◌≢◌ {A = String} "txn-1" "txn-2"
txn_ids_differ p = false≢true ((eq_iff "txn-1" "txn-2").1 p)

material-open_transaction_example :
    let t = (open_transaction host first_opened).1.self in
    (one two ccr_a ccr_b : Json) × ((get_ccr_public_key host start).0 ≡ ok one)
    × ((get_ccr_public_key host first_opened).0 ≡ ok two)
    × (index one "txnid" ≡ ok ccr_a)
    × (index two "txnid" ≡ ok ccr_b)
    × (lookup (text "txn-1") t.txn_ids ≡ some ccr_a)
    × (lookup (text "txn-2") t.txn_ids ≡ some ccr_b)
    × (index two "KeyMaterial" ≡ ok t.ccr_public_key_material)
material-open_transaction_example =
    material-open_transaction host start first_opened "txn-1" "txn-2" first_run second_run refl
      txn_ids_differ
