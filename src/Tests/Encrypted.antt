-- ===== src/Tests/Encrypted.antt =====
-- A request for financial information, with the financial information user in the world of the account
-- aggregator.
use mathlib.Core.Path.{subst}
use fiu_data_governance.Prelude.{
  ◌≡◌, ◌≢◌, refl, sym, ap, String, true, List, [], ◌∷◌, ◌==◌, string_eq, if◌then◌else◌,
}
use fiu_data_governance.Prelude.Dict.{lookup, insert}
use fiu_data_governance.Host.{Sys, Host, Outcome, response, unreachable, ◌>>=◌}
use fiu_data_governance.Python.Errors.{Result, ok, err}
use fiu_data_governance.Python.Json.{Json, null, str}
use fiu_data_governance.Client.{make_url, accept, post_json_request, get_json_request}
use fiu_data_governance.Client.Failures.{post_request}
use fiu_data_governance.Aggregator.{Aggregator, initial}
use fiu_data_governance.Aggregator.Messages.{crypto_request, fi_result, fi_notification}
use fiu_data_governance.Aggregator.Session.{encrypt_fi, ensure_crypto_keys, handle_fi_request}
use fiu_data_governance.FinancialUser as Fiu
use fiu_data_governance.FinancialUser.{FinancialUser}
use fiu_data_governance.FinancialUser.Routes.{process_fi_notification}
use fiu_data_governance.Workflow.Grant.{with_task}
use fiu_data_governance.Workflow.Peers.{Serves}
use fiu_data_governance.Workflow.Session.{handle_fi_request-with_task}
use fiu_data_governance.Tests.Documents as Documents
use fiu_data_governance.Tests.Documents.{now, keys, request, result, statements}
use fiu_data_governance.Tests.Hosts.{Script, scripted, plain}

abbrev fiu : Host Script
fiu = scripted []

-- The financial information user, and the answers of the crypto service.
record Net : Type 0 where
  peer : Sys FinancialUser Script
  texts : List String

abbrev serve : Net → Result Json × Sys FinancialUser Script → Outcome × Net
serve w (ok j, t) = (response 200 "a document", record w { peer = t })
serve w (err e, t) = (response 500 "Internal Server Error", record w { peer = t })

abbrev next_text : Net → Outcome × Net
next_text w = elim w.texts [
  | [] ↦ (unreachable, w)
  | t ∷ ts ↦ (response 200 t, record w { texts = ts })
]

abbrev aa : Host Net
aa = record plain {
  send = λ r w.
      if r.url == "http://fiu/FI/Notification"
      then serve w (process_fi_notification fiu r.body w.peer)
      else next_text w;
  loads = λ text. Documents.host.loads text;
}

abbrev user : Sys FinancialUser Script
user = record {
  self = Fiu.initial "http://ccr" "http://aa";
  world = record { outcomes = []; names = [] };
}

abbrev start : Sys Aggregator Net
start = record {
  self = record (initial "aa" "http://fiu" "http://crypto") { fi_data_json = statements };
  world = record { peer = user; texts = "keys" ∷ "encrypted" ∷ [] };
}

abbrev encrypted : Sys Aggregator Net
encrypted = record {
  self = record start.self { crypto_keys = keys };
  world = record { peer = user; texts = [] };
}

encrypt_run : encrypt_fi aa statements request start ≡ (ok result, encrypted)
unfolding encrypt_fi ensure_crypto_keys crypto_request fi_result post_json_request get_json_request
    accept make_url ◌>>=◌ lookup
encrypt_run = refl

abbrev IsNull : Json → Type 0
IsNull null = Unit
IsNull _ = ⊥

has_data : start.self.fi_data_json ≢ null
has_data e = subst IsNull (sym e) tt

abbrev message : Json
message = fi_notification now (str "txn-1") "aa" "session-1"

Serves-process_fi_notification :
    Serves aa fiu
      (λ w. w.peer)
      (post_request true "http://fiu/FI/Notification" message)
      (process_fi_notification fiu message)
Serves-process_fi_notification answer w t h = (record w { peer = t }, ap (serve w) h, refl)

handle_fi_request-with_task_example :
    let (r, t) = handle_fi_request aa "session-1" request start in
    (r ≡ ok tt)
    × (t.self ≡ record encrypted.self { sessions = insert "session-1" result [] })
    × (t.world.peer ≡ with_task fiu (Fiu.fi_notification message) user)
unfolding make_url
handle_fi_request-with_task_example =
    handle_fi_request-with_task aa fiu (λ w. w.peer) (λ w. refl) refl "session-1"
      "http://fiu/FI/Notification" request result (str "txn-1") start encrypted has_data encrypt_run
      refl refl Serves-process_fi_notification
