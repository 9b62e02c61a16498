-- ===== src/Aggregator/Contract/Ledger.antt =====
-- What each event of the account aggregator is to do with consents (account-aggregator/src/main.py and
-- controller.py), on a ledger: the book of consents, and for each waiting task the handle of the
-- consent that it signs. This is written down without the handlers, and without handles, claims and
-- artifacts in tables of their own.
use fiu_data_governance.Prelude.{
  String, true, false, Option, none, some, List, [], ◌∷◌, ◌++◌, map, ◌==◌, string_eq, if◌then◌else◌,
}
use fiu_data_governance.Host.Tasks.{take_task}
use fiu_data_governance.Python.Errors.{Result, ok, err}
use fiu_data_governance.Python.Json.{Json}
use fiu_data_governance.Python.Subscript.{index}
use fiu_data_governance.Aggregator.{Aggregator, Task, create_artifact, request_fi}
use fiu_data_governance.Aggregator.Routes.{
  Event, post_cr_info, post_statements, post_consent, post_fi_request, get_consent_handle,
  get_consent, fetch, run_task,
}
use fiu_data_governance.Aggregator.Contract.{Consented, Book, book}

pub record Ledger : Type 0 where
  pub consents : Book
  -- the handle of the consent to sign, none for a request for financial information
  pub tasks : List (Option String)

abbrev pub empty : Ledger
empty = record { consents = λ h. none; tasks = [] }

-- The ledger of the service.
abbrev pub to_sign : Task → Option String
to_sign (create_artifact h request) = some h
to_sign (request_fi session_id request) = none

abbrev pub ledger : Aggregator → Ledger
ledger s = record { consents = book s; tasks = map to_sign s.tasks }

-- A consent comes in, as pending, if its request has a transaction id and a consent detail.
abbrev pub put : String → Consented → Book → Book
put h c b j = if h == j then some c else b j

abbrev pub submitted : String → String → Result Json → Result Json → Book → Book
submitted h consent_id (ok txn_id) (ok detail) b =
    put h (record { txn_id = txn_id; consent_id = consent_id; claims = detail; ready = false }) b
submitted h consent_id (ok txn_id) (err e) b = b
submitted h consent_id (err e) _ b = b

-- It is to be signed if the request names a customer, too.
abbrev customer_id : Result Json → Result Json
customer_id (err e) = err e
customer_id (ok customer) = index customer "id"

abbrev customer_of : Result Json → Result Json → Result Json
customer_of (err e) _ = err e
customer_of (ok txn_id) (err e) = err e
customer_of (ok txn_id) (ok detail) = customer_id (index detail "Customer")

abbrev pub queued : String → Result Json → List (Option String) → List (Option String)
queued h (ok customer) ts = ts ++ some h ∷ []
queued h (err e) ts = ts

-- A consent whose claims can be signed becomes ready, and is otherwise as it was.
abbrev pub ready_if : Result String → Consented → Consented
ready_if (ok signature) c = record c { ready = true }
ready_if (err e) c = c

abbrev pub signed : (Json → Result String) → Option Consented → Option Consented
signed sign none = none
signed sign (some c) = some (ready_if (sign c.claims) c)

abbrev pub grant_at : (Json → Result String) → String → Book → Book
grant_at sign h b j = if h == j then signed sign (b j) else b j

module _ (sign : Json → Result String) where
  abbrev pub run_entry : Option (Option String × List (Option String)) → Ledger → Ledger
  run_entry none l = l
  run_entry (some (none, ts)) l = record { consents = l.consents; tasks = ts }
  run_entry (some (some h, ts)) l = record { consents = grant_at sign h l.consents; tasks = ts }

  -- What an event does, which draws a handle and a consent id if it needs them.
  abbrev pub advance : Event → String → String → Ledger → Ledger
  advance (post_consent request) h consent_id l =
      let txn_id = index request "txnid" in
      let detail = index request "ConsentDetail" in
      record {
        consents = submitted h consent_id txn_id detail l.consents;
        tasks = queued h (customer_of txn_id detail) l.tasks;
      }
  advance (post_fi_request request) h consent_id l = record l { tasks = l.tasks ++ none ∷ [] }
  advance (run_task n) h consent_id l = run_entry (take_task n l.tasks) l
  advance (post_cr_info request) h consent_id l = l
  advance (post_statements statements) h consent_id l = l
  advance (get_consent_handle i) h consent_id l = l
  advance (get_consent i) h consent_id l = l
  advance (fetch session_id) h consent_id l = l

  -- The ledger after a log of events, the last one first, each with what it draws.
  abbrev pub replay : List (Event × String × String) → Ledger → Ledger
  replay [] l = l
  replay ((e, h, consent_id) ∷ es) l = advance e h consent_id (replay es l)
