-- ===== src/Tests/Interleaved.antt =====
-- A workflow of the financial information user beside the account aggregator, step by step, up to the
-- state in which the financial information user asks for the status of the consent.
use fiu_data_governance.Prelude.{
  ◌≡◌, refl, ◌⊎◌, inl, inr, false, Option, none, some, [], ◌∷◌, ◌==◌, string_eq, if◌then◌else◌,
  arith,
}
use fiu_data_governance.Prelude.Dict.{lookup, insert}
use fiu_data_governance.Host.{Sys, HttpRequest, Outcome, response, ◌>>=◌}
use fiu_data_governance.Python.Errors.{Result, ok, err}
use fiu_data_governance.Python.Json.{Json, null, str}
use fiu_data_governance.Python.Key.{key_eq}
use fiu_data_governance.Client.{make_url, accept, post_json_request, get_json_request}
use fiu_data_governance.Client.Failures.{post_request, get_request}
use fiu_data_governance.Aggregator as Aa
use fiu_data_governance.Aggregator.{Aggregator}
use fiu_data_governance.Aggregator.Consent.{handle_consent, store_consent}
use fiu_data_governance.Aggregator.Routes as AaRoutes
use fiu_data_governance.FinancialUser as Fiu
use fiu_data_governance.FinancialUser.{FinancialUser}
use fiu_data_governance.FinancialUser.Messages.{consent_request, consent_detail}
use fiu_data_governance.FinancialUser.Handlers.{
  get_ccr_public_key, open_transaction, start_workflow,
}
use fiu_data_governance.FinancialUser.Routes as FiuRoutes
use fiu_data_governance.Interleaving.{
  Program, Proc, idle, busy, IsIdle, awaits, finished, serve, outside, finish, begin, advance,
}
use fiu_data_governance.Interleaving.Progress.{Proceeds}
use fiu_data_governance.Interleaving.Consistent.{
  globals, AreNew, Reach-HasConsistentTables-HasKeyedTables,
}
use fiu_data_governance.Aggregator.Invariant.Handlers.{HasConsistentTables}
use fiu_data_governance.FinancialUser.Artifacts.{HasKeyedTables}
use fiu_data_governance.Python.Subscript.{index}
use fiu_data_governance.Interleaving.Hang.{create_consent_artifact-hangs}
use fiu_data_governance.Interleaving.Turns.{Reach-Proceeds}
use fiu_data_governance.Interleaving.Services.{
  AaEvent, FiuEvent, AaCalls, FiuCalls, Anytime, Step, Reach, start, next, aa, fiu,
}
use fiu_data_governance.Tests.Consents.{data_json}
use fiu_data_governance.Tests.Documents.{now, host, answers}
use fiu_data_governance.Tests.Hosts.{Script}

abbrev pub to_aa : HttpRequest → Option AaEvent
to_aa r =
    if r.url == "http://aa/Consent"
    then some (AaRoutes.post_consent r.body)
    else if r.url == "http://aa/Consent/handle/handle-1"
    then some (AaRoutes.get_consent_handle "handle-1")
    else if r.url == "http://aa/Consent/consent-1"
    then some (AaRoutes.get_consent "consent-1")
    else if r.url == "http://aa/FI/request"
    then some (AaRoutes.post_fi_request r.body)
    else none

abbrev pub to_fiu : HttpRequest → Option FiuEvent
to_fiu r =
    if r.url == "http://fiu/Consent/Notification"
    then some (FiuRoutes.post_consent_notification r.body)
    else none

abbrev respond : Result Json → Outcome
respond (ok j) = response 200 "consent"
respond (err e) = response 500 "Internal Server Error"

pub to_aa-local : (r : HttpRequest) (e : AaEvent) → to_aa r ≡ some e → ¬ AaCalls e
to_aa-local r (AaRoutes.post_cr_info request) h c = ground arith
to_aa-local r (AaRoutes.run_task n) h c = ground arith
to_aa-local r (AaRoutes.post_statements request) h c = c
to_aa-local r (AaRoutes.post_consent request) h c = c
to_aa-local r (AaRoutes.post_fi_request request) h c = c
to_aa-local r (AaRoutes.get_consent_handle i) h c = c
to_aa-local r (AaRoutes.get_consent i) h c = c
to_aa-local r (AaRoutes.fetch i) h c = c

pub to_fiu-local : (r : HttpRequest) (e : FiuEvent) → to_fiu r ≡ some e → ¬ FiuCalls e
to_fiu-local r (FiuRoutes.run_task n) h c = ground arith
to_fiu-local r (FiuRoutes.post_bre_info request) h c = c
to_fiu-local r (FiuRoutes.post_request request) h c = c
to_fiu-local r (FiuRoutes.post_consent_notification request) h c = c
to_fiu-local r (FiuRoutes.post_fi_notification request) h c = c

abbrev aggregator : Program Aggregator Script AaEvent
aggregator = aa host host to_aa to_fiu respond respond

abbrev user : Program FinancialUser Script FiuEvent
user = fiu host host to_aa to_fiu respond respond

abbrev aa_start : Sys Aggregator Script
aa_start = record {
  self = Aa.initial "aa" "http://fiu" "http://crypto";
  world = record (answers []) { names = "handle-1" ∷ "consent-1" ∷ [] };
}

abbrev fiu_start : Sys FinancialUser Script
fiu_start = record {
  self = Fiu.initial "http://ccr" "http://aa";
  world = record (answers []) { names = "txn-1" ∷ [] };
}

-- The workflow is asked for.
abbrev asked : Sys FinancialUser Script
asked = finished user fiu_start (FiuRoutes.post_request data_json) []

abbrev room : Outcome
room = response 200 "room"

abbrev consented : Outcome
consented = response 200 "consent"

abbrev sent : Result Json → Json
sent (ok j) = j
sent (err e) = null

abbrev consent_body : Json
consent_body = sent (consent_request now "txn-1" data_json)

-- The account aggregator after the consent.
abbrev aa_consented : Sys Aggregator Script
aa_consented = finished aggregator aa_start (AaRoutes.post_consent consent_body) []

abbrev resting : Proc Aggregator Script AaEvent
resting = idle aa_consented

-- The workflow waits for the status of the consent.
abbrev waiting : Proc FinancialUser Script FiuEvent
waiting = busy false asked (FiuRoutes.run_task 0) (room ∷ consented ∷ [])

key_waits :
    awaits user (busy false asked (FiuRoutes.run_task 0) [])
    ≡ some (get_request false "http://ccr/api/ccr/key" null)
unfolding FiuRoutes.handle_event FiuRoutes.process_request FiuRoutes.run_at FiuRoutes.run_taken
    FiuRoutes.start_task start_workflow open_transaction get_ccr_public_key get_json_request
    post_json_request accept make_url ◌>>=◌ lookup insert
key_waits = refl

consent_waits :
    awaits user (busy false asked (FiuRoutes.run_task 0) (room ∷ []))
    ≡ some (post_request false "http://aa/Consent" consent_body)
unfolding FiuRoutes.handle_event FiuRoutes.process_request FiuRoutes.run_at FiuRoutes.run_taken
    FiuRoutes.start_task start_workflow open_transaction get_ccr_public_key get_json_request
    post_json_request accept make_url ◌>>=◌ lookup insert consent_request consent_detail
consent_waits = refl

status_waits :
    awaits user waiting ≡ some (get_request false "http://aa/Consent/handle/handle-1" null)
unfolding FiuRoutes.handle_event FiuRoutes.process_request FiuRoutes.run_at FiuRoutes.run_taken
    FiuRoutes.start_task start_workflow open_transaction get_ccr_public_key get_json_request
    post_json_request accept make_url ◌>>=◌ lookup insert consent_request consent_detail
status_waits = refl

module _ {MayAa : AaEvent → Proc FinancialUser Script FiuEvent → Type 0}
    {MayFiu : FiuEvent → Proc Aggregator Script AaEvent → Type 0}
    (asks : MayFiu (FiuRoutes.post_request data_json) (idle aa_start))
    (runs : MayFiu (FiuRoutes.run_task 0) (idle aa_start)) where
  -- The workflow reaches its wait for the status.
  unfoldable reached :
      Reach host host to_aa to_fiu respond respond MayAa MayFiu aa_start fiu_start
        (idle aa_consented)
        waiting
  unfolding AaRoutes.handle_event AaRoutes.process_consent handle_consent store_consent
      FiuRoutes.handle_event FiuRoutes.process_request lookup insert consent_request consent_detail
      ◌>>=◌ key_waits consent_waits
  reached =
      let key = get_request false "http://ccr/api/ccr/key" null in
      let consent = post_request false "http://aa/Consent" consent_body in
      let r1 = next start (inr (begin (FiuRoutes.post_request data_json) asks)) in
      let r2 = next r1 (inr (advance (finish refl))) in
      let r3 = next r2 (inr (begin (FiuRoutes.run_task 0) runs)) in
      let r4 = next r3 (inr (advance (outside key room key_waits refl))) in
      let r5 = next r4 (inl (advance (serve consent consent_waits refl))) in
      next r5 (inl (advance (finish refl)))

Reach-Proceeds_example :
    (IsIdle resting × IsIdle waiting) ⊎ Proceeds aggregator user resting waiting
Reach-Proceeds_example =
    Reach-Proceeds host host to_aa to_fiu respond respond to_aa-local to_fiu-local
      (reached (λ c. absurd c) (λ c. tt))

reached_new : AreNew host host to_aa to_fiu respond respond (reached tt tt)
unfolding reached lookup
reached_new = ((((((tt, tt), tt), tt), tt), refl), tt)

Reach-HasConsistentTables-HasKeyedTables_example :
    HasConsistentTables host aa_consented.self × HasKeyedTables (globals user waiting)
Reach-HasConsistentTables-HasKeyedTables_example =
    Reach-HasConsistentTables-HasKeyedTables host host to_aa to_fiu respond respond "aa"
      "http://fiu" "http://crypto" "http://ccr" "http://aa" aa_start.world fiu_start.world
      (reached tt tt) reached_new

-- The account aggregator has the task of the consent, and may begin it.
abbrev consent_detail_of : Json
consent_detail_of = sent (index consent_body "ConsentDetail")

create_consent_artifact-hangs_example :
    let p : Proc Aggregator Script AaEvent = busy false aa_consented (AaRoutes.run_task 0) [] in
    let Steps = Step host host to_aa to_fiu respond respond Anytime Anytime in
    Steps resting waiting p waiting
    × ((p' : Proc Aggregator Script AaEvent) (q' : Proc FinancialUser Script FiuEvent)
        → ¬ Steps p waiting p' q')
unfolding AaRoutes.handle_event AaRoutes.process_consent handle_consent store_consent lookup insert
    consent_request consent_detail ◌>>=◌ status_waits make_url
create_consent_artifact-hangs_example =
    create_consent_artifact-hangs host host to_aa to_fiu respond respond aa_consented 0 "handle-1"
      "http://fiu/Consent/Notification" "consent-1" "a signature" consent_body (str "txn-1")
      consent_detail_of [] waiting _ refl refl refl refl refl refl
      (
        get_request false "http://aa/Consent/handle/handle-1" null,
        AaRoutes.get_consent_handle "handle-1",
        status_waits,
        refl,
      )
