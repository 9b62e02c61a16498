-- ===== src/Aggregator/Contract/Refines.antt =====
-- The events of the account aggregator (account-aggregator/src/main.py) as steps of the book and of the
-- ledger, if the ids that they draw are new.
use fiu_data_governance.Prelude.{◌≡◌, ◌∙◌, ap, refl, inl, inr, String, List, [], ◌∷◌, string_eq}
use fiu_data_governance.Prelude.Dict.{lookup}
use fiu_data_governance.Host.{Host, Sys}
use fiu_data_governance.Aggregator.{Aggregator}
use fiu_data_governance.Startup.{Arguments, Service, port_of}
use fiu_data_governance.Aggregator.Main.{main}
use fiu_data_governance.Prelude.Int.{pos}
use mathlib.Core.Path.{subst}
use fiu_data_governance.Python.Errors.{ok, ok_inj, Result-cases}
use fiu_data_governance.Aggregator.Routes.{
  Event, post_cr_info, post_statements, post_consent, post_fi_request, get_consent_handle,
  get_consent, fetch, run_task, handle_event,
}
use fiu_data_governance.Aggregator.Invariant.Frame.{
  setup_cr_url-Keeps, setup_statements-Keeps, process_fi_request-Keeps, handle_consent_handle-Keeps,
  get_consent_artifact-Keeps, handle_fi_fetch-Keeps,
}
use fiu_data_governance.Aggregator.Invariant.Handlers.{HasConsistentTables}
use fiu_data_governance.Aggregator.Invariant.Reach.{
  IsFresh, handle_event-HasConsistentTables, initial-HasConsistentTables,
}
use fiu_data_governance.Aggregator.Contract.{book, Steps, done, after, HasDistinctIds, IsUnused}
use fiu_data_governance.Aggregator.Contract.Writers.{
  unused_unsigned, Follows, Follows-Framed, Follows-book, process_consent-Follows, run_at-Follows,
}
use fiu_data_governance.Aggregator.Contract.Ledger.{ledger, empty, advance, replay}
use fiu_data_governance.Aggregator.Contract.Entries.{
  setup_cr_url-HasLedger, setup_statements-HasLedger, handle_consent_handle-HasLedger,
  get_consent_artifact-HasLedger, handle_fi_fetch-HasLedger, process_fi_request-ledger,
  process_consent-ledger,
}
use fiu_data_governance.Aggregator.Contract.Signing.{run_at-ledger}

module _ {W : Type 0} (host : Host W) where
  -- The id of a new consent is not the id of another one.
  abbrev pub IsNew : Event → Sys Aggregator W → Type 0
  IsNew (post_consent request) s =
      IsUnused (host.uuid4 (host.uuid4 s.world).1).0 s.self.consent_handles
  IsNew _ s = Unit

  handle_event-Follows :
      (e : Event) (s : Sys Aggregator W)
      → IsFresh host e s
      → IsNew e s
      → HasConsistentTables host s.self
      → HasDistinctIds s.self.consent_handles
      → Follows (book s.self) (handle_event host e s).1.self
  unfolding handle_event
  handle_event-Follows (post_cr_info r) s f u c d =
      (setup_cr_url-Keeps host (Follows-Framed (book s.self)) r).at s (Follows-book s.self d)
  handle_event-Follows (post_statements r) s f u c d =
      (setup_statements-Keeps host (Follows-Framed (book s.self)) r).at s (Follows-book s.self d)
  handle_event-Follows (post_consent r) s f u c d = process_consent-Follows host r s f u c d
  handle_event-Follows (post_fi_request r) s f u c d =
      (process_fi_request-Keeps host (Follows-Framed (book s.self)) r).at s (Follows-book s.self d)
  handle_event-Follows (get_consent_handle h) s f u c d =
      (handle_consent_handle-Keeps host (Follows-Framed (book s.self)) h).at s
        (Follows-book s.self d)
  handle_event-Follows (get_consent i) s f u c d =
      (get_consent_artifact-Keeps host (Follows-Framed (book s.self)) i).at s
        (Follows-book s.self d)
  handle_event-Follows (fetch k) s f u c d =
      (handle_fi_fetch-Keeps host (Follows-Framed (book s.self)) k).at s (Follows-book s.self d)
  handle_event-Follows (run_task n) s f u c d = run_at-Follows host n s c d

  -- Requests and task runs, in which each new consent gets a handle and an id that are not in use.
  pub data Run (start : Sys Aggregator W) : Sys Aggregator W → Type 0 where
    begin : Run start start
    step :
        {s : Sys Aggregator W}
        → Run start s
        → (e : Event) → IsFresh host e s
        → IsNew e s
        → Run start (handle_event host e s).1

  abbrev pub IsSound : Aggregator → Type 0
  IsSound s = HasConsistentTables host s × HasDistinctIds s.consent_handles

  pub Run-Steps :
      {start s : Sys Aggregator W}
      → IsSound start.self
      → Run start s
      → IsSound s.self × Steps (book start.self) (book s.self)
  Run-Steps sound begin = (sound, done)
  Run-Steps sound (step {s} r e f u) =
      let ((c, d), steps) = Run-Steps sound r in
      let (d', next) = handle_event-Follows e s f u c d in
      ((handle_event-HasConsistentTables host e s f c, d'), after steps next)

  -- The service starts with an empty ledger.
  pub main-IsSound :
      (args : Arguments) (v : W) (service : Service Aggregator)
      → main host args v ≡ ok service
      → IsSound service.globals × (ledger service.globals ≡ empty)
  unfolding main lookup
  main-IsSound args v service e = elim (Result-cases (port_of args (pos 8000))) [
    | inl (port, p) ↦
        subst (λ t. IsSound t.globals × (ledger t.globals ≡ empty)) (ok_inj (rw p at e))
          ((initial-HasConsistentTables host "" "" "", λ h j t u i q r. absurd (cc q)), refl)
    | inr (x, p) ↦ absurd (cc (rw p at e))
  ]

  handle_event-ledger :
      (e : Event) (s : Sys Aggregator W)
      → IsFresh host e s
      → IsNew e s
      → IsSound s.self
      → let (h, w) = host.uuid4 s.world in
        ledger (handle_event host e s).1.self
        ≡ advance host.sign e h (host.uuid4 w).0 (ledger s.self)
  unfolding handle_event
  handle_event-ledger (post_cr_info r) s f u sound = (setup_cr_url-HasLedger host r).at s refl
  handle_event-ledger (post_statements r) s f u sound =
      (setup_statements-HasLedger host r).at s refl
  handle_event-ledger (post_consent r) s f u (c, d) =
      let (h, w) = host.uuid4 s.world in
      process_consent-ledger host r s (c.claims_handled h f)
        (unused_unsigned host (host.uuid4 w).0 s.self c u)
  handle_event-ledger (post_fi_request r) s f u sound =
      let (h, w) = host.uuid4 s.world in process_fi_request-ledger host r s h (host.uuid4 w).0
  handle_event-ledger (get_consent_handle h) s f u sound =
      (handle_consent_handle-HasLedger host h).at s refl
  handle_event-ledger (get_consent i) s f u sound =
      (get_consent_artifact-HasLedger host i).at s refl
  handle_event-ledger (fetch k) s f u sound = (handle_fi_fetch-HasLedger host k).at s refl
  handle_event-ledger (run_task n) s f u (c, d) =
      let (h, w) = host.uuid4 s.world in run_at-ledger host n s h (host.uuid4 w).0 c d

  -- The events of a run, the last one first, each with the two ids that the host draws next.
  abbrev pub log : {start s : Sys Aggregator W} → Run start s → List (Event × String × String)
  log begin = []
  log (step {s} r e f u) = let (h, w) = host.uuid4 s.world in (e, h, (host.uuid4 w).0) ∷ log r

  Run-ledger :
      {start s : Sys Aggregator W}
      → IsSound start.self
      → (r : Run start s) → ledger s.self ≡ replay host.sign (log r) (ledger start.self)
  Run-ledger sound begin = refl
  Run-ledger sound (step {s} r e f u) =
      let (h, w) = host.uuid4 s.world in
      handle_event-ledger e s f u (Run-Steps sound r).0
      ∙ ap (advance host.sign e h (host.uuid4 w).0) (Run-ledger sound r)

  -- Once `main` has started the service, after requests and task runs in any order, in which each new
  -- consent gets a handle and an id that are not in use, the book of consents and the waiting tasks
  -- are those that the specification computes from the log of these events and of the ids drawn, from
  -- an empty book and no tasks: a request that has a transaction id and a consent detail enters a
  -- consent with these and the drawn id as pending under the drawn handle, and leaves a task to sign it
  -- if the request names a customer, too; the run of that task makes this consent, and no other,
  -- ready if its claims can be signed; a request for financial information leaves a task that changes
  -- no consent; and no other request changes either.
  pub Run-refines :
      (args : Arguments) (v w : W) (service : Service Aggregator) {s : Sys Aggregator W}
      → main host args v ≡ ok service
      → (r : Run (record { self = service.globals; world = w }) s)
      → ledger s.self ≡ replay host.sign (log r) empty
  Run-refines args v w service started r =
      let (sound, none_yet) = main-IsSound args v service started in
      Run-ledger sound r ∙ ap (replay host.sign (log r)) none_yet
