-- ===== src/Aggregator/Invariant/Reach.antt =====
-- The states that the account aggregator can reach by requests and task runs (account-aggregator/src,
-- main.py and controller.py), in any order, and what holds of all of them.
use fiu_data_governance.Prelude.{
  ◌≡◌, ◌∙◌, ap, inl, inr, refl, String, none, some, string_eq, Option-cases,
}
use fiu_data_governance.Prelude.Dict.{lookup}
use fiu_data_governance.Host.{Host, Sys, reads}
use fiu_data_governance.Python.Errors.{ok, ok_inj}
use fiu_data_governance.Python.Json.{Json}
use fiu_data_governance.Aggregator.{Aggregator, initial}
use fiu_data_governance.Aggregator.Consent.{get_consent_artifact}
use fiu_data_governance.Aggregator.Routes.{
  Event, post_cr_info, post_statements, post_consent, post_fi_request, get_consent_handle,
  get_consent, fetch, run_task, handle_event,
}
use fiu_data_governance.Aggregator.Invariant.Tables.{IsSigned}
use fiu_data_governance.Aggregator.Invariant.Frame.{
  setup_cr_url-Keeps, setup_statements-Keeps, process_fi_request-Keeps, handle_consent_handle-Keeps,
  get_consent_artifact-Keeps, handle_fi_fetch-Keeps,
}
use fiu_data_governance.Aggregator.Invariant.Handlers.{
  HasConsistentTables, HasConsistentTables-Framed, process_consent-HasConsistentTables,
}
use fiu_data_governance.Aggregator.Invariant.Tasks.{run_at-HasConsistentTables}

module _ {W : Type 0} (host : Host W) where
  -- A new consent gets a handle that is not in use; uuid4 draws it from 2 ^ 122 values.
  abbrev pub IsFresh : Event → Sys Aggregator W → Type 0
  IsFresh (post_consent request) s = lookup (host.uuid4 s.world).0 s.self.consent_handles ≡ none
  IsFresh _ s = Unit

  pub data Reach (start : Sys Aggregator W) : Sys Aggregator W → Type 0 where
    here : Reach start start
    next :
        {s : Sys Aggregator W}
        → Reach start s
        → (e : Event) → IsFresh e s
        → Reach start (handle_event host e s).1

  pub handle_event-HasConsistentTables :
      (e : Event) (s : Sys Aggregator W)
      → IsFresh e s
      → HasConsistentTables host s.self
      → HasConsistentTables host (handle_event host e s).1.self
  unfolding handle_event
  handle_event-HasConsistentTables (post_cr_info r) s f c =
      (setup_cr_url-Keeps host (HasConsistentTables-Framed host) r).at s c
  handle_event-HasConsistentTables (post_statements r) s f c =
      (setup_statements-Keeps host (HasConsistentTables-Framed host) r).at s c
  handle_event-HasConsistentTables (post_consent r) s f c =
      process_consent-HasConsistentTables host r s f c
  handle_event-HasConsistentTables (post_fi_request r) s f c =
      (process_fi_request-Keeps host (HasConsistentTables-Framed host) r).at s c
  handle_event-HasConsistentTables (get_consent_handle h) s f c =
      (handle_consent_handle-Keeps host (HasConsistentTables-Framed host) h).at s c
  handle_event-HasConsistentTables (get_consent i) s f c =
      (get_consent_artifact-Keeps host (HasConsistentTables-Framed host) i).at s c
  handle_event-HasConsistentTables (fetch k) s f c =
      (handle_fi_fetch-Keeps host (HasConsistentTables-Framed host) k).at s c
  handle_event-HasConsistentTables (run_task n) s f c = run_at-HasConsistentTables host n s c

  pub initial-HasConsistentTables :
      (id url_fiu url_crypto : String) → HasConsistentTables host (initial id url_fiu url_crypto)
  unfolding lookup
  initial-HasConsistentTables id url_fiu url_crypto = record {
    claims_handled = λ h e. refl;
    tasks_ready = tt;
    artifacts_signed = λ i a e. absurd (cc e);
  }

  -- In every state that the service reaches from its start by requests and task runs in any order,
  -- where each new consent gets an unused handle, the consent tables are consistent: claims are kept
  -- only for known handles, every task that is to create an artifact finds its handle and its claims,
  -- and every artifact belongs to a handle, whose consent id and transaction id it has and over whose
  -- claims it is signed.
  pub Reach-HasConsistentTables :
      (id url_fiu url_crypto : String) (w : W) {s : Sys Aggregator W}
      → Reach (record { self = initial id url_fiu url_crypto; world = w }) s
      → HasConsistentTables host s.self
  Reach-HasConsistentTables id url_fiu url_crypto w here =
      initial-HasConsistentTables id url_fiu url_crypto
  Reach-HasConsistentTables id url_fiu url_crypto w (next {s} r e f) =
      handle_event-HasConsistentTables e s f (Reach-HasConsistentTables id url_fiu url_crypto w r)

  -- Every artifact that the service hands out, in a state that it reaches from its start, is active,
  -- carries the consent id that was asked for and the transaction id of a handle with that consent
  -- id, and is signed over the claims that were stored for the handle.
  pub get_consent_artifact-IsSigned :
      (id url_fiu url_crypto : String) (w : W) {s : Sys Aggregator W}
      → Reach (record { self = initial id url_fiu url_crypto; world = w }) s
      → (consent_id : String) (artifact : Json)
      → (get_consent_artifact host consent_id s).0 ≡ ok artifact
      → IsSigned host.sign s.self.consent_handles s.self.consent_claims consent_id artifact
  unfolding get_consent_artifact reads
  get_consent_artifact-IsSigned id url_fiu url_crypto w {s} r consent_id artifact h =
      let c = Reach-HasConsistentTables id url_fiu url_crypto w r in
      elim (Option-cases (lookup consent_id s.self.consent_artifacts)) [
        | inl e ↦ absurd (cc (rw e at h))
        | inr (a, e) ↦ c.artifacts_signed consent_id artifact (e ∙ ap some (ok_inj (rw e at h)))
      ]
