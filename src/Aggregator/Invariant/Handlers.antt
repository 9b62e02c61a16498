-- ===== src/Aggregator/Invariant/Handlers.antt =====
-- Each handler of the account aggregator keeps the consent tables consistent.
use fiu_data_governance.Prelude.{◌≡◌, inl, inr, String, none, string_eq}
use fiu_data_governance.Prelude.Dict.{lookup, insert, lookup-insert_self}
use fiu_data_governance.Host.{Host, Sys, ◌>>=◌}
use fiu_data_governance.Host.Effects.Keeps.{keeps_rules, Leads, Leads-then, Leads-bind}
use fiu_data_governance.Python.Errors.{Result-cases}
use fiu_data_governance.Python.Json.{Json}
use fiu_data_governance.Python.Subscript.{index}
use fiu_data_governance.Aggregator.{Aggregator, create_artifact, request_fi}
use fiu_data_governance.Aggregator.Consent.{store_consent, handle_consent}
use fiu_data_governance.Aggregator.Routes.{process_consent}
use fiu_data_governance.Aggregator.Invariant.Frame.{Framed}
use fiu_data_governance.Aggregator.Invariant.Tables.{
  IsReady, IsConsistent, IsConsistent-handle, IsConsistent-claims, IsConsistent-task,
}

module _ {W : Type 0} (host : Host W) where
  abbrev pub HasConsistentTables : Aggregator → Type 0
  HasConsistentTables s =
      IsConsistent host.sign s.consent_handles s.consent_claims s.consent_artifacts s.tasks

  pub HasConsistentTables-Framed : Framed HasConsistentTables
  HasConsistentTables-Framed = record {
    url_cr = λ u s h. h;
    fi_data_json = λ j s h. h;
    crypto_keys = λ j s h. h;
    sessions = λ d s h. h;
    request_task = λ k r s h. IsConsistent-task host.sign h (request_fi k r) tt;
  }

  -- The tables are consistent, and a task for the handle would be ready.
  abbrev HasReady : String → Json → Aggregator → Type 0
  HasReady h request s =
      HasConsistentTables s × IsReady s.consent_handles s.consent_claims (create_artifact h request)

  -- After both writes.
  stored-HasReady :
      (h : String) (request txn_id detail : Json) (consent_id : String) (s : Aggregator)
      → lookup h s.consent_handles ≡ none
      → HasConsistentTables s
      → HasReady h request (record s {
        consent_handles = insert h (txn_id, consent_id) s.consent_handles;
        consent_claims = insert h detail s.consent_claims;
      })
  stored-HasReady h request txn_id detail consent_id s fresh c =
      let entry : Json × String = (txn_id, consent_id) in
      let known = lookup-insert_self h entry s.consent_handles in
      (
        IsConsistent-claims host.sign (IsConsistent-handle host.sign c h entry fresh) h entry detail
            known (c.claims_handled h fresh),
        (entry, detail, known, lookup-insert_self h detail s.consent_claims),
      )

  store_consent-Leads :
      (h : String) (request : Json) (s : Sys Aggregator W)
      → lookup h s.self.consent_handles ≡ none
      → HasConsistentTables s.self
      → Leads HasConsistentTables (HasReady h request) (store_consent host h request) s
  unfolding store_consent ◌>>=◌
  store_consent-Leads h request s fresh c = elim (Result-cases (index request "txnid")) [
    | inr (x, e) ↦ record { always = rw e c; returned = λ a p. let q = rw e at p in cc }
    | inl (txn_id, e) ↦ elim (Result-cases (index request "ConsentDetail")) [
      | inr (x, e') ↦ record {
        always = rw (e, e') (IsConsistent-handle host.sign c h _ fresh);
        returned = λ a p. let q = rw (e, e') at p in cc;
      }
      | inl (detail, e') ↦
          let consent_id = (host.uuid4 s.world).0 in
          let stored = stored-HasReady h request txn_id detail consent_id s.self fresh c in
          record { always = rw (e, e') stored.0; returned = λ a p. rw (e, e') stored }
    ]
  ]

  handle_consent-Leads :
      (h : String) (request : Json) (s : Sys Aggregator W)
      → lookup h s.self.consent_handles ≡ none
      → HasConsistentTables s.self
      → Leads HasConsistentTables (HasReady h request) (handle_consent host h request) s
  unfolding handle_consent
  handle_consent-Leads h request s fresh c =
      Leads-bind HasConsistentTables (HasReady h request) (store_consent host h request) _ s
        (store_consent-Leads h request s fresh c) (λ (txn_id, detail). search keeps_rules depth 20)
        (λ t q. q.0)

  pub process_consent-HasConsistentTables :
      (request : Json) (s : Sys Aggregator W)
      → lookup (host.uuid4 s.world).0 s.self.consent_handles ≡ none
      → HasConsistentTables s.self
      → HasConsistentTables (process_consent host request s).1.self
  unfolding process_consent ◌>>=◌
  process_consent-HasConsistentTables request s fresh c =
      let (h, w) = host.uuid4 s.world in
      let s' : Sys Aggregator W = record s { world = w } in
      Leads-then HasConsistentTables (HasReady h request) (handle_consent host h request) _ s'
        (handle_consent-Leads h request s' fresh c)
        (λ a t (tables, ready).
          IsConsistent-task host.sign tables (create_artifact h request) ready)
