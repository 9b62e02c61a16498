-- ===== src/Aggregator/Status.antt =====
-- What a client of the account aggregator sees of a consent (account-aggregator/src/controller.py):
-- pending before the artifact has been created, and ready from then on.
use fiu_data_governance.Prelude.{
  ◌≡◌, inl, inr, refl, ap, ◌∙◌, String, none, some, string_eq, Option-cases, if◌then◌else◌,
}
use fiu_data_governance.Prelude.Dict.{
  lookup, insert, contains, lookup-insert_self, contains-insert_self,
}
use fiu_data_governance.Host.{Host, Sys, ◌>>=◌}
use fiu_data_governance.Python.Errors.{Exn, ok, err}
use fiu_data_governance.Python.Json.{Json}
use fiu_data_governance.Aggregator.{Aggregator}
use fiu_data_governance.Aggregator.Messages.{status_response, consent_artifact}
use fiu_data_governance.Aggregator.Consent.{
  handle_consent_handle, get_consent_signature, sign_artifact, create_consent_artifact,
  get_consent_artifact,
}
use fiu_data_governance.Aggregator.Invariant.Tasks.{notify_fiu-Keeps}

module _ {W : Type 0} (host : Host W) where
  -- The status of a known handle is READY exactly if there is an artifact under its consent id; an
  -- unknown handle fails the assertion. Asking changes nothing.
  pub handle_consent_handle_lem :
      (h : String) (s : Sys Aggregator W)
      → ((handle_consent_handle host h s).0 ≡ (elim (lookup h s.self.consent_handles) [
        | none ↦ err Exn.assertion_error
        | some (txn_id, consent_id) ↦ ok (
            status_response
              (host.now s.world).0
              txn_id
              h
              consent_id
              (if contains consent_id s.self.consent_artifacts then "READY" else "PENDING"))
      ]))
        × ((handle_consent_handle host h s).1.self ≡ s.self)
  unfolding handle_consent_handle ◌>>=◌
  handle_consent_handle_lem h s = elim (Option-cases (lookup h s.self.consent_handles)) [
    | inl e ↦ (rw e, rw e)
    | inr (entry, e) ↦ (rw e, rw e)
  ]

  module _ (h : String) (request txn_id claim : Json) (consent_id signature : String)
      (s : Sys Aggregator W) (known : lookup h s.self.consent_handles ≡ some (txn_id, consent_id))
      (claimed : lookup h s.self.consent_claims ≡ some claim)
      (signed : host.sign claim ≡ ok signature) where
    abbrev artifact : Json
    artifact =
        consent_artifact txn_id consent_id (host.now s.world).0 signature
          (host.now (host.now s.world).1).0

    -- Whether the notification of the FIU succeeds or not, the globals after the task differ from those
    -- before in the artifact alone.
    self-create_consent_artifact :
        (create_consent_artifact host h request s).1.self
        ≡ record s.self { consent_artifacts = insert consent_id artifact s.self.consent_artifacts }
    unfolding create_consent_artifact sign_artifact get_consent_signature ◌>>=◌
    self-create_consent_artifact =
        let t : Aggregator = record s.self {
          consent_artifacts = insert consent_id artifact s.self.consent_artifacts;
        } in
        let s' : Sys Aggregator W = record {
          self = t;
          world = (host.now (host.now s.world).1).1;
        } in
        rw (known, claimed, signed)
          ((notify_fiu-Keeps host {P = λ a. a ≡ t} h txn_id consent_id).at s' refl)

    -- For a known handle with claims that can be signed, in the globals that the task leaves, whether
    -- its notification of the FIU succeeds or not, GET /Consent for the consent id returns the signed
    -- artifact, and the status of the handle is READY.
    pub ready-create_consent_artifact :
        (u : Sys Aggregator W)
        → u.self ≡ (create_consent_artifact host h request s).1.self
        → ((get_consent_artifact host consent_id u).0 ≡ ok artifact)
          × ((handle_consent_handle host h u).0
              ≡ ok (status_response (host.now u.world).0 txn_id h consent_id "READY"))
    unfolding get_consent_artifact handle_consent_handle ◌>>=◌
    ready-create_consent_artifact u same =
        let e = same ∙ self-create_consent_artifact in
        let handles = ap (λ a. a.consent_handles) e in
        let artifacts = ap (λ a. a.consent_artifacts) e in
        let found = lookup-insert_self consent_id artifact s.self.consent_artifacts in
        let there = contains-insert_self consent_id artifact s.self.consent_artifacts in
        (
          rw (artifacts, found),
          (handle_consent_handle_lem h u).0 ∙ rw (handles, known) (rw artifacts (rw there)),
        )
