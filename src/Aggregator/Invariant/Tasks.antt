-- ===== src/Aggregator/Invariant/Tasks.antt =====
-- A task of the account aggregator that the event loop runs keeps the consent tables consistent.
use fiu_data_governance.Prelude.{
  ℕ, zero, suc, inl, inr, refl, String, Option, none, some, List, [], ◌∷◌, All, string_eq,
}
use fiu_data_governance.Prelude.Dict.{insert}
use fiu_data_governance.Host.{Host, Sys, ◌>>=◌}
use fiu_data_governance.Host.Effects.Keeps.{Keeps, Leads-then, keeps_rules}
use fiu_data_governance.Client.Failures.{post_json_request-Keeps}
use fiu_data_governance.Python.Errors.{Result-cases}
use fiu_data_governance.Python.Json.{Json}
use fiu_data_governance.Aggregator.{Aggregator, Task, create_artifact, request_fi}
use fiu_data_governance.Aggregator.Messages.{consent_artifact}
use fiu_data_governance.Aggregator.Consent.{
  sign_artifact, notify_fiu, create_consent_artifact, get_consent_signature,
}
use fiu_data_governance.Aggregator.Routes.{start_task, run_taken, run_at}
use fiu_data_governance.Host.Tasks.{take_task}
use fiu_data_governance.Aggregator.Invariant.Tables.{IsReady, IsConsistent-artifact}
use fiu_data_governance.Aggregator.Invariant.Frame.{handle_fi_request-Keeps}
use fiu_data_governance.Aggregator.Invariant.Handlers.{
  HasConsistentTables, HasConsistentTables-Framed,
}

-- What holds of every task holds of the one that is taken and of those that stay.
abbrev pub AllTaken {κ} : (Task → Type κ) → Option (Task × List Task) → Type κ
AllTaken P none = Unit
AllTaken P (some (t, us)) = P t × All P us

AllTaken-push {κ} :
    (P : Task → Type κ) (u : Task) (o : Option (Task × List Task))
    → P u
    → AllTaken P o
    → AllTaken P (elim o [ none ↦ none | some (t, us) ↦ some (t, u ∷ us) ])
AllTaken-push P u none p h = tt
AllTaken-push P u (some (t, us)) p (q, h) = (q, (p, h))

pub AllTaken-take_task {κ} :
    (P : Task → Type κ) (n : ℕ) (ts : List Task) → All P ts → AllTaken P (take_task n ts)
AllTaken-take_task P n [] h = tt
AllTaken-take_task P zero (u ∷ ts) h = h
AllTaken-take_task P (suc n) (u ∷ ts) (p, h) =
    AllTaken-push P u (take_task n ts) p (AllTaken-take_task P n ts h)

module _ {W : Type 0} (host : Host W) where
  pub notify_fiu-Keeps :
      {P : Aggregator → Type 0} (h : String) (txn_id : Json) (consent_id : String)
      → Keeps P (notify_fiu host h txn_id consent_id)
  unfolding notify_fiu
  notify_fiu-Keeps h txn_id consent_id = search (keeps_rules, post_json_request-Keeps) depth 20

  create_consent_artifact-HasConsistentTables :
      (h : String) (request : Json) (s : Sys Aggregator W)
      → IsReady s.self.consent_handles s.self.consent_claims (create_artifact h request)
      → HasConsistentTables host s.self
      → HasConsistentTables host (create_consent_artifact host h request s).1.self
  unfolding create_consent_artifact sign_artifact get_consent_signature ◌>>=◌
  create_consent_artifact-HasConsistentTables h request s (entry, claim, known, claimed) c =
      elim (Result-cases (host.sign claim)) [
        | inr (x, e) ↦ rw (known, claimed, e) c
        | inl (signature, e) ↦
            let (txn_id, consent_id) = entry in
            let (created, w) = host.now s.world in
            let (used, w') = host.now w in
            let artifact = consent_artifact txn_id consent_id created signature used in
            let s' : Sys Aggregator W = record {
              self = record s.self {
                consent_artifacts = insert consent_id artifact s.self.consent_artifacts;
              };
              world = w';
            } in
            rw (known, claimed, e)
              ((notify_fiu-Keeps {P = HasConsistentTables host} h txn_id consent_id).at s' (
                IsConsistent-artifact host.sign c consent_id artifact
                  (h, txn_id, claim, signature, created, used, known, claimed, e, refl)))
      ]

  start_task-HasConsistentTables :
      (t : Task) (s : Sys Aggregator W)
      → IsReady s.self.consent_handles s.self.consent_claims t
      → HasConsistentTables host s.self
      → HasConsistentTables host (start_task host t s).1.self
  unfolding start_task
  start_task-HasConsistentTables (create_artifact h request) s ready c =
      create_consent_artifact-HasConsistentTables h request s ready c
  start_task-HasConsistentTables (request_fi session_id request) s ready c =
      (handle_fi_request-Keeps host (HasConsistentTables-Framed host) session_id request).at s c

  run_taken-HasConsistentTables :
      (o : Option (Task × List Task)) (s : Sys Aggregator W)
      → AllTaken (IsReady s.self.consent_handles s.self.consent_claims) o
      → HasConsistentTables host s.self
      → HasConsistentTables host (run_taken host o s).1.self
  unfolding run_taken ◌>>=◌
  run_taken-HasConsistentTables none s h c = c
  run_taken-HasConsistentTables (some (t, us)) s (ready, rest) c =
      let s' : Sys Aggregator W = record s { self = record s.self { tasks = us } } in
      let c' : HasConsistentTables host s'.self = record {
        claims_handled = c.claims_handled;
        tasks_ready = rest;
        artifacts_signed = c.artifacts_signed;
      } in
      let after = start_task-HasConsistentTables t s' ready c' in
      Leads-then (HasConsistentTables host) (HasConsistentTables host) (start_task host t) _ s'
        (record { always = after; returned = λ a p. after }) (λ a u q. q)

  pub run_at-HasConsistentTables :
      (n : ℕ) (s : Sys Aggregator W)
      → HasConsistentTables host s.self
      → HasConsistentTables host (run_at host n s).1.self
  unfolding run_at ◌>>=◌
  run_at-HasConsistentTables n s c =
      run_taken-HasConsistentTables (take_task n s.self.tasks) s
        (AllTaken-take_task _ n s.self.tasks c.tasks_ready) c
