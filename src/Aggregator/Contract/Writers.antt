-- ===== src/Aggregator/Contract/Writers.antt =====
-- The handlers and tasks of the account aggregator that write the consent tables
-- (account-aggregator/src/controller.py) are steps of the book.
use fiu_data_governance.Prelude.{
  ◌≡◌, inl, inr, refl, ℕ, String, none, some, Option, List, string_eq, Option-cases,
}
use fiu_data_governance.Prelude.Dict.{lookup, insert}
use fiu_data_governance.Host.{Host, Sys, ◌>>=◌}
use fiu_data_governance.Host.Effects.Keeps.{keeps_rules, then-keeps}
use fiu_data_governance.Host.Tasks.{take_task}
use fiu_data_governance.Python.Errors.{Result-cases}
use fiu_data_governance.Python.Json.{Json}
use fiu_data_governance.Python.Subscript.{index}
use fiu_data_governance.Aggregator.{Aggregator, Task, create_artifact, request_fi}
use fiu_data_governance.Aggregator.Messages.{consent_artifact}
use fiu_data_governance.Aggregator.Consent.{
  store_consent, handle_consent, create_consent_artifact, sign_artifact, get_consent_signature,
}
use fiu_data_governance.Aggregator.Routes.{process_consent, start_task, run_taken, run_at}
use fiu_data_governance.Aggregator.Invariant.Tables.{IsReady}
use fiu_data_governance.Aggregator.Invariant.Frame.{Framed, handle_fi_request-Keeps}
use fiu_data_governance.Aggregator.Invariant.Handlers.{HasConsistentTables}
use fiu_data_governance.Aggregator.Invariant.Tasks.{AllTaken, AllTaken-take_task, notify_fiu-Keeps}
use fiu_data_governance.Aggregator.Contract.{Book, book, Step, stay, HasDistinctIds, IsUnused}
use fiu_data_governance.Aggregator.Contract.Writes.{
  HasDistinctIds-insert, book_of-insert_handle, submit-claims, grant-artifact,
}

-- The consent ids differ, and the book is at most one step away from `b`.
abbrev pub Follows : Book → Aggregator → Type 0
Follows b s = HasDistinctIds s.consent_handles × Step b (book s)

pub Follows-Framed : (b : Book) → Framed (Follows b)
Follows-Framed b = record {
  url_cr = λ u s h. h;
  fi_data_json = λ j s h. h;
  crypto_keys = λ j s h. h;
  sessions = λ d s h. h;
  request_task = λ k r s h. h;
}

pub Follows-book : (s : Aggregator) → HasDistinctIds s.consent_handles → Follows (book s) s
Follows-book s distinct = (distinct, stay (λ h. refl))

module _ {W : Type 0} (host : Host W) where
  -- Every artifact belongs to a handle.
  pub unused_unsigned :
      (consent_id : String) (s : Aggregator)
      → HasConsistentTables host s
      → IsUnused consent_id s.consent_handles
      → lookup consent_id s.consent_artifacts ≡ none
  unused_unsigned consent_id s c unused =
      elim (Option-cases (lookup consent_id s.consent_artifacts)) [
        | inl e ↦ e
        | inr (a, e) ↦
            let (h, txn_id, claim, sg, cr, us, known, claimed, signed, e') =
              c.artifacts_signed consent_id a e in
            absurd (unused h txn_id known)
      ]

  store_consent-Follows :
      (h : String) (request : Json) (s : Sys Aggregator W)
      → lookup h s.self.consent_handles ≡ none
      → IsUnused (host.uuid4 s.world).0 s.self.consent_handles
      → HasConsistentTables host s.self
      → HasDistinctIds s.self.consent_handles
      → Follows (book s.self) (store_consent host h request s).1.self
  unfolding store_consent ◌>>=◌
  store_consent-Follows h request s fresh unused c distinct =
      let id = (host.uuid4 s.world).0 in
      let handles = s.self.consent_handles in
      let claims = s.self.consent_claims in
      let artifacts = s.self.consent_artifacts in
      elim (Result-cases (index request "txnid")) [
        | inr (x, e) ↦ rw e (Follows-book s.self distinct)
        | inl (txn_id, e) ↦
            let distinct' = HasDistinctIds-insert h txn_id id handles distinct unused in
            elim (Result-cases (index request "ConsentDetail")) [
              | inr (x, e') ↦
                  rw (e, e')
                    (
                      distinct',
                      stay (
                          book_of-insert_handle handles claims artifacts h (txn_id, id)
                            (c.claims_handled h fresh)),
                    )
              | inl (detail, e') ↦
                  rw (e, e')
                    (
                      distinct',
                      submit-claims handles claims artifacts h txn_id detail id fresh
                          (unused_unsigned id s.self c unused),
                    )
            ]
      ]

  handle_consent-Follows :
      (h : String) (request : Json) (s : Sys Aggregator W) (b : Book)
      → Follows b (store_consent host h request s).1.self
      → Follows b (handle_consent host h request s).1.self
  unfolding handle_consent
  handle_consent-Follows h request s b follows =
      then-keeps (Follows b) (store_consent host h request) _ s follows
        (λ (txn_id, detail). search keeps_rules depth 20)

  pub process_consent-Follows :
      (request : Json) (s : Sys Aggregator W)
      → lookup (host.uuid4 s.world).0 s.self.consent_handles ≡ none
      → IsUnused (host.uuid4 (host.uuid4 s.world).1).0 s.self.consent_handles
      → HasConsistentTables host s.self
      → HasDistinctIds s.self.consent_handles
      → Follows (book s.self) (process_consent host request s).1.self
  unfolding process_consent ◌>>=◌
  process_consent-Follows request s fresh unused c distinct =
      let (h, w) = host.uuid4 s.world in
      let s' : Sys Aggregator W = record s { world = w } in
      then-keeps (Follows (book s.self)) (handle_consent host h request) _ s'
        (handle_consent-Follows h request s' (book s.self)
          (store_consent-Follows h request s' fresh unused c distinct))
        (λ answer. search keeps_rules depth 20)

  create_consent_artifact-Follows :
      (h : String) (request : Json) (s : Sys Aggregator W)
      → IsReady s.self.consent_handles s.self.consent_claims (create_artifact h request)
      → HasDistinctIds s.self.consent_handles
      → Follows (book s.self) (create_consent_artifact host h request s).1.self
  unfolding create_consent_artifact sign_artifact get_consent_signature ◌>>=◌
  create_consent_artifact-Follows h request s (entry, claim, known, claimed) distinct =
      elim (Result-cases (host.sign claim)) [
        | inr (x, e) ↦ rw (known, claimed, e) (Follows-book s.self distinct)
        | inl (signature, e) ↦
            let (txn_id, id) = entry in
            let (created, w) = host.now s.world in
            let (used, w') = host.now w in
            let artifact = consent_artifact txn_id id created signature used in
            let s' : Sys Aggregator W = record s {
              self = record s.self {
                consent_artifacts = insert id artifact s.self.consent_artifacts;
              };
              world = w';
            } in
            let granted =
              grant-artifact s.self.consent_handles s.self.consent_claims s.self.consent_artifacts h
                txn_id claim artifact id known claimed distinct in
            rw (known, claimed, e)
              ((notify_fiu-Keeps host {P = Follows (book s.self)} h txn_id id).at s'
                (distinct, granted))
      ]

  start_task-Follows :
      (t : Task) (s : Sys Aggregator W)
      → IsReady s.self.consent_handles s.self.consent_claims t
      → HasDistinctIds s.self.consent_handles
      → Follows (book s.self) (start_task host t s).1.self
  unfolding start_task
  start_task-Follows (create_artifact h request) s ready distinct =
      create_consent_artifact-Follows h request s ready distinct
  start_task-Follows (request_fi session_id request) s ready distinct =
      (handle_fi_request-Keeps host (Follows-Framed (book s.self)) session_id request).at s
        (Follows-book s.self distinct)

  run_taken-Follows :
      (o : Option (Task × List Task)) (s : Sys Aggregator W)
      → AllTaken (IsReady s.self.consent_handles s.self.consent_claims) o
      → HasDistinctIds s.self.consent_handles
      → Follows (book s.self) (run_taken host o s).1.self
  unfolding run_taken ◌>>=◌
  run_taken-Follows none s h distinct = Follows-book s.self distinct
  run_taken-Follows (some (t, us)) s (ready, rest) distinct =
      let s' : Sys Aggregator W = record s { self = record s.self { tasks = us } } in
      then-keeps (Follows (book s.self)) (start_task host t) _ s'
        (start_task-Follows t s' ready distinct) (λ a. search keeps_rules)

  pub run_at-Follows :
      (n : ℕ) (s : Sys Aggregator W)
      → HasConsistentTables host s.self
      → HasDistinctIds s.self.consent_handles
      → Follows (book s.self) (run_at host n s).1.self
  unfolding run_at ◌>>=◌
  run_at-Follows n s c distinct =
      run_taken-Follows (take_task n s.self.tasks) s
        (AllTaken-take_task _ n s.self.tasks c.tasks_ready) distinct
