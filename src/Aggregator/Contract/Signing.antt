-- ===== src/Aggregator/Contract/Signing.antt =====
-- The tasks of the account aggregator (account-aggregator/src/controller.py and main.py) and the ledger:
-- a run of one takes it from the list and signs its consent, if it has one.
use fiu_data_governance.Prelude.{
  ◌≡◌, ◌∙◌, refl, ap, inl, inr, ℕ, zero, suc, String, Option, none, some, List, [], ◌∷◌, map,
  string_eq,
}
use fiu_data_governance.Prelude.Dict.{insert}
use fiu_data_governance.Host.{Host, Sys, ◌>>=◌}
use fiu_data_governance.Host.Effects.Keeps.{keeps_rules, then-keeps}
use fiu_data_governance.Host.Tasks.{take_task}
use fiu_data_governance.Python.Errors.{Result, Result-cases}
use fiu_data_governance.Python.Json.{Json}
use fiu_data_governance.Aggregator.{Aggregator, Task, create_artifact, request_fi}
use fiu_data_governance.Aggregator.Consent.{
  create_consent_artifact, sign_artifact, get_consent_signature,
}
use fiu_data_governance.Aggregator.Contract.{Book, book, AgreeBut, HasDistinctIds}
use fiu_data_governance.Aggregator.Invariant.Tables.{IsReady}
use fiu_data_governance.Aggregator.Invariant.Tasks.{AllTaken, notify_fiu-Keeps}
use fiu_data_governance.Aggregator.Contract.Writes.{
  book_of-known, book_of-artifact, AgreeBut-artifact,
}
use fiu_data_governance.Aggregator.Contract.Ledger.{
  Ledger, to_sign, ledger, signed, grant_at, run_entry, advance,
}
use fiu_data_governance.Aggregator.Contract.Entries.{
  ledger_eq, at_handle, HasLedger, handle_fi_request-HasLedger,
}
use fiu_data_governance.Aggregator.Messages.{consent_artifact}
use fiu_data_governance.Aggregator.Routes.{start_task, run_taken, run_at, run_task}
use fiu_data_governance.Aggregator.Invariant.Handlers.{HasConsistentTables}
use fiu_data_governance.Aggregator.Invariant.Tasks.{AllTaken-take_task}

grant_at-AgreeBut :
    (sign : Json → Result String) (h : String) (b b' : Book)
    → AgreeBut h b b'
    → b' h ≡ signed sign (b h)
    → (j : String) → b' j ≡ grant_at sign h b j
grant_at-AgreeBut sign h b b' agree e j = at_handle h j (signed sign) b b' agree e

-- A consent that stays as it is when it is signed.
grant_at-unchanged :
    (sign : Json → Result String) (h : String) (b : Book)
    → b h ≡ signed sign (b h)
    → (j : String) → b j ≡ grant_at sign h b j
grant_at-unchanged sign h b e j = grant_at-AgreeBut sign h b b (λ k ne. refl) e j

-- The task that is taken, as the ledger sees it.
abbrev taken : Option (Task × List Task) → Option (Option String × List (Option String))
taken none = none
taken (some (t, us)) = some (to_sign t, map to_sign us)

taken-push :
    (u : Task) (o : Option (Task × List Task))
    → taken (elim o [ none ↦ none | some (t, us) ↦ some (t, u ∷ us) ])
      ≡ elim (taken o) [ none ↦ none | some (t, us) ↦ some (t, to_sign u ∷ us) ]
taken-push u none = refl
taken-push u (some (t, us)) = refl

take_task-to_sign : (n : ℕ) (ts : List Task) → taken (take_task n ts) ≡ take_task n (map to_sign ts)
take_task-to_sign n [] = refl
take_task-to_sign zero (t ∷ ts) = refl
take_task-to_sign (suc n) (t ∷ ts) =
    taken-push t (take_task n ts)
    ∙ ap (λ o. elim o [ none ↦ none | some (u, us) ↦ some (u, to_sign t ∷ us) ])
        (take_task-to_sign n ts)

module _ {W : Type 0} (host : Host W) where
  create_consent_artifact-ledger :
      (h : String) (request : Json) (s : Sys Aggregator W)
      → IsReady s.self.consent_handles s.self.consent_claims (create_artifact h request)
      → HasDistinctIds s.self.consent_handles
      → HasLedger
          (record {
            consents = grant_at host.sign h (book s.self);
            tasks = map to_sign s.self.tasks;
          })
          (create_consent_artifact host h request s).1.self
  unfolding create_consent_artifact sign_artifact get_consent_signature ◌>>=◌
  create_consent_artifact-ledger h request s ((txn_id, id), claim, known, claimed) distinct =
      let g = s.self in
      let handles = g.consent_handles in
      let claims = g.consent_claims in
      let artifacts = g.consent_artifacts in
      let l' : Ledger = record {
        consents = grant_at host.sign h (book g);
        tasks = map to_sign g.tasks;
      } in
      let old : book g h ≡ _ =
        book_of-known handles claims artifacts h txn_id claim claim id known claimed in
      elim (Result-cases (host.sign claim)) [
        | inr (x, e) ↦
            let same : book g h ≡ signed host.sign (book g h) = rw (old, e) refl in
            rw (known, claimed, e)
              (ledger_eq (ledger g) l' (grant_at-unchanged host.sign h (book g) same) refl)
        | inl (signature, e) ↦
            let (created, w) = host.now s.world in
            let (used, w') = host.now w in
            let artifact = consent_artifact txn_id id created signature used in
            let s' : Sys Aggregator W = record s {
              self = record s.self { consent_artifacts = insert id artifact artifacts };
              world = w';
            } in
            let new =
              book_of-artifact handles claims artifacts h txn_id claim artifact id known claimed in
            let granted : book s'.self h ≡ signed host.sign (book g h) = rw (old, e) new in
            let agree =
              AgreeBut-artifact handles claims artifacts h txn_id claim artifact id known claimed
                distinct in
            rw (known, claimed, e)
              ((notify_fiu-Keeps host {P = HasLedger l'} h txn_id id).at s' (
                ledger_eq (ledger s'.self) l'
                  (grant_at-AgreeBut host.sign h (book g) (book s'.self) agree granted) refl))
      ]

  start_task-ledger :
      (t : Task) (s : Sys Aggregator W)
      → IsReady s.self.consent_handles s.self.consent_claims t
      → HasDistinctIds s.self.consent_handles
      → (l : Ledger) → l.consents ≡ book s.self
      → HasLedger
          (run_entry host.sign (some (to_sign t, map to_sign s.self.tasks)) l)
          (start_task host t s).1.self
  unfolding start_task
  start_task-ledger (create_artifact h request) s ready distinct l e =
      rw e (create_consent_artifact-ledger h request s ready distinct)
  start_task-ledger (request_fi session_id request) s ready distinct l e =
      rw e ((handle_fi_request-HasLedger host session_id request).at s refl)

  run_taken-ledger :
      (o : Option (Task × List Task)) (s : Sys Aggregator W)
      → AllTaken (IsReady s.self.consent_handles s.self.consent_claims) o
      → HasDistinctIds s.self.consent_handles
      → HasLedger (run_entry host.sign (taken o) (ledger s.self)) (run_taken host o s).1.self
  unfolding run_taken ◌>>=◌
  run_taken-ledger none s h distinct = refl
  run_taken-ledger (some (t, us)) s (ready, rest) distinct =
      let s' : Sys Aggregator W = record s { self = record s.self { tasks = us } } in
      then-keeps (HasLedger (run_entry host.sign (taken (some (t, us))) (ledger s.self)))
        (start_task host t) _ s' (start_task-ledger t s' ready distinct (ledger s.self) refl)
        (λ a. search keeps_rules)

  pub run_at-ledger :
      (n : ℕ) (s : Sys Aggregator W) (h consent_id : String)
      → HasConsistentTables host s.self
      → HasDistinctIds s.self.consent_handles
      → ledger (run_at host n s).1.self
        ≡ advance host.sign (run_task n) h consent_id (ledger s.self)
  unfolding run_at ◌>>=◌
  run_at-ledger n s h consent_id c distinct =
      run_taken-ledger (take_task n s.self.tasks) s
        (AllTaken-take_task _ n s.self.tasks c.tasks_ready) distinct
      ∙ ap (λ o. run_entry host.sign o (ledger s.self)) (take_task-to_sign n s.self.tasks)
