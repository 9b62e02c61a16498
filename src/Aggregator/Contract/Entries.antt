-- ===== src/Aggregator/Contract/Entries.antt =====
-- The routes of the account aggregator (account-aggregator/src/main.py and controller.py) and the
-- ledger: what each of them makes of it.
use fiu_data_governance.Prelude.{
  ◌≡◌, ◌∙◌, refl, inl, inr, String, Option, none, some, [], ◌∷◌, ◌++◌, map, false, ◌==◌, string_eq,
  Bool-cases, if◌then◌else◌,
}
use mathlib.Core.List.{map-append}
use mathlib.Core.Path.{subst}
use fiu_data_governance.Prelude.Dict.{lookup}
use fiu_data_governance.Host.{Host, Sys, modify, ◌>>=◌}
use fiu_data_governance.Host.Effects.Keeps.{Keeps, Keeps-modify, keeps_rules}
use fiu_data_governance.Client.Failures.{post_json_request-Keeps, get_json_request-Keeps}
use fiu_data_governance.Python.Errors.{Result-cases}
use fiu_data_governance.Python.Json.{Json}
use fiu_data_governance.Python.Subscript.{index}
use fiu_data_governance.Aggregator.{Aggregator, create_artifact, request_fi}
use fiu_data_governance.Aggregator.Consent.{
  store_consent, handle_consent, setup_certificate, handle_consent_handle, get_consent_artifact,
}
use fiu_data_governance.Aggregator.Session.{
  ensure_crypto_keys, encrypt_fi, notify_fi, handle_fi_request, handle_fi_fetch,
}
use fiu_data_governance.Aggregator.Routes.{
  setup_cr_url, setup_statements, process_consent, process_fi_request, post_consent,
  post_fi_request,
}
use fiu_data_governance.Aggregator.Contract.{Consented, Book, book, AgreeBut}
use fiu_data_governance.Aggregator.Contract.Writes.{
  book_of-insert_handle, book_of-insert_self, AgreeBut-claims,
}
use fiu_data_governance.Aggregator.Contract.Ledger.{Ledger, to_sign, ledger, put, advance}

-- Books and ledgers that agree are equal.
pub ledger_eq :
    (l l' : Ledger) → ((j : String) → l.consents j ≡ l'.consents j) → l.tasks ≡ l'.tasks → l ≡ l'
ledger_eq l l' p q = λ i. record { consents = λ j. p j i; tasks = q i }

-- The entry of a book at a handle, and at the others, after a change at the handle.
pub at_handle :
    (h j : String) (f : Option Consented → Option Consented) (b b' : Book)
    → AgreeBut h b b'
    → b' h ≡ f (b h)
    → b' j ≡ (if h == j then f (b j) else b j)
at_handle h j f b b' agree e = elim (Bool-cases (h == j)) [
  | inl same ↦ rw same (subst (λ k. b' k ≡ f (b k)) ((string_eq.beq_iff h j).0 same) e)
  | inr other ↦
      rw other (agree j (λ p. let equal = (string_eq.beq_iff h j).1 p in absurd (cc equal)))
]

put-AgreeBut :
    (h : String) (c : Consented) (b b' : Book)
    → AgreeBut h b b'
    → b' h ≡ some c
    → (j : String) → b' j ≡ put h c b j
put-AgreeBut h c b b' agree e j = at_handle h j (λ o. some c) b b' agree e

abbrev pub HasLedger : Ledger → Aggregator → Type 0
HasLedger l s = ledger s ≡ l

module _ {W : Type 0} (host : Host W) where
  -- A write to the other globals.
  write-HasLedger :
      {l : Ledger} (f : Aggregator → Aggregator)
      → ((s : Aggregator) → ledger (f s) ≡ ledger s)
      → Keeps {W = W} (HasLedger l) (modify f)
  write-HasLedger f same = Keeps-modify f (λ s h. same s ∙ h)

  module _ {l : Ledger} where
    ruleset entry_rules =
        (keeps_rules, post_json_request-Keeps, get_json_request-Keeps, write-HasLedger, refl)

    pub setup_cr_url-HasLedger : (r : Json) → Keeps (HasLedger l) (setup_cr_url host r)
    unfolding setup_cr_url setup_certificate
    setup_cr_url-HasLedger r = search entry_rules depth 20

    pub setup_statements-HasLedger : (r : Json) → Keeps (HasLedger l) (setup_statements host r)
    unfolding setup_statements
    setup_statements-HasLedger r = search entry_rules

    pub handle_consent_handle-HasLedger :
        (h : String) → Keeps (HasLedger l) (handle_consent_handle host h)
    unfolding handle_consent_handle
    handle_consent_handle-HasLedger h = search entry_rules depth 20

    pub get_consent_artifact-HasLedger :
        (i : String) → Keeps (HasLedger l) (get_consent_artifact host i)
    unfolding get_consent_artifact
    get_consent_artifact-HasLedger i = search entry_rules

    pub handle_fi_fetch-HasLedger : (k : String) → Keeps (HasLedger l) (handle_fi_fetch host k)
    unfolding handle_fi_fetch
    handle_fi_fetch-HasLedger k = search entry_rules

    ensure_crypto_keys-HasLedger : Keeps (HasLedger l) (ensure_crypto_keys host)
    unfolding ensure_crypto_keys
    ensure_crypto_keys-HasLedger = search entry_rules depth 40

    pub handle_fi_request-HasLedger :
        (session_id : String) (r : Json) → Keeps (HasLedger l) (handle_fi_request host session_id r)
    unfolding handle_fi_request encrypt_fi notify_fi
    handle_fi_request-HasLedger session_id r =
        search (entry_rules, ensure_crypto_keys-HasLedger) depth 40

  pub process_fi_request-ledger :
      (r : Json) (s : Sys Aggregator W) (h consent_id : String)
      → ledger (process_fi_request host r s).1.self
        ≡ advance host.sign (post_fi_request r) h consent_id (ledger s.self)
  unfolding process_fi_request ◌>>=◌
  process_fi_request-ledger r s h consent_id =
      let (session_id, w) = host.uuid4 s.world in
      let pushed =
        ledger_eq _ (advance host.sign (post_fi_request r) h consent_id (ledger s.self)) (λ j. refl)
          (map-append to_sign s.self.tasks (request_fi session_id r ∷ [])) in
      elim (Result-cases (index r "txnid")) [
        | inr (x, e) ↦ rw e pushed
        | inl (txn_id, e) ↦ elim (Result-cases (index r "Consent")) [
          | inr (x, e') ↦ rw (e, e') pushed
          | inl (consent, e') ↦ elim (Result-cases (index consent "id")) [
            | inr (x, e'') ↦ rw (e, e', e'') pushed
            | inl (id, e'') ↦ rw (e, e', e'') pushed
          ]
        ]
      ]

  pub process_consent-ledger :
      (r : Json) (s : Sys Aggregator W)
      → let (h, w) = host.uuid4 s.world in
        let id = (host.uuid4 w).0 in
        lookup h s.self.consent_claims ≡ none
        → lookup id s.self.consent_artifacts ≡ none
        → ledger (process_consent host r s).1.self
          ≡ advance host.sign (post_consent r) h id (ledger s.self)
  unfolding process_consent handle_consent store_consent ◌>>=◌
  process_consent-ledger r s unclaimed unsigned =
      let (h, w) = host.uuid4 s.world in
      let id = (host.uuid4 w).0 in
      let g = s.self in
      elim (Result-cases (index r "txnid")) [
        | inr (x, e) ↦ rw e refl
        | inl (txn_id, e) ↦ elim (Result-cases (index r "ConsentDetail")) [
          | inr (x, e') ↦
              rw (e, e')
                (ledger_eq _ (ledger g)
                  (book_of-insert_handle g.consent_handles g.consent_claims g.consent_artifacts h
                    (txn_id, id) unclaimed)
                  refl)
          | inl (detail, e') ↦
              let c : Consented = record {
                txn_id = txn_id;
                consent_id = id;
                claims = detail;
                ready = false;
              } in
              let written =
                put-AgreeBut h c (book g) _
                  (AgreeBut-claims g.consent_handles g.consent_claims g.consent_artifacts h txn_id
                    detail id)
                  (book_of-insert_self g.consent_handles g.consent_claims g.consent_artifacts h
                    txn_id detail id unsigned) in
              elim (Result-cases (index detail "Customer")) [
                | inr (x, e'') ↦
                    rw (e, e', e'')
                      (ledger_eq _
                        (record { consents = put h c (book g); tasks = map to_sign g.tasks })
                        written refl)
                | inl (customer, e'') ↦ elim (Result-cases (index customer "id")) [
                  | inr (x, e3) ↦
                      rw (e, e', e'', e3)
                        (ledger_eq _
                          (record { consents = put h c (book g); tasks = map to_sign g.tasks })
                          written refl)
                  | inl (i, e3) ↦
                      rw (e, e', e'', e3)
                        (ledger_eq _
                          (record {
                            consents = put h c (book g);
                            tasks = map to_sign g.tasks ++ some h ∷ [];
                          })
                          written (map-append to_sign g.tasks (create_artifact h r ∷ [])))
                ]
              ]
        ]
      ]
