-- ===== src/Aggregator/Contract/Forever.antt =====
-- What the book of consents says of the answers of the account aggregator
-- (account-aggregator/src/controller.py), and for how long.
use fiu_data_governance.Prelude.{
  ◌≡◌, ◌∙◌, ap, sym, inl, inr, refl, Bool, true, String, none, some, Option, string_eq,
  Option-cases, Bool-cases, if◌then◌else◌, ◌==◌,
}
use fiu_data_governance.Prelude.Dict.{lookup}
use fiu_data_governance.Host.{Host, Sys}
use fiu_data_governance.Python.Errors.{Exn, Result, ok, err}
use fiu_data_governance.Python.Json.{Json}
use fiu_data_governance.Aggregator.{Aggregator}
use fiu_data_governance.Startup.{Arguments, Service}
use fiu_data_governance.Aggregator.Main.{main}
use fiu_data_governance.Aggregator.Messages.{status_response}
use fiu_data_governance.Aggregator.Consent.{handle_consent_handle}
use fiu_data_governance.Aggregator.Status.{handle_consent_handle_lem}
use fiu_data_governance.Aggregator.Contract.{
  Consented, Book, book, AgreeBut, Step, stay, submit, grant, Steps, done, after,
}
use fiu_data_governance.Aggregator.Contract.Refines.{Run, Run-Steps, main-IsSound}

-- The same consent, still ready if it was.
abbrev Persists : Consented → Option Consented → Type 0
Persists c o = (r : Bool) × (o ≡ some (record c { ready = r })) × (c.ready ≡ true → r ≡ true)

Persists-some : (c : Consented) (o : Option Consented) → o ≡ some c → Persists c o
Persists-some c o e = (c.ready, e, λ h. h)

abbrev make_ready : Option Consented → Option Consented
make_ready none = none
make_ready (some c) = some (record c { ready = true })

AgreeBut-Persists :
    (h j : String) (c : Consented) (b b' : Book)
    → b j ≡ some c
    → AgreeBut h b b'
    → (h ≡ j → Persists c (b' j))
    → Persists c (b' j)
AgreeBut-Persists h j c b b' e agree k = elim (Bool-cases (h == j)) [
  | inl equal ↦ k ((string_eq.beq_iff h j).0 equal)
  | inr differ ↦
      Persists-some c (b' j)
        (agree j (λ p. let equal = (string_eq.beq_iff h j).1 p in absurd (cc equal)) ∙ e)
]

Step-Persists :
    (j : String) (c : Consented) {b b' : Book} → Step b b' → b j ≡ some c → Persists c (b' j)
Step-Persists j c {b} {b'} (stay agree) e = Persists-some c (b' j) (agree j ∙ e)
Step-Persists j c {b} {b'} (submit h d new new' agree) e =
    AgreeBut-Persists h j c b b' e agree
      (λ p. let old : b h ≡ some c = rw p e in absurd (cc (sym new ∙ old)))
Step-Persists j c {b} {b'} (grant h d old granted agree) e =
    AgreeBut-Persists h j c b b' e agree (λ p.
      let old' : b j ≡ some d = rw (sym p) old in
      let granted' : b' j ≡ make_ready (some d) = rw (sym p) granted in
      (true, granted' ∙ ap make_ready (sym old' ∙ e), λ h. refl))

Steps-Persists :
    (j : String) (c : Consented) {b b' : Book} → Steps b b' → b j ≡ some c → Persists c (b' j)
Steps-Persists j c {b} {b'} done e = Persists-some c (b j) e
Steps-Persists j c (after steps step) e =
    let (r, e', k) = Steps-Persists j c steps e in
    let (q, e'', l) = Step-Persists j (record c { ready = r }) step e' in (q, e'', λ h. l (k h))

module _ {W : Type 0} (host : Host W) where
  abbrev answer_of : String → String → Consented → Json
  answer_of h timestamp c =
      status_response timestamp c.txn_id h c.consent_id (if c.ready then "READY" else "PENDING")

  abbrev book_answer : String → String → Option Consented → Result Json
  book_answer h timestamp none = err Exn.assertion_error
  book_answer h timestamp (some c) = ok (answer_of h timestamp c)

  -- The status request reads the book.
  handle_consent_handle-book :
      (h : String) (c : Consented) (s : Sys Aggregator W)
      → book s.self h ≡ some c
      → (handle_consent_handle host h s).0 ≡ ok (answer_of h (host.now s.world).0 c)
  handle_consent_handle-book h c s e =
      let at = (handle_consent_handle_lem host h s).0 in
      elim (Option-cases (lookup h s.self.consent_handles)) [
        | inl unknown ↦ absurd (cc (rw unknown at e))
        | inr ((t, i), known) ↦ elim (Option-cases (lookup h s.self.consent_claims)) [
          | inl unclaimed ↦ absurd (cc (rw (known, unclaimed) at e))
          | inr (claim, claimed) ↦
              let e' = rw (known, claimed) at e in
              rw known at at ∙ ap (book_answer h (host.now s.world).0) e'
        ]
      ]

  -- From a state with a consent under a handle, which requests and task runs reach from a start of the
  -- service with new handles and ids, to any state that they reach later: the status of the
  -- handle is answered at both, with the transaction id and the consent id of the consent; it is
  -- READY at the first if the consent is ready there, and READY at the second if it was at the first.
  pub handle_consent_handle-persists :
      (args : Arguments) (v w : W) (service : Service Aggregator) {s t : Sys Aggregator W}
      → main host args v ≡ ok service
      → Run host (record { self = service.globals; world = w }) s
      → Run host s t
      → (h : String) (c : Consented) → book s.self h ≡ some c
      → ((handle_consent_handle host h s).0 ≡ ok (answer_of h (host.now s.world).0 c))
        × (later : Bool) × (c.ready ≡ true → later ≡ true)
        × ((handle_consent_handle host h t).0
            ≡ ok (answer_of h (host.now t.world).0 (record c { ready = later })))
  handle_consent_handle-persists args v w service {s} {t} started before run h c e =
      let (sound, steps) = Run-Steps host (main-IsSound host args v service started).0 before in
      let (sound', steps') = Run-Steps host sound run in
      let (r, e', k) = Steps-Persists h c steps' e in
      (
        handle_consent_handle-book h c s e,
        r,
        k,
        handle_consent_handle-book h (record c { ready = r }) t e',
      )
