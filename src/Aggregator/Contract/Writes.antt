-- ===== src/Aggregator/Contract/Writes.antt =====
-- The writes to the consent tables of the account aggregator (account-aggregator/src/controller.py) as
-- steps of the book.
use fiu_data_governance.Prelude.{
  ◌≡◌, ◌≢◌, refl, sym, ◌∙◌, ap, inl, inr, String, Option, none, some, Bool, true, false, ◌==◌,
  string_eq, Option-cases, Bool-cases,
}
use fiu_data_governance.Prelude.Dict.{
  Dict, lookup, insert, contains, lookup-insert, contains-insert_self, lookup-insert_self,
  lookup-insert-cases,
}
use fiu_data_governance.Python.Json.{Json}
use fiu_data_governance.Aggregator.Contract.{
  entry, book_of, AgreeBut, Step, submit, grant, HasDistinctIds, IsUnused,
}

-- The entry at a key, and the entries at the others.
lookup-insert_same {ℓ} :
    {V : Type ℓ} (k j : String) (v : V) (d : Dict String V)
    → (k == j) ≡ true
    → lookup j (insert k v d) ≡ some v
lookup-insert_same k j v d e = rw (lookup-insert, e)

lookup-insert_other {ℓ} :
    {V : Type ℓ} (k j : String) (v : V) (d : Dict String V)
    → (k == j) ≡ false
    → lookup j (insert k v d) ≡ lookup j d
lookup-insert_other k j v d e = rw (lookup-insert, e)

lookup-insert_ne {ℓ} :
    {V : Type ℓ} (k j : String) (v : V) (d : Dict String V)
    → k ≢ j
    → lookup j (insert k v d) ≡ lookup j d
lookup-insert_ne k j v d ne = elim (Bool-cases (k == j)) [
  | inl e ↦ absurd (ne ((string_eq.beq_iff k j).0 e))
  | inr e ↦ lookup-insert_other k j v d e
]

pub HasDistinctIds-insert :
    (h : String) (txn_id : Json) (consent_id : String) (handles : Dict String (Json × String))
    → HasDistinctIds handles
    → IsUnused consent_id handles
    → HasDistinctIds (insert h (txn_id, consent_id) handles)
HasDistinctIds-insert h txn_id consent_id handles distinct unused i j t u c p q =
    elim (lookup-insert-cases h i (txn_id, consent_id) (t, c) handles p) [
      | inl (hi, e) ↦ elim (lookup-insert-cases h j (txn_id, consent_id) (u, c) handles q) [
        | inl (hj, e') ↦ cc
        | inr old ↦ absurd (unused j u (let same : consent_id ≡ c = ap (λ x. x.1) e in cc))
      ]
      | inr old ↦ elim (lookup-insert-cases h j (txn_id, consent_id) (u, c) handles q) [
        | inl (hj, e') ↦ absurd (unused i t (let same : consent_id ≡ c = ap (λ x. x.1) e' in cc))
        | inr old' ↦ distinct i j t u c old old'
      ]
    ]

entry-unclaimed :
    (artifacts : Dict String Json) (o : Option (Json × String)) → entry artifacts o none ≡ none
entry-unclaimed artifacts none = refl
entry-unclaimed artifacts (some (t, consent_id)) = refl

contains-none : (k : String) (d : Dict String Json) → lookup k d ≡ none → contains k d ≡ false
contains-none k d e = rw (contains, e)

entry-some :
    (artifacts : Dict String Json) (txn_id claim : Json) (consent_id : String) (b : Bool)
    → contains consent_id artifacts ≡ b
    → entry artifacts (some (txn_id, consent_id)) (some claim)
      ≡ some (record { txn_id = txn_id; consent_id = consent_id; claims = claim; ready = b })
entry-some artifacts txn_id claim consent_id b e = rw e

entry-same :
    (artifacts artifacts' : Dict String Json) (e : Json × String) (claim : Option Json)
    → lookup e.1 artifacts' ≡ lookup e.1 artifacts
    → entry artifacts' (some e) claim ≡ entry artifacts (some e) claim
entry-same artifacts artifacts' (t, consent_id) none same = refl
entry-same artifacts artifacts' (t, consent_id) (some claim) same =
    let equal : contains consent_id artifacts' ≡ contains consent_id artifacts =
      rw (contains, same) in
    entry-some artifacts' t claim consent_id (contains consent_id artifacts) equal

module _ (handles : Dict String (Json × String)) (claims artifacts : Dict String Json) where
  -- A handle without claims does not show.
  pub book_of-insert_handle :
      (h : String) (e : Json × String)
      → lookup h claims ≡ none
      → (j : String)
      → book_of (insert h e handles) claims artifacts j ≡ book_of handles claims artifacts j
  book_of-insert_handle h e missing j = elim (Bool-cases (h == j)) [
    | inl same ↦
        let unclaimed : lookup j claims ≡ none =
          rw (sym ((string_eq.beq_iff h j).0 same)) missing in
        rw unclaimed (
          entry-unclaimed artifacts (lookup j (insert h e handles))
          ∙ sym (entry-unclaimed artifacts (lookup j handles)))
    | inr other ↦ rw (lookup-insert_other h j e handles other)
  ]

  pub book_of-insert_self :
      (h : String) (txn_id detail : Json) (consent_id : String)
      → lookup consent_id artifacts ≡ none
      → book_of (insert h (txn_id, consent_id) handles) (insert h detail claims) artifacts h
        ≡ some (record { txn_id = txn_id; consent_id = consent_id; claims = detail; ready = false })
  book_of-insert_self h txn_id detail consent_id unsigned =
      rw (lookup-insert_self h (txn_id, consent_id) handles, lookup-insert_self h detail claims)
        (entry-some artifacts txn_id detail consent_id false
          (contains-none consent_id artifacts unsigned))

  pub AgreeBut-claims :
      (h : String) (txn_id detail : Json) (consent_id : String)
      → AgreeBut h
          (book_of handles claims artifacts)
          (book_of (insert h (txn_id, consent_id) handles) (insert h detail claims) artifacts)
  AgreeBut-claims h txn_id detail consent_id j ne =
      rw (
        lookup-insert_ne h j (txn_id, consent_id) handles ne,
        lookup-insert_ne h j detail claims ne,
      )

  pub submit-claims :
      (h : String) (txn_id detail : Json) (consent_id : String)
      → lookup h handles ≡ none
      → lookup consent_id artifacts ≡ none
      → Step
          (book_of handles claims artifacts)
          (book_of (insert h (txn_id, consent_id) handles) (insert h detail claims) artifacts)
  submit-claims h txn_id detail consent_id fresh unsigned =
      submit h (record { txn_id = txn_id; consent_id = consent_id; claims = detail; ready = false })
        (rw fresh) (book_of-insert_self h txn_id detail consent_id unsigned)
        (AgreeBut-claims h txn_id detail consent_id)

  module _ (h : String) (txn_id claim artifact : Json) (consent_id : String)
      (known : lookup h handles ≡ some (txn_id, consent_id))
      (claimed : lookup h claims ≡ some claim) where
    -- The consent of a handle, and what an artifact under its id makes of it.
    pub book_of-known :
        book_of handles claims artifacts h
        ≡ some (record {
          txn_id = txn_id;
          consent_id = consent_id;
          claims = claim;
          ready = contains consent_id artifacts;
        })
    book_of-known = rw (known, claimed)

    pub book_of-artifact :
        book_of handles claims (insert consent_id artifact artifacts) h
        ≡ some (record { txn_id = txn_id; consent_id = consent_id; claims = claim; ready = true })
    book_of-artifact =
        rw (known, claimed)
          (entry-some (insert consent_id artifact artifacts) txn_id claim consent_id true
            (contains-insert_self consent_id artifact artifacts))

    pub AgreeBut-artifact :
        HasDistinctIds handles
        → AgreeBut h
            (book_of handles claims artifacts)
            (book_of handles claims (insert consent_id artifact artifacts))
    AgreeBut-artifact distinct j ne = elim (Option-cases (lookup j handles)) [
      | inl unknown ↦ rw unknown
      | inr ((u, i), found) ↦
          let differs : consent_id ≢ i =
            λ e. ne (distinct h j txn_id u consent_id known (rw e found)) in
          rw found (
            entry-same artifacts (insert consent_id artifact artifacts) (u, i) (lookup j claims)
              (lookup-insert_ne consent_id i artifact artifacts differs))
    ]

    pub grant-artifact :
        HasDistinctIds handles
        → Step
            (book_of handles claims artifacts)
            (book_of handles claims (insert consent_id artifact artifacts))
    grant-artifact distinct =
        grant h
          (record {
            txn_id = txn_id;
            consent_id = consent_id;
            claims = claim;
            ready = contains consent_id artifacts;
          })
          book_of-known book_of-artifact (AgreeBut-artifact distinct)
