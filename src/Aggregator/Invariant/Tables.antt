-- ===== src/Aggregator/Invariant/Tables.antt =====
-- What the consent tables of the account aggregator say of one another, and that each update of a
-- table keeps it.
use mathlib.Core.Path.{subst₂}
use fiu_data_governance.Prelude.{
  ◌≡◌, ◌⊎◌, inl, inr, String, none, some, List, [], ◌∷◌, ◌++◌, All, arith, string_eq,
}
use fiu_data_governance.Prelude.Dict.{Dict, lookup, insert, lookup-insert, lookup-insert-cases}
use fiu_data_governance.Python.Errors.{Result, ok}
use fiu_data_governance.Python.Json.{Json}
use fiu_data_governance.Aggregator.{Task, create_artifact, request_fi}
use fiu_data_governance.Aggregator.Messages.{consent_artifact}

abbrev pub Handles : Type 0
Handles = Dict String (Json × String)

-- Every entry of the first table is in the second.
abbrev pub Extends {ℓ} : {V : Type ℓ} → Dict String V → Dict String V → Type ℓ
Extends {V} d e = (k : String) (v : V) → lookup k d ≡ some v → lookup k e ≡ some v

Extends-insert {ℓ} :
    {V : Type ℓ} (k : String) (v : V) (d : Dict String V)
    → lookup k d ≡ none
    → Extends d (insert k v d)
Extends-insert k v d fresh j w h = ground (arith, lookup-insert k j v d, string_eq.beq_iff k j)

-- A task that creates an artifact has its handle and the claims for it in the tables.
abbrev pub IsReady : Handles → Dict String Json → Task → Type 0
IsReady handles claims (create_artifact h request) =
    (entry : Json × String) × (claim : Json) × (lookup h handles ≡ some entry)
    × (lookup h claims ≡ some claim)
IsReady handles claims (request_fi session_id request) = Unit

module _ (sign : Json → Result String) where
  -- The artifact under a consent id is active and belongs to a handle of that consent id: it has the
  -- transaction id of the handle, and its signature is that of the claims for the handle.
  abbrev pub IsSigned : Handles → Dict String Json → String → Json → Type 0
  IsSigned handles claims consent_id artifact =
      (h : String) × (txn_id claim : Json) × (signature created used : String) × (lookup h handles
        ≡ some (txn_id, consent_id))
      × (lookup h claims ≡ some claim)
      × (sign claim ≡ ok signature)
      × (artifact ≡ consent_artifact txn_id consent_id created signature used)

  pub record IsConsistent (handles : Handles) (claims artifacts : Dict String Json)
      (tasks : List Task) : Type 0 where
    pub claims_handled : (h : String) → lookup h handles ≡ none → lookup h claims ≡ none
    pub tasks_ready : All (IsReady handles claims) tasks
    pub artifacts_signed :
        (consent_id : String) (artifact : Json)
        → lookup consent_id artifacts ≡ some artifact
        → IsSigned handles claims consent_id artifact

module _ (handles handles' : Handles) (claims claims' : Dict String Json)
    (eh : Extends handles handles') (ec : Extends claims claims') where
  IsReady-extends : (t : Task) → IsReady handles claims t → IsReady handles' claims' t
  IsReady-extends (create_artifact h request) (entry, claim, p, q) =
      (entry, claim, eh h entry p, ec h claim q)
  IsReady-extends (request_fi session_id request) r = tt

  tasks-extends :
      (ts : List Task) → All (IsReady handles claims) ts → All (IsReady handles' claims') ts
  tasks-extends [] r = tt
  tasks-extends (t ∷ ts) (r, rs) = (IsReady-extends t r, tasks-extends ts rs)

  IsSigned-extends :
      (sign : Json → Result String) (consent_id : String) (artifact : Json)
      → IsSigned sign handles claims consent_id artifact
      → IsSigned sign handles' claims' consent_id artifact
  IsSigned-extends sign consent_id artifact (h, txn_id, claim, sg, cr, us, p, q, r, e) =
      (h, txn_id, claim, sg, cr, us, eh h (txn_id, consent_id) p, ec h claim q, r, e)

All-append {ℓ κ} :
    {A : Type ℓ} (P : A → Type κ) (xs : List A) (y : A) → All P xs → P y → All P (xs ++ y ∷ [])
All-append P [] y h p = (p, tt)
All-append P (x ∷ xs) y (q, h) p = (q, All-append P xs y h p)

module _ (sign : Json → Result String) {handles : Handles} {claims artifacts : Dict String Json}
    {tasks : List Task} (c : IsConsistent sign handles claims artifacts tasks) where
  -- A new handle.
  pub IsConsistent-handle :
      (h : String) (entry : Json × String)
      → lookup h handles ≡ none
      → IsConsistent sign (insert h entry handles) claims artifacts tasks
  IsConsistent-handle h entry fresh =
      let grows = Extends-insert h entry handles fresh in
      record {
        claims_handled = λ j p. c.claims_handled j ground (arith, lookup-insert h j entry handles);
        tasks_ready =
            tasks-extends handles (insert h entry handles) claims claims grows (λ k v e. e) tasks
              c.tasks_ready;
        artifacts_signed = λ i a p.
            IsSigned-extends handles (insert h entry handles) claims claims grows (λ k v e. e) sign
              i a (c.artifacts_signed i a p);
      }

  -- The first claims for a known handle.
  pub IsConsistent-claims :
      (h : String) (entry : Json × String) (claim : Json)
      → lookup h handles ≡ some entry
      → lookup h claims ≡ none
      → IsConsistent sign handles (insert h claim claims) artifacts tasks
  IsConsistent-claims h entry claim known fresh =
      let grows = Extends-insert h claim claims fresh in
      record {
        claims_handled = λ j p.
            ground
              (arith, lookup-insert h j claim claims, c.claims_handled j p, string_eq.beq_iff h j);
        tasks_ready =
            tasks-extends handles handles claims (insert h claim claims) (λ k v e. e) grows tasks
              c.tasks_ready;
        artifacts_signed = λ i a p.
            IsSigned-extends handles handles claims (insert h claim claims) (λ k v e. e) grows sign
              i a (c.artifacts_signed i a p);
      }

  artifact_at :
      (consent_id : String) (artifact : Json)
      → IsSigned sign handles claims consent_id artifact
      → (i : String) (a : Json)
      → ((consent_id ≡ i) × (artifact ≡ a)) ⊎ (lookup i artifacts ≡ some a)
      → IsSigned sign handles claims i a
  artifact_at consent_id artifact signed i a (inl (p, q)) =
      subst₂ (IsSigned sign handles claims) p q signed
  artifact_at consent_id artifact signed i a (inr old) = c.artifacts_signed i a old

  -- An artifact for a known handle with claims that have been signed.
  pub IsConsistent-artifact :
      (consent_id : String) (artifact : Json)
      → IsSigned sign handles claims consent_id artifact
      → IsConsistent sign handles claims (insert consent_id artifact artifacts) tasks
  IsConsistent-artifact consent_id artifact signed = record {
    claims_handled = c.claims_handled;
    tasks_ready = c.tasks_ready;
    artifacts_signed = λ i a p.
        artifact_at consent_id artifact signed i a
          (lookup-insert-cases consent_id i artifact a artifacts p);
  }

  -- A task that is ready.
  pub IsConsistent-task :
      (t : Task)
      → IsReady handles claims t
      → IsConsistent sign handles claims artifacts (tasks ++ t ∷ [])
  IsConsistent-task t r = record {
    claims_handled = c.claims_handled;
    tasks_ready = All-append (IsReady handles claims) tasks t c.tasks_ready r;
    artifacts_signed = c.artifacts_signed;
  }
