-- ===== src/Aggregator/Contract.antt =====
-- What the account aggregator promises of consents, without handles, claims and artifacts in tables of
-- their own (account-aggregator/src/controller.py): a book that maps a handle to its consent, with two
-- kinds of steps, and in Ledger what each event does to it.
pub mod Writes
pub mod Writers
pub mod Answers
pub mod Ledger
mod Entries
mod Signing
pub mod Refines
pub mod Forever
use fiu_data_governance.Prelude.{◌≡◌, ◌≢◌, String, Bool, true, false, Option, none, some, string_eq}
use fiu_data_governance.Prelude.Dict.{Dict, lookup, contains}
use fiu_data_governance.Python.Json.{Json}
use fiu_data_governance.Aggregator.{Aggregator}

pub record Consented : Type 0 where
  pub txn_id : Json
  pub consent_id : String
  pub claims : Json
  pub ready : Bool

abbrev pub Book : Type 0
Book = String → Option Consented

-- Two books that agree but at one handle.
abbrev pub AgreeBut : String → Book → Book → Type 0
AgreeBut h b b' = (j : String) → h ≢ j → b' j ≡ b j

pub data Step (b b' : Book) : Type 0 where
  stay : ((h : String) → b' h ≡ b h) → Step b b'
  -- a consent under a new handle, which is pending
  submit :
      (h : String) (c : Consented)
      → b h ≡ none
      → b' h ≡ some (record c { ready = false })
      → AgreeBut h b b'
      → Step b b'
  -- a consent becomes ready, and is otherwise as it was
  grant :
      (h : String) (c : Consented)
      → b h ≡ some c
      → b' h ≡ some (record c { ready = true })
      → AgreeBut h b b'
      → Step b b'

pub data Steps (b : Book) : Book → Type 0 where
  done : Steps b b
  after : {b' b'' : Book} → Steps b b' → Step b' b'' → Steps b b''

abbrev pub entry : Dict String Json → Option (Json × String) → Option Json → Option Consented
entry artifacts none claims = none
entry artifacts (some (txn_id, consent_id)) none = none
entry artifacts (some (txn_id, consent_id)) (some claims) = some (record {
  txn_id = txn_id;
  consent_id = consent_id;
  claims = claims;
  ready = contains consent_id artifacts;
})

abbrev pub book_of : Dict String (Json × String) → Dict String Json → Dict String Json → Book
book_of handles claims artifacts h = entry artifacts (lookup h handles) (lookup h claims)

-- The book of the service.
abbrev pub book : Aggregator → Book
book s = book_of s.consent_handles s.consent_claims s.consent_artifacts

-- No two handles share a consent id.
abbrev pub HasDistinctIds : Dict String (Json × String) → Type 0
HasDistinctIds handles =
    (h j : String) (t u : Json) (consent_id : String)
    → lookup h handles ≡ some (t, consent_id)
    → lookup j handles ≡ some (u, consent_id)
    → h ≡ j

-- An id that no handle has.
abbrev pub IsUnused : String → Dict String (Json × String) → Type 0
IsUnused consent_id handles = (h : String) (t : Json) → lookup h handles ≢ some (t, consent_id)
