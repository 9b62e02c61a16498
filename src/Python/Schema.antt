-- ===== src/Python/Schema.antt =====
-- Types of JSON values: what a service that reads a value without checking it expects of it.
use fiu_data_governance.Prelude.{◌≡◌, String, some, List, ◌∷◌, All}
use fiu_data_governance.Prelude.Int.{ℤ}
use fiu_data_governance.Python.Errors.{ok}
use fiu_data_governance.Python.Json.{Json, str, array, as_int}
use fiu_data_governance.Python.Subscript.{index, int_of}

mutual
  pub data Schema : Type 0 where
    any string : Schema
    -- an operand of `+`, and an argument of `int`
    whole readable : Schema
    -- a list with at least one element
    filled : Schema → Schema
    dict : Entries → Schema

  pub data Entries : Type 0 where
    no_more : Entries
    entry : String → Schema → Entries → Entries

unfoldable mutual
  pub HasType : Schema → Json → Type 0
  HasType any j = Unit
  HasType string j = (s : String) × (j ≡ str s)
  HasType whole j = (n : ℤ) × (as_int j ≡ some n)
  HasType readable j = (n : ℤ) × (int_of j ≡ ok n)
  HasType (filled σ) j =
      (first : Json) × (rest : List Json) × (j ≡ array (first ∷ rest))
      × HasType σ first
      × All (HasType σ) rest
  HasType (dict es) j = HasEntries es j

  -- Other entries may be there too.
  pub HasEntries : Entries → Json → Type 0
  HasEntries no_more j = Unit
  HasEntries (entry k σ es) j = ((v : Json) × (index j k ≡ ok v) × HasType σ v) × HasEntries es j
