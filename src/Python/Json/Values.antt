-- ===== src/Python/Json/Values.antt =====
-- JSON values, Python's `==` and truth on them, and their reading as an `int` operand.
use fiu_data_governance.Prelude.{
  ℕ, suc, String, Bool, true, false, not, ◌&&◌, Option, none, some, List, [], ◌∷◌, ◌==◌, string_eq,
  nat_eqb, if◌then◌else◌,
}
use fiu_data_governance.Prelude.Int.{ℤ, pos, eqb_ℤ}

mutual
  pub data Json : Type 0 where
    null : Json
    bool : Bool → Json
    num : ℤ → Json
    str : String → Json
    arr : Items → Json
    obj : Fields → Json

  pub data Items : Type 0 where
    nil : Items
    cons : Json → Items → Items

  pub data Fields : Type 0 where
    end : Fields
    field : String → Json → Fields → Fields

-- A list display `[a, b]` and a dict display `{"k": a, "l": b}`.
abbrev pub items : List Json → Items
items [] = nil
items (j ∷ js) = cons j (items js)

abbrev pub fields : List (String × Json) → Fields
fields [] = end
fields ((k, j) ∷ r) = field k j (fields r)

abbrev pub array : List Json → Json
array js = arr (items js)

abbrev pub object : List (String × Json) → Json
object kvs = obj (fields kvs)

abbrev pub elements : Items → List Json
elements nil = []
elements (cons j js) = j ∷ elements js

-- The keys of a dict, which iteration over it yields.
abbrev pub field_keys : Fields → List Json
field_keys end = []
field_keys (field k j fs) = str k ∷ field_keys fs

abbrev pub find_field : String → Fields → Option Json
find_field k end = none
find_field k (field j v fs) = if j == k then some v else find_field k fs

abbrev pub count_fields : Fields → ℕ
count_fields end = 0
count_fields (field k v fs) = suc (count_fields fs)

-- `int(value)` for a number or a Boolean operand: True is 1 and False is 0.
abbrev pub as_int : Json → Option ℤ
as_int (num n) = some n
as_int (bool true) = some (pos 1)
as_int (bool false) = some (pos 0)
as_int _ = none

abbrev eq_operand : Option ℤ → Option ℤ → Bool
eq_operand (some a) (some b) = eqb_ℤ a b
eq_operand _ _ = false

-- `a == b`. Dicts are equal if they hold equal values under the same keys, in any order.
unfoldable mutual
  pub py_eq : Json → Json → Bool
  py_eq null j = elim j [ null ↦ true | _ ↦ false ]
  py_eq (bool b) j = eq_operand (as_int (bool b)) (as_int j)
  py_eq (num n) j = eq_operand (some n) (as_int j)
  py_eq (str s) j = elim j [ str t ↦ s == t | _ ↦ false ]
  py_eq (arr xs) j = elim j [ arr ys ↦ items_eq xs ys | _ ↦ false ]
  py_eq (obj fs) j = elim j [
    | obj gs ↦ nat_eqb (count_fields fs) (count_fields gs) && fields_eq fs gs
    | _ ↦ false
  ]

  pub items_eq : Items → Items → Bool
  items_eq nil nil = true
  items_eq (cons a xs) (cons b ys) = py_eq a b && items_eq xs ys
  items_eq _ _ = false

  pub fields_eq : Fields → Fields → Bool
  fields_eq end gs = true
  fields_eq (field k v fs) gs =
      elim (find_field k gs) [ none ↦ false | some w ↦ py_eq v w ] && fields_eq fs gs

-- `bool(value)`, the test of an `if`.
abbrev pub truthy : Json → Bool
truthy null = false
truthy (bool b) = b
truthy (num n) = not (eqb_ℤ n (pos 0))
truthy (str s) = not (s == "")
truthy (arr nil) = false
truthy (arr (cons j js)) = true
truthy (obj end) = false
truthy (obj (field k v fs)) = true
