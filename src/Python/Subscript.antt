-- ===== src/Python/Subscript.antt =====
-- Subscripts, key lookups, iteration and arithmetic on JSON values, with the exceptions that
-- Python raises.
use fiu_data_governance.Prelude.{
  ◌≡◌, refl, String, Option, none, some, List, [], ◌∷◌, ◌==◌, string_eq, beq_refl, arith,
  if◌then◌else◌,
}
use fiu_data_governance.Prelude.Int.{ℤ, ◌+ℤ◌}
use fiu_data_governance.Python.Errors.{Result, ok, err, Exn}
use fiu_data_governance.Python.Json.{
  Json, Items, Fields, str, arr, obj, nil, cons, end, field, elements, field_keys, find_field,
  as_int,
}
use fiu_data_governance.Python.Text.{characters, parse_int}

abbrev pub or_raise {ℓ} : {A : Type ℓ} → Option A → Exn → Result A
or_raise none e = err e
or_raise (some a) e = ok a

-- `value["key"]`: only a dict has text keys.
abbrev pub index : Json → String → Result Json
index (obj fs) k = or_raise (find_field k fs) (Exn.key_error k)
index _ k = err Exn.type_error

abbrev first_of_items : Items → Result Json
first_of_items nil = err Exn.index_error
first_of_items (cons j js) = ok j

abbrev first_of_texts : List String → Result Json
first_of_texts [] = err Exn.index_error
first_of_texts (s ∷ ss) = ok (str s)

-- `value[0]`: a dict that came from JSON has no number among its keys.
abbrev pub first : Json → Result Json
first (arr js) = first_of_items js
first (str s) = first_of_texts (characters s)
first (obj fs) = err (Exn.key_error "0")
first _ = err Exn.type_error

abbrev texts : List String → List Json
texts [] = []
texts (s ∷ ss) = str s ∷ texts ss

-- What `for x in value` goes through.
abbrev pub iterate : Json → Result (List Json)
iterate (arr js) = ok (elements js)
iterate (obj fs) = ok (field_keys fs)
iterate (str s) = ok (texts (characters s))
iterate _ = err Exn.type_error

abbrev pub put_field : String → Json → Fields → Fields
put_field k v end = field k v end
put_field k v (field j w fs) = if j == k then field j v fs else field j w (put_field k v fs)

-- `value["key"] = v`, as the value after it.
abbrev pub put_item : Json → String → Json → Result Json
put_item (obj fs) k v = ok (obj (put_field k v fs))
put_item _ k v = err Exn.type_error

-- `n + value` for a running total `n`.
abbrev pub add_to : ℤ → Json → Result ℤ
add_to n j = elim (as_int j) [ none ↦ err Exn.type_error | some m ↦ ok (n +ℤ m) ]

-- `int(value)`
abbrev pub int_of : Json → Result ℤ
int_of (str s) = or_raise (parse_int s) Exn.value_error
int_of j = or_raise (as_int j) Exn.type_error

-- A text operand, as in `"..." + value`.
abbrev pub text_of : Json → Result String
text_of (str s) = ok s
text_of _ = err Exn.type_error

-- A field that was written is read back; the others keep their values.
pub find-put :
    (k j : String) (v : Json) (fs : Fields)
    → find_field j (put_field k v fs) ≡ (if k == j then some v else find_field j fs)
find-put k j v end = refl
find-put k j v (field i w fs) =
    ground (
      arith,
      string_eq.beq_iff k j,
      string_eq.beq_iff i k,
      string_eq.beq_iff i j,
      find-put k j v fs,
    )

pub find-put_self : (k : String) (v : Json) (fs : Fields) → find_field k (put_field k v fs) ≡ some v
find-put_self k v fs = ground (arith, find-put k k v fs, beq_refl ⦃e = string_eq⦄ k)
