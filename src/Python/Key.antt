-- ===== src/Python/Key.antt =====
-- JSON values as keys of a dict: None, numbers (True and False are 1 and 0) and texts can be hashed,
-- lists and dicts cannot.
use fiu_data_governance.Prelude.{
  ◌≡◌, refl, ap, ◌↔◌, String, Bool, true, false, ◌==◌, string_eq, Eq, arith,
}
use fiu_data_governance.Prelude.Int.{ℤ, pos, eqb_ℤ, eq_of_parts}
use fiu_data_governance.Python.Errors.{Exn, Result, ok, err}
use fiu_data_governance.Python.Json.{Json, null, bool, num, str}

pub data Key : Type 0 where
  none_key : Key
  number : ℤ → Key
  text : String → Key

abbrev pub key_eqb : Key → Key → Bool
key_eqb none_key none_key = true
key_eqb (number a) (number b) = eqb_ℤ a b
key_eqb (text s) (text t) = s == t
key_eqb _ _ = false

eqb_ℤ_iff : (a b : ℤ) → (eqb_ℤ a b ≡ true) ↔ (a ≡ b)
eqb_ℤ_iff a b = (λ h. eq_of_parts a b (ground arith), λ e. ground arith)

number_of : Key → ℤ
number_of (number n) = n
number_of _ = pos 0

text_in : Key → String
text_in (text s) = s
text_in _ = ""

pub key_eqb_iff : (a b : Key) → (key_eqb a b ≡ true) ↔ (a ≡ b)
unfolding number_of text_in
key_eqb_iff none_key none_key = (λ h. refl, λ e. refl)
key_eqb_iff none_key (number b) = (λ h. cc, λ e. cc)
key_eqb_iff none_key (text t) = (λ h. cc, λ e. cc)
key_eqb_iff (number a) none_key = (λ h. cc, λ e. cc)
key_eqb_iff (number a) (number b) =
    (λ h. ap number ((eqb_ℤ_iff a b).0 h), λ e. (eqb_ℤ_iff a b).1 (ap number_of e))
key_eqb_iff (number a) (text t) = (λ h. cc, λ e. cc)
key_eqb_iff (text s) none_key = (λ h. cc, λ e. cc)
key_eqb_iff (text s) (number b) = (λ h. cc, λ e. cc)
key_eqb_iff (text s) (text t) =
    (λ h. ap text ((string_eq.beq_iff s t).0 h), λ e. (string_eq.beq_iff s t).1 (ap text_in e))

instance abbrev pub key_eq : Eq Key
key_eq = record { beq = key_eqb; beq_iff = key_eqb_iff }

-- `hash(value)`, up to the collisions that a dict resolves by `==`
abbrev pub key_of : Json → Result Key
key_of null = ok none_key
key_of (bool true) = ok (number (pos 1))
key_of (bool false) = ok (number (pos 0))
key_of (num n) = ok (number n)
key_of (str s) = ok (text s)
key_of _ = err Exn.type_error
