-- ===== src/Python/Errors.antt =====
-- Exceptions as values. A pure piece of a handler returns a `Result`.
use fiu_data_governance.Prelude.{ℕ, ◌≡◌, refl, ◌⊎◌, inl, inr, String}
use fiu_data_governance.Python.Json.{Json}

pub data Exn : Type 0 where
  -- raised by Python itself, on the program's values
  key_error : String → Exn
  index_error type_error value_error assertion_error : Exn
  -- json.JSONDecodeError
  decode_error : Exn
  -- requests.ConnectionError and the like: no response came back
  connection_error : Exn
  -- `RequestError(status_code, response_text)`, with its error code and error message
  request_error : ℕ → Json → Json → Exn
  -- jose.JWSError
  signing_error : Exn
  -- `Exception(f"...")`, with the literal part of the message and the values put in
  exception : String → Exn
  bad_status : ℕ → Exn
  mismatch : String → String → Exn
  -- SystemExit, NotImplementedError and OSError
  system_exit : ℕ → Exn
  not_implemented os_error : Exn

pub data Result {ℓ} (A : Type ℓ) : Type ℓ where
  ok : A → Result A
  err : Exn → Result A

infixl 10 ◌>>=◌ ◌>>◌
abbrev pub ◌>>=◌ {ℓ κ} : {A : Type ℓ} {B : Type κ} → Result A → (A → Result B) → Result B
err raised >>= rest = err raised
ok x >>= rest = rest x

abbrev pub ◌>>◌ {ℓ κ} : {A : Type ℓ} {B : Type κ} → Result A → Result B → Result B
m >> k = m >>= λ _. k

abbrev pub map_result {ℓ κ} : {A : Type ℓ} {B : Type κ} → (A → B) → Result A → Result B
map_result f (ok a) = ok (f a)
map_result f (err e) = err e

pub Result-cases {ℓ} :
    {A : Type ℓ} (r : Result A) → ((a : A) × (r ≡ ok a)) ⊎ ((e : Exn) × (r ≡ err e))
Result-cases (ok a) = inl (a, refl)
Result-cases (err e) = inr (e, refl)

pub ok_inj {ℓ} : {A : Type ℓ} {a b : A} → ok a ≡ ok b → a ≡ b
ok_inj h = cc

module _ {ℓ κ} {A : Type ℓ} {B : Type κ} where
  -- If a chain returns, then so does its first step, and the rest of it from there.
  pub >>=-eq-ok :
      (step : Result A) (rest : A → Result B) {out : B}
      → (step >>= rest) ≡ ok out
      → (x : A) × (step ≡ ok x) × (rest x ≡ ok out)
  >>=-eq-ok (err e) rest h = cc
  >>=-eq-ok (ok x) rest h = (x, refl, h)
