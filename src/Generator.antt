-- ===== src/Generator.antt =====
-- The generator of sample statements, samples/aa-flow-based-lending/generate_savings_transactions.py.
-- What `random` draws for a transaction is a `Draw`; the texts of dates are parameters. The file is
-- the document that `generate` returns, printed.
pub mod Balance
pub mod Scored
pub mod Typed
use fiu_data_governance.Prelude.{
  ℕ, suc, ◌+◌, ◌%◌, String, Bool, ◌&&◌, ltb, nat_eqb, List, [], ◌∷◌, ◌++◌, ◌==◌, string_eq,
  if◌then◌else◌,
}
use fiu_data_governance.Prelude.Int.{ℤ, pos, ◌+ℤ◌, ◌-ℤ◌}
use fiu_data_governance.Python.Json.{Json, str, num, object, array}

pub record Draw : Type 0 where
  pub amount : ℕ
  pub txn : String
  pub mode : String
  pub hour : ℕ
  pub minute : ℕ
  pub second : ℕ
  pub microsecond : ℕ
  pub txn_id : ℕ
  pub narration : String
  pub reference : ℕ

-- The variables of the loop.
pub record Progress : Type 0 where
  pub i : ℕ
  pub date : ℕ
  pub curr_balance : ℤ
  pub entries : List Json

abbrev pub opening : Progress
opening = record { i = 0; date = 1; curr_balance = pos 500000; entries = [] }

abbrev holder : Json
holder = object (
    ("name", str "John Doe")
    ∷ ("dob", str "1989-10-16")
    ∷ ("mobile", str "9876543210")
    ∷ ("nominee", str "REGISTERED")
    ∷ ("landline", str "0117654321")
    ∷ ("address", str "Mi Casa, New Delhi, India")
    ∷ ("email", str "john@doe.com")
    ∷ ("pan", str "AGHDS9898T")
    ∷ ("ckycConpliance", str "true")
    ∷ [])

abbrev pending : String → String → Json
pending kind amount = object (("transactionType", str kind) ∷ ("amount", str amount) ∷ [])

abbrev summary : ℤ → Json
summary balance = object (
    ("currentBalance", num balance)
    ∷ ("currency", str "INR")
    ∷ ("exchangeRate", str "1")
    ∷ ("balanceDataTime", str "2021-03-11T11:39:57.153Z")
    ∷ ("type", str "SAVINGS")
    ∷ ("branch", str "Hauz Khas")
    ∷ ("facility", str "OD")
    ∷ ("ifscCode", str "SBIN00001")
    ∷ ("micrCode", str "SBIN00002")
    ∷ ("openingDate", str "2001-10-16")
    ∷ ("currentODLimit", str "1024")
    ∷ ("drawingLimit", str "4096")
    ∷ ("status", str "active")
    ∷ ("Pending", array (pending "CREDIT" "25000" ∷ pending "DEBIT" "10000" ∷ []))
    ∷ [])

-- `data`, with the balance and the transactions that it has at the end.
abbrev pub document : ℤ → List Json → Json
document balance entries = object (
    ("type", str "SAVINGS")
    ∷ ("maskedAccNumber", str "********1234")
    ∷ ("version", str "1.1.2")
    ∷ ("linkedAccRef", str "ref74343876876513")
    ∷ (
      "Profile",
      object (
          ("Holders", object (("type", str "single") ∷ ("Holder", array (holder ∷ [])) ∷ [])) ∷ []),
    )
    ∷ ("Summary", summary balance)
    ∷ (
      "Transactions",
      object (
          ("startDate", str "2021-01-01")
          ∷ ("endData", str "2021-01-31")
          ∷ ("Transaction", array entries)
          ∷ []),
    )
    ∷ [])

abbrev pub balance_after : ℤ → Draw → ℤ
balance_after balance d =
    if d.txn == "CREDIT" then balance +ℤ pos d.amount else balance -ℤ pos d.amount

abbrev pub date_after : ℕ → ℕ → ℕ
date_after i date = if ltb 0 i && nat_eqb (i % 4) 0 then date + 1 else date

-- str(datetime.date(2021, 1, date)), and str(datetime.datetime(2021, 1, date, ...))
module _ (date_text : ℕ → String) (datetime_text : ℕ → ℕ → ℕ → ℕ → ℕ → String) where
  abbrev pub entry : ℕ → ℤ → Draw → Json
  entry date balance d = object (
      ("type", str d.txn)
      ∷ ("mode", str d.mode)
      ∷ ("amount", num (pos d.amount))
      ∷ ("currentBalance", num balance)
      ∷ ("transactionTimestamp", str (datetime_text date d.hour d.minute d.second d.microsecond))
      ∷ ("valueDate", str (date_text date))
      ∷ ("txnID", num (pos d.txn_id))
      ∷ ("narration", str d.narration)
      ∷ ("reference", num (pos d.reference))
      ∷ [])

  -- The body of the loop.
  abbrev pub add_draw : Progress → Draw → Progress
  add_draw p d =
      let balance = balance_after p.curr_balance d in
      let date = date_after p.i p.date in
      record {
        i = suc p.i;
        date = date;
        curr_balance = balance;
        entries = p.entries ++ entry date balance d ∷ [];
      }

  unfoldable pub add_draws : Progress → List Draw → Progress
  add_draws p [] = p
  add_draws p (d ∷ ds) = add_draws (add_draw p d) ds

  unfoldable pub generate : List Draw → Json
  generate ds = let p = add_draws opening ds in document p.curr_balance p.entries
