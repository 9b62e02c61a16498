-- ===== src/Generator/Balance.antt =====
-- The running balance of the generated statements (generate_savings_transactions.py).
use fiu_data_governance.Prelude.{
  ℕ, ◌≡◌, ◌∙◌, refl, sym, ap, String, List, [], ◌∷◌, ◌==◌, string_eq, if◌then◌else◌, Bool, true,
  false,
}
use fiu_data_governance.Prelude.Int.{ℤ, pos, ◌+ℤ◌, ◌-ℤ◌, int_laws, +ℤ_assoc, +ℤ-zero}
use fiu_data_governance.Analysis.Spec.{sum_of}
use fiu_data_governance.Generator.{Draw, Progress, add_draw, add_draws}

-- The amount with its sign.
abbrev pub change : Draw → ℤ
change d = if d.txn == "CREDIT" then pos d.amount else pos 0 -ℤ pos d.amount

minus-plus : (a b : ℤ) → a -ℤ b ≡ a +ℤ (pos 0 -ℤ b)
minus-plus a b = omega int_laws

changed_by :
    (b : Bool) (a n : ℤ) → (if b then a +ℤ n else a -ℤ n) ≡ a +ℤ (if b then n else pos 0 -ℤ n)
changed_by true a n = refl
changed_by false a n = minus-plus a n

module _ (date_text : ℕ → String) (datetime_text : ℕ → ℕ → ℕ → ℕ → ℕ → String) where
  -- The balance after the loop is that before it, plus the credits and minus the debits.
  pub balance-add_draws :
      (p : Progress) (ds : List Draw)
      → (add_draws date_text datetime_text p ds).curr_balance ≡ p.curr_balance +ℤ sum_of change ds
  unfolding add_draws
  balance-add_draws p [] = sym (+ℤ-zero p.curr_balance)
  balance-add_draws p (d ∷ ds) =
      balance-add_draws (add_draw date_text datetime_text p d) ds
      ∙ ap (λ b. b +ℤ sum_of change ds)
          (changed_by (d.txn == "CREDIT") p.curr_balance (pos d.amount))
      ∙ +ℤ_assoc p.curr_balance (change d) (sum_of change ds)
