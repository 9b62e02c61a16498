-- ===== src/Generator/Typed.antt =====
-- Generated statements (generate_savings_transactions.py) have the type that the services expect.
use fiu_data_governance.Prelude.{ℕ, refl, String, List, [], ◌∷◌, ◌++◌, All}
use fiu_data_governance.Prelude.Int.{ℤ}
use fiu_data_governance.Python.Json.{Json, array}
use fiu_data_governance.Python.Schema.{HasType, HasEntries, filled}
use fiu_data_governance.Analysis.Typed.{transaction_type, statements_type}
use fiu_data_governance.Generator.{
  Draw, Progress, opening, entry, add_draw, add_draws, generate, balance_after, date_after,
}

abbrev AreTyped : List Json → Type 0
AreTyped = All (HasType transaction_type)

AreTyped-append :
    (js : List Json) (j : Json)
    → AreTyped js
    → HasType transaction_type j
    → AreTyped (js ++ j ∷ []) × HasType (filled transaction_type) (array (js ++ j ∷ []))
unfolding HasType
AreTyped-append [] j hs h = ((h, tt), (j, [], refl, h, tt))
AreTyped-append (k ∷ js) j (h', hs) h =
    let (all, _) = AreTyped-append js j hs h in ((h', all), (k, js ++ j ∷ [], refl, h', all))

module _ (date_text : ℕ → String) (datetime_text : ℕ → ℕ → ℕ → ℕ → ℕ → String) where
  entry-HasType :
      (date : ℕ) (balance : ℤ) (d : Draw)
      → HasType transaction_type (entry date_text datetime_text date balance d)
  unfolding HasType HasEntries
  entry-HasType date balance d = (
    (_, refl, (date_text date, refl)),
    ((_, refl, tt), ((_, refl, (_, refl)), ((_, refl, (_, refl)), tt))),
  )

  added-HasType :
      (p : Progress) (d : Draw)
      → AreTyped p.entries
      → let entries = (add_draw date_text datetime_text p d).entries in
        AreTyped entries × HasType (filled transaction_type) (array entries)
  added-HasType p d h =
      AreTyped-append p.entries _ h
        (entry-HasType (date_after p.i p.date) (balance_after p.curr_balance d) d)

  add_draws-HasType :
      (p : Progress) (d : Draw) (ds : List Draw)
      → AreTyped p.entries
      → HasType
          (filled transaction_type)
          (array (add_draws date_text datetime_text p (d ∷ ds)).entries)
  unfolding add_draws
  add_draws-HasType p d [] h = (added-HasType p d h).1
  add_draws-HasType p d (e ∷ es) h =
      add_draws-HasType (add_draw date_text datetime_text p d) e es (added-HasType p d h).0

  pub generate-HasType :
      (d : Draw) (ds : List Draw)
      → HasType (statements_type transaction_type) (generate date_text datetime_text (d ∷ ds))
  unfolding generate HasType HasEntries
  generate-HasType d ds = (
    (_, refl, ((_, refl, (_, refl)), tt)),
    ((_, refl, ((_, refl, add_draws-HasType opening d ds tt), tt)), tt),
  )
