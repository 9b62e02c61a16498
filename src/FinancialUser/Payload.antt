-- ===== src/FinancialUser/Payload.antt =====
-- The conversion of fetched financial information into the payload for the clean room
-- (financial-information-user/src/controller.py, convert_fi_data_to_ccr_json).
use mathlib.Core.Path.{subst}
use fiu_data_governance.Prelude.{◌≡◌, refl, sym, List, [], ◌∷◌}
use fiu_data_governance.Python.Errors.{ok, ok_inj, >>=-eq-ok}
use fiu_data_governance.Python.Json.{Json, array}
use fiu_data_governance.Python.Subscript.{index, iterate}
use fiu_data_governance.FinancialUser.Messages.{
  convert_data, convert_item, convert_items, convert_fi_data_to_ccr_json,
}

-- Two lists of one length, related element by element.
abbrev pub AllPairs : (Json → Json → Type 0) → List Json → List Json → Type 0
AllPairs R [] [] = Unit
AllPairs R (x ∷ xs) (y ∷ ys) = R x y × AllPairs R xs ys
AllPairs R _ _ = ⊥

-- One encrypted document.
abbrev pub SameData : Json → Json → Type 0
SameData d c = index c "encryptedData" ≡ index d "encryptedFI"

-- One provider's package: its id, its key material and its encrypted documents.
abbrev pub SamePackage : Json → Json → Type 0
SamePackage item c =
    (held : Json) × (parts converted : List Json) × (index c "id" ≡ index item "fipID")
    × (index c "KeyMaterial" ≡ index item "KeyMaterial")
    × (index item "data" ≡ ok held)
    × (iterate held ≡ ok parts)
    × (index c "data" ≡ ok (array converted))
    × AllPairs SameData parts converted

convert_data-SameData : (ds cs : List Json) → convert_data ds ≡ ok cs → AllPairs SameData ds cs
unfolding convert_data
convert_data-SameData [] [] h = tt
convert_data-SameData [] (c ∷ cs) h = cc
convert_data-SameData (d ∷ ds) cs h =
    let (encrypted, e1, h1) = >>=-eq-ok (index d "encryptedFI") _ h in
    let (rest, e2, h2) = >>=-eq-ok (convert_data ds) _ h1 in
    subst (λ x. AllPairs SameData (d ∷ ds) x) (ok_inj h2) (sym e1, convert_data-SameData ds rest e2)

convert_item-SamePackage : (item c : Json) → convert_item item ≡ ok c → SamePackage item c
unfolding convert_item
convert_item-SamePackage item c h =
    let (id, e1, h1) = >>=-eq-ok (index item "fipID") _ h in
    let (material, e2, h2) = >>=-eq-ok (index item "KeyMaterial") _ h1 in
    let (held, e3, h3) = >>=-eq-ok (index item "data") _ h2 in
    let (parts, e4, h4) = >>=-eq-ok (iterate held) _ h3 in
    let (converted, e5, h5) = >>=-eq-ok (convert_data parts) _ h4 in
    subst (SamePackage item) (ok_inj h5) (
      held,
      parts,
      converted,
      sym e1,
      sym e2,
      e3,
      e4,
      refl,
      convert_data-SameData parts converted e5,
    )

convert_items-SamePackage :
    (js cs : List Json) → convert_items js ≡ ok cs → AllPairs SamePackage js cs
unfolding convert_items
convert_items-SamePackage [] [] h = tt
convert_items-SamePackage [] (c ∷ cs) h = cc
convert_items-SamePackage (j ∷ js) cs h =
    let (converted, e1, h1) = >>=-eq-ok (convert_item j) _ h in
    let (rest, e2, h2) = >>=-eq-ok (convert_items js) _ h1 in
    subst (λ x. AllPairs SamePackage (j ∷ js) x) (ok_inj h2)
      (convert_item-SamePackage j converted e1, convert_items-SamePackage js rest e2)

-- If the conversion succeeds, its result is a list of as many packages as there are, in their order,
-- each with the provider's id, its key material and its encrypted documents, all of them and in
-- their order.
pub convert_fi_data_to_ccr_json-SamePackage :
    (fi payload : Json)
    → convert_fi_data_to_ccr_json fi ≡ ok payload
    → (js cs : List Json) × (iterate fi ≡ ok js) × (payload ≡ array cs) × AllPairs SamePackage js cs
unfolding convert_fi_data_to_ccr_json
convert_fi_data_to_ccr_json-SamePackage fi payload h =
    let (js, e1, h1) = >>=-eq-ok (iterate fi) _ h in
    let (cs, e2, h2) = >>=-eq-ok (convert_items js) _ h1 in
    (js, cs, e1, sym (ok_inj h2), convert_items-SamePackage js cs e2)
