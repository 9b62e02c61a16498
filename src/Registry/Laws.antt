-- ===== src/Registry/Laws.antt =====
-- The certificate that the registry hands out (certificate-registry controller.py).
use fiu_data_governance.Prelude.{ℕ, zero, suc, ◌≡◌, refl, ap, List, [], ◌∷◌, String}
use mathlib.Core.Path.{subst}
use fiu_data_governance.Host.{Host, Sys, ◌>>=◌}
use fiu_data_governance.Python.Errors.{ok}
use fiu_data_governance.Python.Json.{Json}
use fiu_data_governance.Python.Subscript.{index, first}
use fiu_data_governance.Registry.{
  Registry, entity_response, store_certificate, handle_aa_entity_info_request,
}

-- The certificate that is current after a list of stores.
abbrev pub last_certificate : Json → List Json → Json
last_certificate c [] = c
last_certificate c (d ∷ ds) = last_certificate d ds

module _ {W : Type 0} (host : Host W) where
  -- The state after a list of requests to store a certificate.
  unfoldable pub store_all : List Json → Sys Registry W → Sys Registry W
  unfolding store_certificate ◌>>=◌
  store_all [] s = s
  store_all (c ∷ cs) s = store_all cs (store_certificate host c s).1

  certificate-store_all :
      (cs : List Json) (s : Sys Registry W)
      → (store_all cs s).self.certificate ≡ last_certificate s.self.certificate cs
  unfolding store_all
  certificate-store_all [] s = refl
  certificate-store_all (c ∷ cs) s = certificate-store_all cs (store_certificate host c s).1

  -- After any requests to store certificates the entity information succeeds and holds the
  -- certificate of the last of them, or the one that was there before if there was none, and asking
  -- for it leaves the stored certificate as it is.
  pub entity_info-store_all :
      (cs : List Json) (s : Sys Registry W)
      → (timestamp txn_id : String) × ((handle_aa_entity_info_request host (store_all cs s)).0
          ≡ ok (entity_response timestamp txn_id (last_certificate s.self.certificate cs)))
        × ((handle_aa_entity_info_request host (store_all cs s)).1.self.certificate
            ≡ last_certificate s.self.certificate cs)
  unfolding handle_aa_entity_info_request ◌>>=◌
  entity_info-store_all cs s =
      let (t, w) = host.now (store_all cs s).world in
      let (u, w') = host.uuid4 w in
      let same = certificate-store_all cs s in
      (t, u, ap (λ c. ok (entity_response t u c)) same, same)

  -- The state after a number of requests for the entity information.
  unfoldable pub asked_times : ℕ → Sys Registry W → Sys Registry W
  unfolding handle_aa_entity_info_request ◌>>=◌
  asked_times zero s = s
  asked_times (suc n) s = asked_times n (handle_aa_entity_info_request host s).1

  -- The answer to a request for the entity information has the certificate where its readers look.
  abbrev pub HandsOut : Json → Sys Registry W → Type 0
  HandsOut certificate s =
      (answer element info : Json) × ((handle_aa_entity_info_request host s).0 ≡ ok answer)
      × (first answer ≡ ok element)
      × (index element "entityinfo" ≡ ok info)
      × (index info "certificate" ≡ ok certificate)

  certificate-asked_times :
      (n : ℕ) (s : Sys Registry W) → (asked_times n s).self.certificate ≡ s.self.certificate
  unfolding asked_times
  certificate-asked_times zero s = refl
  certificate-asked_times (suc n) s =
      certificate-asked_times n (handle_aa_entity_info_request host s).1

  HandsOut-self : (s : Sys Registry W) → HandsOut s.self.certificate s
  unfolding handle_aa_entity_info_request ◌>>=◌
  HandsOut-self s = (_, _, _, refl, refl, refl, refl)

  pub HandsOut-asked_times :
      (n : ℕ) (s : Sys Registry W) → HandsOut s.self.certificate (asked_times n s)
  HandsOut-asked_times n s =
      subst (λ c. HandsOut c (asked_times n s)) (certificate-asked_times n s)
        (HandsOut-self (asked_times n s))
