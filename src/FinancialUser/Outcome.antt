-- ===== src/FinancialUser/Outcome.antt =====
-- When the financial information user is done with a notification of information
-- (financial-information-user/src/controller.py, handle_fi_notification).
use fiu_data_governance.Prelude.{◌≡◌, ◌↔◌, ◌∙◌, ap, String, nat_eqb, inl, inr, Bool-cases, nat_eq}
use fiu_data_governance.Host.{Host, Sys, lift, raise, >>=-returns, ◌>>=◌}
use fiu_data_governance.Host.Effects.{gets-returns}
use fiu_data_governance.Python.Errors.{ok}
use fiu_data_governance.Python.Json.{Json}
use fiu_data_governance.Python.Subscript.{index}
use fiu_data_governance.FinancialUser.{FinancialUser}
use fiu_data_governance.FinancialUser.Client.{post_json_request}
use fiu_data_governance.FinancialUser.Handlers.{prepare_process_request, handle_fi_notification}

module _ {W : Type 0} (host : Host W) where
  -- The request to the clean room could be prepared, and the clean room answered it, at the configured
  -- URL, with status 200 and a score.
  abbrev pub IsScored : Json → Sys FinancialUser W → Type 0
  IsScored request s =
      let (prepared, t) = prepare_process_request host request s in
      (body result score : Json) × (answer : String) × (prepared ≡ ok body)
      × ((post_json_request host t.self.url_bre "api/ccr/process" body t).0 ≡ ok (200, answer))
      × (host.loads answer ≡ ok result)
      × (index result "score" ≡ ok score)

  returns-IsScored :
      (request : Json) (s : Sys FinancialUser W)
      → (handle_fi_notification host request s).0 ≡ ok tt
      → IsScored request s
  unfolding handle_fi_notification lift raise
  returns-IsScored request s h =
      let t = (prepare_process_request host request s).1 in
      let (body, e1, h1) = >>=-returns (prepare_process_request host request) _ s h in
      let post = post_json_request host t.self.url_bre "api/ccr/process" body in
      let h1' = gets-returns (λ a. a.url_bre) _ t h1 in
      let ((status, answer), e2, h2) = >>=-returns post _ t h1' in
      let u = (post t).1 in
      let (result, e3, h3) = >>=-returns (lift (host.loads answer)) _ u h2 in
      elim (Bool-cases (nat_eqb status 200)) [
        | inl good ↦
            let (score, e4, h4) = >>=-returns (lift (index result "score")) _ u (rw good at h3) in
            (
              body,
              result,
              score,
              answer,
              e1,
              e2 ∙ ap (λ n. ok (n, answer)) ((nat_eq.beq_iff status 200).0 good),
              e3,
              e4,
            )
        | inr bad ↦ absurd (cc (rw bad at h3))
      ]

  IsScored-returns :
      (request : Json) (s : Sys FinancialUser W)
      → IsScored request s
      → (handle_fi_notification host request s).0 ≡ ok tt
  unfolding handle_fi_notification ◌>>=◌
  IsScored-returns request s (body, result, score, answer, e1, e2, e3, e4) = rw (e1, e2, e3, e4)

  -- The handler of a notification of information returns exactly if the request to the clean room can
  -- be prepared, and the clean room answers it, at the configured URL, with status 200, and with JSON
  -- that has a score.
  pub handle_fi_notification-IsScored :
      (request : Json) (s : Sys FinancialUser W)
      → ((handle_fi_notification host request s).0 ≡ ok tt) ↔ IsScored request s
  handle_fi_notification-IsScored request s =
      (returns-IsScored request s, IsScored-returns request s)
