-- ===== src/Interleaving/Turns.antt =====
-- The delay before an artifact is created (account-aggregator/src/controller.py,
-- create_consent_artifact) is to keep the two services from calling each other at the same time. What
-- holds if it does: if handlers that send requests take turns, the services never hang.
use fiu_data_governance.Prelude.{Bool, Option, none, some, ◌≡◌, ◌⊎◌, inl, inr, List}
use fiu_data_governance.Host.{Host, Sys, HttpRequest, Outcome}
use fiu_data_governance.Python.Errors.{Result}
use fiu_data_governance.Python.Json.{Json}
use fiu_data_governance.Aggregator.{Aggregator}
use fiu_data_governance.FinancialUser.{FinancialUser}
use fiu_data_governance.Interleaving.{
  Program, Proc, idle, busy, IsIdle, awaits, serve, outside, finish, Move, begin, advance,
}
use fiu_data_governance.Interleaving.Progress.{WaitsFor, IsHung, Proceeds, Proceeds-cases}
use fiu_data_governance.Interleaving.Services as Services
use fiu_data_governance.Interleaving.Services.{
  AaEvent, FiuEvent, AaCalls, FiuCalls, InTurn, Reach, start, next,
}
use fiu_data_governance.Interleaving.Quiet.{waiting-Quiet, aa-Quiet, fiu-Quiet}

-- Busy with an event that sends requests.
abbrev IsCalling : {S W E : Type 0} → (E → Type 0) → Proc S W E → Type 0
IsCalling Calls (idle s) = ⊥
IsCalling Calls (busy b s e os) = Calls e

module _ {S W E T V F : Type 0} (P : Program S W E) (Q : Program T V F) (Calls : E → Type 0)
    (Calls' : F → Type 0) where
  abbrev TakesTurns : Proc S W E → Proc T V F → Type 0
  TakesTurns p q = ¬ (IsCalling Calls p × IsCalling Calls' q)

  idle-IsCalling : (q : Proc T V F) → IsIdle q → ¬ IsCalling Calls' q
  idle-IsCalling (idle t) i c = c
  idle-IsCalling (busy b t f us) i c = absurd i

  -- A request of the other service causes no event that sends requests.
  Move-TakesTurns :
      {p p' : Proc S W E} {q q' : Proc T V F}
      → ((request : HttpRequest) (e : E) → P.route request ≡ some e → ¬ Calls e)
      → Move P Q (InTurn Calls) p q p' q'
      → TakesTurns p q
      → TakesTurns p' q'
  Move-TakesTurns local (begin {q = q} e may) h (c, d) = idle-IsCalling q (may c) d
  Move-TakesTurns local (advance (serve {e = e} request w r)) h (c, d) = local request e r c
  Move-TakesTurns local (advance (outside request o w r)) h both = h both
  Move-TakesTurns local (advance (finish w)) h (c, d) = c

  waiting-IsCalling :
      (p : Proc S W E)
      → ((e : E)
          → ¬ Calls e
          → (b : Bool) (s : Sys S W) (os : List Outcome) → awaits P (busy b s e os) ≡ none)
      → WaitsFor P Q p
      → ¬ ¬ IsCalling Calls p
  waiting-IsCalling (idle s) quiet (request, f, w, r) k = cc
  waiting-IsCalling (busy b s e os) quiet (request, f, w, r) k =
      let none_waits = quiet e k b s os in absurd (cc)

module _ {W V : Type 0} (host : Host W) (other : Host V) (to_aa : HttpRequest → Option AaEvent)
    (to_fiu : HttpRequest → Option FiuEvent) (aa_respond fiu_respond : Result Json → Outcome)
    (local_aa : (request : HttpRequest) (e : AaEvent) → to_aa request ≡ some e → ¬ AaCalls e)
    (local_fiu : (request : HttpRequest) (e : FiuEvent)
      → to_fiu request ≡ some e
      → ¬ FiuCalls e) where
  abbrev aa : Program Aggregator W AaEvent
  aa = Services.aa host other to_aa to_fiu aa_respond fiu_respond

  abbrev fiu : Program FinancialUser V FiuEvent
  fiu = Services.fiu host other to_aa to_fiu aa_respond fiu_respond

  abbrev ReachInTurn :
      Sys Aggregator W
      → Sys FinancialUser V
      → Proc Aggregator W AaEvent
      → Proc FinancialUser V FiuEvent
      → Type 0
  ReachInTurn =
      Reach host other to_aa to_fiu aa_respond fiu_respond (InTurn AaCalls) (InTurn FiuCalls)

  Reach-TakesTurns :
      {s : Sys Aggregator W} {t : Sys FinancialUser V} {p : Proc Aggregator W AaEvent}
      {q : Proc FinancialUser V FiuEvent}
      → ReachInTurn s t p q
      → TakesTurns aa fiu AaCalls FiuCalls p q
  Reach-TakesTurns start (c, d) = c
  Reach-TakesTurns (next r (inl m)) both =
      Move-TakesTurns aa fiu AaCalls FiuCalls local_aa m (Reach-TakesTurns r) both
  Reach-TakesTurns (next r (inr m)) (c, d) =
      Move-TakesTurns fiu aa FiuCalls AaCalls local_fiu m
        (λ both. Reach-TakesTurns r (both.1, both.0)) (d, c)

  Reach-IsHung :
      {s : Sys Aggregator W} {t : Sys FinancialUser V} {p : Proc Aggregator W AaEvent}
      {q : Proc FinancialUser V FiuEvent}
      → ReachInTurn s t p q
      → ¬ IsHung aa fiu p q
  Reach-IsHung {p = p} {q = q} r (w, w') =
      waiting-IsCalling aa fiu AaCalls FiuCalls p
        (λ e k b s os. waiting-Quiet _ _ (aa-Quiet host e k)) w
        (λ c.
          waiting-IsCalling fiu aa FiuCalls AaCalls q
            (λ f k b s os. waiting-Quiet _ _ (fiu-Quiet other f k)) w'
            (λ d. Reach-TakesTurns r (c, d)))

  -- In every state of the two services that steps lead to from idle ones, whatever their globals are
  -- and in any order of requests, tasks and answers, either both are idle, or one of them goes on with
  -- what it does: if a handler that sends requests begins only while the other service is idle, and no
  -- request that one sends to the other causes a handler that sends requests, then the two never wait
  -- for each other.
  pub Reach-Proceeds :
      {s : Sys Aggregator W} {t : Sys FinancialUser V} {p : Proc Aggregator W AaEvent}
      {q : Proc FinancialUser V FiuEvent}
      → ReachInTurn s t p q
      → (IsIdle p × IsIdle q) ⊎ Proceeds aa fiu p q
  Reach-Proceeds {p = p} {q = q} r = elim (Proceeds-cases aa fiu p q) [
    | inl both ↦ inl both
    | inr (inl goes) ↦ inr goes
    | inr (inr hung) ↦ absurd (Reach-IsHung r hung)
  ]
