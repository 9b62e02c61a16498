-- ===== src/Interleaving/Services.antt =====
-- The account aggregator and the financial information user side by side (their main.py and
-- controller.py), and the states of the two that steps lead to. Where a request goes, and how an answer
-- is made of what a handler returns or raises, is FastAPI's, `route` and `respond`.
use fiu_data_governance.Prelude.{Option, ◌⊎◌}
use fiu_data_governance.Host.{Host, Sys, HttpRequest, Outcome}
use fiu_data_governance.Python.Errors.{Result}
use fiu_data_governance.Python.Json.{Json}
use fiu_data_governance.Aggregator.{Aggregator}
use fiu_data_governance.Aggregator.Routes as AggregatorRoutes
use fiu_data_governance.FinancialUser.{FinancialUser}
use fiu_data_governance.FinancialUser.Routes as FinancialUserRoutes
use fiu_data_governance.Interleaving.{Program, Proc, idle, IsIdle, Move}
use fiu_data_governance.Interleaving.Replay.{replay}

abbrev pub AaEvent : Type 0
AaEvent = AggregatorRoutes.Event

abbrev pub FiuEvent : Type 0
FiuEvent = FinancialUserRoutes.Event

-- The events whose handlers send requests: the setup of the certificate, and the tasks.
abbrev pub AaCalls : AaEvent → Type 0
AaCalls (AggregatorRoutes.post_cr_info request) = Unit
AaCalls (AggregatorRoutes.run_task n) = Unit
AaCalls _ = ⊥

abbrev pub FiuCalls : FiuEvent → Type 0
FiuCalls (FinancialUserRoutes.run_task n) = Unit
FiuCalls _ = ⊥

-- An event may begin at any time.
abbrev pub Anytime : {E R : Type 0} → E → R → Type 0
Anytime e q = Unit

-- The delay as it is meant: what sends requests begins only while the other service is idle.
abbrev pub InTurn : {T V E F : Type 0} → (E → Type 0) → E → Proc T V F → Type 0
InTurn Calls e q = Calls e → IsIdle q

module _ {W V : Type 0} (host : Host W) (other : Host V) (to_aa : HttpRequest → Option AaEvent)
    (to_fiu : HttpRequest → Option FiuEvent) (aa_respond fiu_respond : Result Json → Outcome) where
  abbrev pub aa : Program Aggregator W AaEvent
  aa = record {
    handle = AggregatorRoutes.handle_event (replay host);
    route = to_aa;
    respond = aa_respond;
  }

  abbrev pub fiu : Program FinancialUser V FiuEvent
  fiu = record {
    handle = FinancialUserRoutes.handle_event (replay other);
    route = to_fiu;
    respond = fiu_respond;
  }

  abbrev pub Aa : Type 0
  Aa = Proc Aggregator W AaEvent

  abbrev pub Fiu : Type 0
  Fiu = Proc FinancialUser V FiuEvent

  -- One step of either, where each begins what it may.
  abbrev pub Step :
      (AaEvent → Fiu → Type 0) → (FiuEvent → Aa → Type 0) → Aa → Fiu → Aa → Fiu → Type 0
  Step MayAa MayFiu p q p' q' = Move aa fiu MayAa p q p' q' ⊎ Move fiu aa MayFiu q p q' p'

  pub data Reach (MayAa : AaEvent → Fiu → Type 0) (MayFiu : FiuEvent → Aa → Type 0)
      (s : Sys Aggregator W) (t : Sys FinancialUser V) : Aa → Fiu → Type 0 where
    start : Reach MayAa MayFiu s t (idle s) (idle t)
    next :
        {p p' : Aa} {q q' : Fiu}
        → Reach MayAa MayFiu s t p q
        → Step MayAa MayFiu p q p' q'
        → Reach MayAa MayFiu s t p' q'
