-- ===== src/Interleaving/Runs.antt =====
-- The events of the account aggregator and of the financial information user with the other one as a peer
-- that answers at once (main.py and controller.py of both), as runs of the two side by side.
use fiu_data_governance.Prelude.{◌≡◌, some, Option, inl, inr}
use fiu_data_governance.Host.{Host, HttpRequest, Outcome, Sys}
use fiu_data_governance.Python.Errors.{Result}
use fiu_data_governance.Python.Json.{Json}
use fiu_data_governance.Aggregator.{Aggregator}
use fiu_data_governance.Aggregator.Routes as AaRoutes
use fiu_data_governance.FinancialUser.{FinancialUser}
use fiu_data_governance.FinancialUser.Routes as FiuRoutes
use fiu_data_governance.Interleaving.{Program, Proc, idle}
use fiu_data_governance.Interleaving.Services as Services
use fiu_data_governance.Interleaving.Services.{
  AaEvent, FiuEvent, AaCalls, FiuCalls, InTurn, Reach, next,
}
use fiu_data_governance.Interleaving.Quiet.{waiting-Quiet, aa-Quiet, fiu-Quiet}
use fiu_data_governance.Interleaving.Beside.{beside, with_peers}
use fiu_data_governance.Interleaving.Simulated.{aa-Sim, fiu-Sim}
use fiu_data_governance.Interleaving.Atomic.{answer, event_reach}

module _ {W V : Type 0} (host : Host W) (other : Host V) (to_aa : HttpRequest → Option AaEvent)
    (to_fiu : HttpRequest → Option FiuEvent) (aa_respond fiu_respond : Result Json → Outcome) where
  abbrev aa : Program Aggregator W AaEvent
  aa = Services.aa host other to_aa to_fiu aa_respond fiu_respond

  abbrev fiu : Program FinancialUser V FiuEvent
  fiu = Services.fiu host other to_aa to_fiu aa_respond fiu_respond

  abbrev pub ReachInTurn :
      Sys Aggregator W
      → Sys FinancialUser V
      → Proc Aggregator W AaEvent
      → Proc FinancialUser V FiuEvent
      → Type 0
  ReachInTurn =
      Reach host other to_aa to_fiu aa_respond fiu_respond (InTurn AaCalls) (InTurn FiuCalls)

  module _ {X : Type 0} (elsewhere : HttpRequest → X → Outcome × X) where
    -- An event of the account aggregator, with the financial information user in its world.
    abbrev pub aa_alone :
        AaEvent
        → Sys Aggregator W
        → Sys FinancialUser V
        → X
        → Sys Aggregator W × Sys FinancialUser V
    aa_alone e s t x =
        let alone = beside (answer fiu elsewhere) host in
        let u = (AaRoutes.handle_event alone e (with_peers s.self s.world (t, x))).1 in
        (record { self = u.self; world = u.world.own }, u.world.around.0)

    -- An event of the financial information user, with the account aggregator in its world.
    abbrev pub fiu_alone :
        FiuEvent
        → Sys Aggregator W
        → Sys FinancialUser V
        → X
        → Sys Aggregator W × Sys FinancialUser V
    fiu_alone e s t x =
        let alone = beside (answer aa elsewhere) other in
        let u = (FiuRoutes.handle_event alone e (with_peers t.self t.world (s, x))).1 in
        (u.world.around.0, record { self = u.self; world = u.world.own })

    -- What one service does with an event when the other one is a peer in its world that answers at once,
    -- the two can do side by side, with handlers that send requests in turn: from a state with both idle,
    -- steps lead to the state that the event leaves, whether its handler returns or raises, if no
    -- request that one sends to the other causes a handler that sends requests.
    pub handle_event-Reach :
        ((request : HttpRequest) (e : AaEvent) → to_aa request ≡ some e → ¬ AaCalls e)
        → ((request : HttpRequest) (e : FiuEvent) → to_fiu request ≡ some e → ¬ FiuCalls e)
        → (s₀ s : Sys Aggregator W) (t₀ t : Sys FinancialUser V)
        → ReachInTurn s₀ t₀ (idle s) (idle t)
        → (x : X)
        → ((e : AaEvent) → let (s', t') = aa_alone e s t x in ReachInTurn s₀ t₀ (idle s') (idle t'))
          × ((e : FiuEvent)
              → let (s', t') = fiu_alone e s t x in ReachInTurn s₀ t₀ (idle s') (idle t'))
    handle_event-Reach local_aa local_fiu s₀ s t₀ t reached x = (
      λ e.
          event_reach aa fiu elsewhere (ReachInTurn s₀ t₀) (λ p p' q q' r m. next r (inl m))
            (λ p p' q q' r m. next r (inr m))
            (λ request f route u. waiting-Quiet _ _ (fiu-Quiet other f (local_fiu request f route)))
            _ s e t x (aa-Sim (answer fiu elsewhere) host e) (λ c. tt) reached,
      λ e.
          event_reach fiu aa elsewhere (λ q p. ReachInTurn s₀ t₀ p q)
            (λ q q' p p' r m. next r (inr m)) (λ q q' p p' r m. next r (inl m))
            (λ request f route u. waiting-Quiet _ _ (aa-Quiet host f (local_aa request f route))) _
            t e s x (fiu-Sim (answer aa elsewhere) other e) (λ c. tt) reached,
    )
