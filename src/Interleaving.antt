-- ===== src/Interleaving.antt =====
-- Two services that call each other (samples/aa-flow-based-lending/src): each handles one event at a
-- time, from its begin to its end, and waits inside for the answers to its requests (main.py,
-- controller.py and client.py of both). A service that waits answers nobody.
pub mod Replay
pub mod Progress
pub mod Services
pub mod Quiet
pub mod Turns
pub mod Hang
pub mod Stops
pub mod Consistent
pub mod Beside
pub mod Simulation
pub mod Simulated
pub mod Atomic
pub mod Runs
pub mod Peers
pub mod Start
pub mod Grant
pub mod Notify
pub mod Consented
use fiu_data_governance.Prelude.{
  Bool, true, false, Option, none, some, List, [], ◌∷◌, ◌++◌, ◌≡◌, if◌then◌else◌,
}
use fiu_data_governance.Host.{Action, Sys, HttpRequest, Outcome}
use fiu_data_governance.Python.Errors.{Result}
use fiu_data_governance.Python.Json.{Json}
use fiu_data_governance.Interleaving.Replay.{Answered}

pub record Program (S W E : Type 0) : Type 0 where
  pub handle : E → Action S (Answered W) Json
  -- the event that a request causes here, if it is one to this service
  pub route : HttpRequest → Option E
  -- the answer that the server makes of what a handler returns or raises
  pub respond : Result Json → Outcome

-- A busy service began an event in a state, and some answers have come since; the Boolean says whether
-- it serves a request of the other service.
pub data Proc (S W E : Type 0) : Type 0 where
  idle : Sys S W → Proc S W E
  busy : Bool → Sys S W → E → List Outcome → Proc S W E

module _ {S W E : Type 0} where
  abbrev pub run : Program S W E → Sys S W → E → List Outcome → Result Json × Sys S (Answered W)
  run P s e os =
      P.handle e
        (record { self = s.self; world = record { answers = os; waiting = none; inner = s.world } })

  abbrev pub awaits : Program S W E → Proc S W E → Option HttpRequest
  awaits P (idle s) = none
  awaits P (busy b s e os) = (run P s e os).1.world.waiting

  abbrev pub result : Program S W E → Sys S W → E → List Outcome → Outcome
  result P s e os = P.respond (run P s e os).0

  abbrev pub finished : Program S W E → Sys S W → E → List Outcome → Sys S W
  finished P s e os = let t = (run P s e os).1 in record { self = t.self; world = t.world.inner }

  abbrev pub add_answer : Outcome → Proc S W E → Proc S W E
  add_answer o (idle s) = idle s
  add_answer o (busy b s e os) = busy b s e (os ++ o ∷ [])

  abbrev pub IsIdle : Proc S W E → Type 0
  IsIdle (idle s) = Unit
  IsIdle (busy b s e os) = ⊥

module _ {S W E T V F : Type 0} (P : Program S W E) (Q : Program T V F) where
  -- What is under way goes on at `P`, beside `Q`.
  pub data Advance : Proc S W E → Proc T V F → Proc S W E → Proc T V F → Type 0 where
    -- a request of `Q` is taken up
    serve :
        {s : Sys S W} {q : Proc T V F} {e : E}
        → (request : HttpRequest) → awaits Q q ≡ some request
        → P.route request ≡ some e
        → Advance (idle s) q (busy true s e []) q
    -- a third service answers
    outside :
        {b : Bool} {s : Sys S W} {e : E} {os : List Outcome} {q : Proc T V F}
        → (request : HttpRequest) (o : Outcome) → awaits P (busy b s e os) ≡ some request
        → Q.route request ≡ none
        → Advance (busy b s e os) q (busy b s e (os ++ o ∷ [])) q
    -- the handler ends, and whoever waits for it has the answer
    finish :
        {b : Bool} {s : Sys S W} {e : E} {os : List Outcome} {q : Proc T V F}
        → awaits P (busy b s e os) ≡ none
        → Advance
            (busy b s e os)
            q
            (idle (finished P s e os))
            (if b then add_answer (result P s e os) q else q)

  -- Or `P` begins an event that the other service has not asked for, if it may.
  pub data Move (May : E → Proc T V F → Type 0)
      : Proc S W E → Proc T V F → Proc S W E → Proc T V F → Type 0 where
    begin :
        {s : Sys S W} {q : Proc T V F} (e : E) → May e q → Move May (idle s) q (busy false s e []) q
    advance : {p p' : Proc S W E} {q q' : Proc T V F} → Advance p q p' q' → Move May p q p' q'
