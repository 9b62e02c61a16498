-- ===== src/Interleaving/Consistent.antt =====
-- The tables of the account aggregator and of the financial information user while the two interleave
-- (their main.py and controller.py), also where a service waits for an answer in the middle of a handler.
use fiu_data_governance.Prelude.{
  inl, inr, Bool, true, false, String, Option, none, List, if◌then◌else◌,
}
use fiu_data_governance.Host.{Host, Sys, HttpRequest, Outcome}
use fiu_data_governance.Python.Errors.{Result}
use fiu_data_governance.Python.Json.{Json}
use fiu_data_governance.Aggregator as Aa
use fiu_data_governance.Aggregator.{Aggregator}
use fiu_data_governance.Aggregator.Routes.{
  post_consent, post_cr_info, post_statements, post_fi_request, get_consent_handle, get_consent,
  fetch, run_task,
}
use fiu_data_governance.Aggregator.Invariant.Handlers.{HasConsistentTables}
use fiu_data_governance.Aggregator.Invariant.Reach.{
  IsFresh, handle_event-HasConsistentTables, initial-HasConsistentTables,
}
use fiu_data_governance.FinancialUser as Fiu
use fiu_data_governance.FinancialUser.{FinancialUser}
use fiu_data_governance.FinancialUser.Artifacts.{HasKeyedTables}
use fiu_data_governance.FinancialUser.Reach.{handle_event-Keeps, initial-HasKeyedTables}
use fiu_data_governance.Interleaving.{
  Program, Proc, idle, busy, run, add_answer, serve, outside, finish, Move, begin, advance,
}
use fiu_data_governance.Interleaving.Replay.{replay}
use fiu_data_governance.Interleaving.Services.{
  AaEvent, FiuEvent, Anytime, Step, Reach, start, next, aa, fiu,
}

module _ {S W E : Type 0} (P : Program S W E) where
  -- The globals as they are.
  abbrev pub globals : Proc S W E → S
  globals (idle s) = s.self
  globals (busy b s e os) = (run P s e os).1.self

module _ {S W E : Type 0} (P : Program S W E) (Good : S → Type 0) where
  -- Good now, and wherever the handler under way may come with other answers.
  abbrev StaysGood : Proc S W E → Type 0
  StaysGood (idle s) = Good s.self
  StaysGood (busy b s e os) = (us : List Outcome) → Good (run P s e us).1.self

  globals-StaysGood : (p : Proc S W E) → StaysGood p → Good (globals P p)
  globals-StaysGood (idle s) h = h
  globals-StaysGood (busy b s e os) h = h os

  add_answer-StaysGood :
      (b : Bool) (o : Outcome) (p : Proc S W E)
      → StaysGood p
      → StaysGood (if b then add_answer o p else p)
  add_answer-StaysGood true o (idle s) h = h
  add_answer-StaysGood true o (busy b s e os) h = h
  add_answer-StaysGood false o p h = h

module _ {S W E T V F : Type 0} (P : Program S W E) (Q : Program T V F) (Good : S → Type 0)
    (Good' : T → Type 0) where
  -- The event that a step begins at the service, if it does, keeps the globals good.
  abbrev BeginsGood :
      {May : E → Proc T V F → Type 0} {p p' : Proc S W E} {q q' : Proc T V F}
      → Move P Q May p q p' q'
      → Type 0
  BeginsGood (begin {s = s} e may) = Good s.self → (us : List Outcome) → Good (run P s e us).1.self
  BeginsGood (advance (serve {s = s} {e = e} request w r)) =
      Good s.self → (us : List Outcome) → Good (run P s e us).1.self
  BeginsGood (advance (outside request o w r)) = Unit
  BeginsGood (advance (finish w)) = Unit

  Move-StaysGood :
      {May : E → Proc T V F → Type 0} {p p' : Proc S W E} {q q' : Proc T V F}
      (m : Move P Q May p q p' q')
      → BeginsGood m
      → StaysGood P Good p
      → StaysGood Q Good' q
      → StaysGood P Good p' × StaysGood Q Good' q'
  Move-StaysGood (begin e may) keeps g g' = (keeps g, g')
  Move-StaysGood (advance (serve request w r)) keeps g g' = (keeps g, g')
  Move-StaysGood (advance (outside request o w r)) keeps g g' = (g, g')
  Move-StaysGood (advance (finish {b = b} {os = os} {q = q} w)) keeps g g' =
      (g os, add_answer-StaysGood Q Good' b _ q g')

-- The answers that are to come have no part in it.
IsFresh-replay :
    {W : Type 0} (host : Host W) (e : AaEvent) (s : Sys Aggregator W) (us : List Outcome)
    → IsFresh host e s
    → IsFresh
        (replay host)
        e
        (record { self = s.self; world = record { answers = us; waiting = none; inner = s.world } })
IsFresh-replay host (post_consent request) s us h = h
IsFresh-replay host (post_cr_info request) s us h = h
IsFresh-replay host (post_statements statements) s us h = h
IsFresh-replay host (post_fi_request request) s us h = h
IsFresh-replay host (get_consent_handle h') s us h = h
IsFresh-replay host (get_consent i) s us h = h
IsFresh-replay host (fetch k) s us h = h
IsFresh-replay host (run_task n) s us h = h

module _ {W V : Type 0} (host : Host W) (other : Host V) (to_aa : HttpRequest → Option AaEvent)
    (to_fiu : HttpRequest → Option FiuEvent) (aa_respond fiu_respond : Result Json → Outcome) where
  abbrev aggregator : Program Aggregator W AaEvent
  aggregator = aa host other to_aa to_fiu aa_respond fiu_respond

  abbrev user : Program FinancialUser V FiuEvent
  user = fiu host other to_aa to_fiu aa_respond fiu_respond

  -- A consent that the account aggregator begins to handle gets a handle that is not in use.
  abbrev IsNewStep :
      {p p' : Proc Aggregator W AaEvent} {q q' : Proc FinancialUser V FiuEvent}
      → Step host other to_aa to_fiu aa_respond fiu_respond Anytime Anytime p q p' q'
      → Type 0
  IsNewStep (inl (begin {s = s} e may)) = IsFresh host e s
  IsNewStep (inl (advance (serve {s = s} {e = e} request w r))) = IsFresh host e s
  IsNewStep (inl (advance (outside request o w r))) = Unit
  IsNewStep (inl (advance (finish w))) = Unit
  IsNewStep (inr m) = Unit

  -- The states that two services lead to, which begin at any time.
  abbrev pub Interleaved :
      Sys Aggregator W
      → Sys FinancialUser V
      → Proc Aggregator W AaEvent
      → Proc FinancialUser V FiuEvent
      → Type 0
  Interleaved = Reach host other to_aa to_fiu aa_respond fiu_respond Anytime Anytime

  abbrev pub AreNew :
      {s : Sys Aggregator W} {t : Sys FinancialUser V} {p : Proc Aggregator W AaEvent}
      {q : Proc FinancialUser V FiuEvent}
      → Interleaved s t p q
      → Type 0
  AreNew start = Unit
  AreNew (next r m) = AreNew r × IsNewStep m

  aa-BeginsGood :
      {p p' : Proc Aggregator W AaEvent} {q q' : Proc FinancialUser V FiuEvent}
      (m : Move aggregator user Anytime p q p' q')
      → IsNewStep (inl m)
      → BeginsGood aggregator user (HasConsistentTables host) HasKeyedTables m
  aa-BeginsGood (begin {s = s} e may) new =
      λ g us. handle_event-HasConsistentTables (replay host) e _ (IsFresh-replay host e s us new) g
  aa-BeginsGood (advance (serve {s = s} {e = e} request w r)) new =
      λ g us. handle_event-HasConsistentTables (replay host) e _ (IsFresh-replay host e s us new) g
  aa-BeginsGood (advance (outside request o w r)) new = tt
  aa-BeginsGood (advance (finish w)) new = tt

  fiu-BeginsGood :
      {p p' : Proc Aggregator W AaEvent} {q q' : Proc FinancialUser V FiuEvent}
      (m : Move user aggregator Anytime q p q' p')
      → BeginsGood user aggregator HasKeyedTables (HasConsistentTables host) m
  fiu-BeginsGood (begin e may) = λ g us. (handle_event-Keeps (replay other) e).at _ g
  fiu-BeginsGood (advance (serve {e = e} request w r)) =
      λ g us. (handle_event-Keeps (replay other) e).at _ g
  fiu-BeginsGood (advance (outside request o w r)) = tt
  fiu-BeginsGood (advance (finish w)) = tt

  Reach-StaysGood :
      {s : Sys Aggregator W} {t : Sys FinancialUser V} {p : Proc Aggregator W AaEvent}
      {q : Proc FinancialUser V FiuEvent} (r : Interleaved s t p q)
      → AreNew r
      → HasConsistentTables host s.self
      → HasKeyedTables t.self
      → StaysGood aggregator (HasConsistentTables host) p × StaysGood user HasKeyedTables q
  Reach-StaysGood start new c k = (c, k)
  Reach-StaysGood (next r (inl m)) (new, step) c k =
      let (g, g') = Reach-StaysGood r new c k in
      Move-StaysGood aggregator user (HasConsistentTables host) HasKeyedTables m
        (aa-BeginsGood m step) g g'
  Reach-StaysGood (next r (inr m)) (new, step) c k =
      let (g, g') = Reach-StaysGood r new c k in
      let (h', h) =
        Move-StaysGood user aggregator HasKeyedTables (HasConsistentTables host) m
          (fiu-BeginsGood m) g' g in
      (h, h')

  -- In every state of the two services that steps lead to from their start, in any order of requests,
  -- tasks and answers, and also where a handler waits for an answer, the consent tables of the account
  -- aggregator are consistent and the tables of the financial information user have each entry under
  -- its own transaction id, if each consent that the aggregator began to handle got a handle that was
  -- not in use.
  pub Reach-HasConsistentTables-HasKeyedTables :
      (id url_fiu url_crypto url_bre url_aa : String) (w : W) (v : V)
      {p : Proc Aggregator W AaEvent} {q : Proc FinancialUser V FiuEvent}
      → (r : Interleaved
          (record { self = Aa.initial id url_fiu url_crypto; world = w })
          (record { self = Fiu.initial url_bre url_aa; world = v })
          p
          q)
      → AreNew r
      → HasConsistentTables host (globals aggregator p) × HasKeyedTables (globals user q)
  Reach-HasConsistentTables-HasKeyedTables id url_fiu url_crypto url_bre url_aa w v {p} {q} r new =
      let (g, g') =
        Reach-StaysGood r new (initial-HasConsistentTables host id url_fiu url_crypto)
          (initial-HasKeyedTables other url_bre url_aa) in
      (
        globals-StaysGood aggregator (HasConsistentTables host) p g,
        globals-StaysGood user HasKeyedTables q g',
      )
