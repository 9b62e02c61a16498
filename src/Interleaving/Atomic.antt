-- ===== src/Interleaving/Atomic.antt =====
-- A service that runs an event with the other one as a peer that answers at once, as in Workflow, is a run
-- of the two services side by side (main.py and controller.py of the account aggregator and of the
-- financial information user).
use mathlib.Core.List.{append_assoc, append-nil}
use mathlib.Core.Path.{subst, subst₂}
use fiu_data_governance.Prelude.{
  ◌≡◌, refl, sym, ap, ◌∙◌, false, true, Option, none, some, List, [], ◌∷◌, ◌++◌,
}
use fiu_data_governance.Host.{HttpRequest, Outcome, Action, Sys}
use fiu_data_governance.Python.Json.{Json}
use fiu_data_governance.Interleaving.{
  Program, Proc, idle, busy, awaits, result, finished, Move, begin, advance, serve, outside, finish,
}
use fiu_data_governance.Interleaving.Beside.{Beside, with_peers, given, Fed, Sim}

module _ {T V F X : Type 0} (Q : Program T V F) (elsewhere : HttpRequest → X → Outcome × X) where
  -- The peer runs the event of a request at once; what is not a request to it is answered elsewhere.
  abbrev pub answer_routed : HttpRequest → Option F → Sys T V × X → Outcome × (Sys T V × X)
  answer_routed request none (t, x) = let (o, x') = elsewhere request x in (o, (t, x'))
  answer_routed request (some f) (t, x) = (result Q t f [], (finished Q t f [], x))

  abbrev pub answer : HttpRequest → Sys T V × X → Outcome × (Sys T V × X)
  answer request y = answer_routed request (Q.route request) y

module _ {S W E T V F X : Type 0} (P : Program S W E) (Q : Program T V F)
    (elsewhere : HttpRequest → X → Outcome × X) {May : E → Proc T V F → Type 0}
    {May' : F → Proc S W E → Type 0} (R : Proc S W E → Proc T V F → Type 0)
    (move : (p p' : Proc S W E) (q q' : Proc T V F) → R p q → Move P Q May p q p' q' → R p' q')
    (move' : (p p' : Proc S W E) (q q' : Proc T V F) → R p q → Move Q P May' q p q' p' → R p' q')
    (quiet : (request : HttpRequest) (f : F)
      → Q.route request ≡ some f
      → (t : Sys T V) → awaits Q (busy true t f []) ≡ none) where
  -- One answer.
  answered :
      (s : Sys S W) (e : E) (ps : List Outcome) (request : HttpRequest) (route : Option F)
      (t : Sys T V) (x : X)
      → awaits P (busy false s e ps) ≡ some request
      → Q.route request ≡ route
      → R (busy false s e ps) (idle t)
      → let (o, y) = answer_routed Q elsewhere request route (t, x) in
        R (busy false s e (ps ++ o ∷ [])) (idle y.0)
  answered s e ps request none t x w r reached =
      move _ _ _ _ reached (advance (outside request (elsewhere request x).0 w r))
  answered s e ps request (some f) t x w r reached =
      move' _ _ _ _ (move' _ _ _ _ reached (advance (serve request w r)))
        (advance (finish (quiet request f r t)))

  fed_reach :
      (s : Sys S W) (e : E) (ps os : List Outcome) (y z : Sys T V × X)
      → Fed (answer Q elsewhere) (P.handle e) s.self s.world ps os y z
      → R (busy false s e ps) (idle y.0)
      → R (busy false s e (ps ++ os)) (idle z.0)
  fed_reach s e ps [] y z fed reached =
      subst₂ (λ os u. R (busy false s e os) (idle u.0)) (sym (append-nil ps)) fed reached
  fed_reach s e ps (o ∷ os) y z (request, y', w, sent, fed) reached =
      subst (λ us. R (busy false s e us) (idle z.0)) (append_assoc ps (o ∷ []) os)
        (fed_reach s e (ps ++ o ∷ []) os y' z fed (
          subst (λ r. R (busy false s e (ps ++ r.0 ∷ [])) (idle r.1.0)) sent
            (answered s e ps request (Q.route request) y.0 y.1 w refl reached)))

  -- From two idle services to two idle ones.
  pub event_reach :
      (m : Action S (Beside W (Sys T V × X)) Json) (s : Sys S W) (e : E) (t : Sys T V) (x : X)
      → Sim (answer Q elsewhere) m (P.handle e)
      → May e (idle t)
      → R (idle s) (idle t)
      → let u = (m (with_peers s.self s.world (t, x))).1 in
        R (idle (record { self = u.self; world = u.world.own })) (idle u.world.around.0)
  event_reach m s e t x sim may reached =
      let (os, runs, fed) = sim.at s.self s.world (t, x) in
      let u = (m (with_peers s.self s.world (t, x))).1 in
      let begun = move _ _ _ _ reached (begin e may) in
      let fed_all = fed_reach s e [] os (t, x) u.world.around fed begun in
      let ran =
        ap (λ us. (P.handle e (given s.self us s.world)).1) (sym (append-nil os))
        ∙ ap (λ r. r.1) (runs []) in
      let ended = move _ _ _ _ fed_all (advance (finish (ap (λ r. r.world.waiting) ran))) in
      subst
        (λ r. R (idle (record { self = r.self; world = r.world.inner })) (idle u.world.around.0))
        ran ended
