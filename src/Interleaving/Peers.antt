-- ===== src/Interleaving/Peers.antt =====
-- The account aggregator and the financial information user as peers that answer at once
-- (Interleaving/Runs), as the theorems in Workflow want them: a peer serves its routes (main.py).
use mathlib.Core.Path.{subst}
use fiu_data_governance.Prelude.{◌≡◌, ◌∙◌, refl, sym, ap, Option, none, some, []}
use fiu_data_governance.Host.{Host, HttpRequest, Outcome, response, Sys}
use fiu_data_governance.Python.Errors.{ok}
use fiu_data_governance.Python.Json.{Json}
use fiu_data_governance.Workflow.Peers.{Serves, IsApart}
use fiu_data_governance.Interleaving.{Program}
use fiu_data_governance.Interleaving.Replay.{Answered, replay}
use fiu_data_governance.Interleaving.Quiet.{Quiet}
use fiu_data_governance.Interleaving.Beside.{Beside, beside, given}
use fiu_data_governance.Interleaving.Atomic.{answer, answer_routed}

module _ {V T W F X : Type 0} (caller : Host V) (Q : Program T W F) (host : Host W)
    (elsewhere : HttpRequest → X → Outcome × X) where
  -- The host of the caller, with the peer in its world.
  abbrev pub calling : Host (Beside V (Sys T W × X))
  calling = beside (answer Q elsewhere) caller

  abbrev pub peer : Beside V (Sys T W × X) → Sys T (Answered W)
  peer w = given w.around.0.self [] w.around.0.world

  pub IsApart-peer : IsApart calling peer
  IsApart-peer w = refl

  given_back :
      (t : Sys T (Answered W))
      → t.world ≡ record { answers = []; waiting = none; inner = t.world.inner }
      → given t.self [] t.world.inner ≡ t
  given_back t e = sym (ap {A = Answered W} (λ w. record t { world = w }) e)

  -- A request that goes to a route of the peer is served by the handler of the route, if the handler
  -- sends no requests, and FastAPI answers with status 200 and the JSON of what it returns.
  pub Serves-routed :
      ((j : Json) → Q.respond (ok j) ≡ response 200 (host.dumps j))
      → (request : HttpRequest) (e : F) → Q.route request ≡ some e
      → Quiet (Q.handle e)
      → Serves calling (replay host) peer request (Q.handle e)
  Serves-routed responds request e route quiet j w t runs =
      let Back : Type 0 = Beside V (Sys T W × X) in
      let x = w.around.1 in
      let left : Sys T (Answered W) → Back =
        λ u. record w { around = (record { self = u.self; world = u.world.inner }, x) } in
      let routed : Option F → Outcome × Back = λ r.
        let (o, y) = answer_routed Q elsewhere request r w.around in (o, record w { around = y }) in
      let unchanged =
        subst (λ q. q.1.world ≡ record { answers = []; waiting = none; inner = q.1.world.inner })
          runs (quiet.at (peer w)) in
      (
        left t,
        ap routed route
            ∙ ap (λ q. (Q.respond q.0, left q.1)) runs
            ∙ ap (λ o. (o, left t)) (responds j),
        given_back t unchanged,
      )
