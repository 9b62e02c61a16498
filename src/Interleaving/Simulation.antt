-- ===== src/Interleaving/Simulation.antt =====
-- The same of each way to build a handler, and of the requests of the client (client.py).
use fiu_data_governance.Prelude.{
  ◌≡◌, ◌∙◌, refl, sym, ap, inl, inr, String, Bool, true, false, [], ◌∷◌, if◌then◌else◌,
}
use fiu_data_governance.Host.{
  Host, HttpRequest, Outcome, response, unreachable, Action, pure, raise, lift, reads, gets, modify,
  ask, ◌>>=◌,
}
use fiu_data_governance.Client.{make_url, request_error, post_json_request, get_json_request}
use fiu_data_governance.Client.Failures.{
  post_request, get_request, reply, post_json_request_lem, get_json_request_lem,
}
use fiu_data_governance.Python.Errors.{Exn, Result, Result-cases}
use fiu_data_governance.Python.Json.{Json}
use fiu_data_governance.Interleaving.Replay.{Answered, replay}
use fiu_data_governance.Interleaving.Stops.{
  Stops-pure, Stops-raise, Stops-lift, Stops-reads, Stops-gets, Stops-modify, Stops-now,
  Stops-uuid4, Stops-post_json_request, Stops-get_json_request,
}
use fiu_data_governance.Interleaving.Beside.{
  Beside, beside, given, with_peers, Matches, Sim, Sim-bind,
}

module _ {S V Y A : Type 0} {answer : HttpRequest → Y → Outcome × Y} where
  pub Sim-pure : (a : A) → Sim {S = S} {V = V} answer (pure a) (pure a)
  unfolding pure
  Sim-pure a = record { stops = Stops-pure a; at = λ s v y. ([], λ us. refl, refl) }

  pub Sim-raise : (e : Exn) → Sim {S = S} {V = V} {A = A} answer (raise e) (raise e)
  unfolding raise
  Sim-raise e = record { stops = Stops-raise e; at = λ s v y. ([], λ us. refl, refl) }

  pub Sim-lift : (r : Result A) → Sim {S = S} {V = V} answer (lift r) (lift r)
  unfolding lift
  Sim-lift r = record { stops = Stops-lift r; at = λ s v y. ([], λ us. refl, refl) }

  pub Sim-reads : (f : S → Result A) → Sim {V = V} answer (reads f) (reads f)
  unfolding reads
  Sim-reads f = record { stops = Stops-reads f; at = λ s v y. ([], λ us. refl, refl) }

  pub Sim-gets : (f : S → A) → Sim {V = V} answer (gets f) (gets f)
  unfolding gets
  Sim-gets f = record { stops = Stops-gets f; at = λ s v y. ([], λ us. refl, refl) }

  pub Sim-if :
      (b : Bool) (m m' : Action S (Beside V Y) A) (n n' : Action S (Answered V) A)
      → Sim answer m n
      → Sim answer m' n'
      → Sim answer (if b then m else m') (if b then n else n')
  Sim-if true m m' n n' h k = h
  Sim-if false m m' n n' h k = k

module _ {S V Y : Type 0} {answer : HttpRequest → Y → Outcome × Y} where
  pub Sim-modify : (f : S → S) → Sim {V = V} answer (modify f) (modify f)
  unfolding modify
  Sim-modify f = record { stops = Stops-modify f; at = λ s v y. ([], λ us. refl, refl) }

same_reply :
    {V Y : Type 0} (answer : HttpRequest → Y → Outcome × Y) (host : Host V) (o : Outcome)
    → reply (beside answer host) o ≡ reply (replay host) o
unfolding request_error
same_reply answer host (response status text) = refl
same_reply answer host unreachable = refl

module _ {S V Y : Type 0} {answer : HttpRequest → Y → Outcome × Y} (host : Host V) where
  pub Sim-now : Sim {S = S} answer (ask (beside answer host).now) (ask (replay host).now)
  unfolding ask
  Sim-now = record { stops = Stops-now host; at = λ s v y. ([], λ us. refl, refl) }

  pub Sim-uuid4 : Sim {S = S} answer (ask (beside answer host).uuid4) (ask (replay host).uuid4)
  unfolding ask
  Sim-uuid4 = record { stops = Stops-uuid4 host; at = λ s v y. ([], λ us. refl, refl) }

  module _ (verify : Bool) where
    pub Sim-post_json_request :
        (endpoint path : String) (body : Json)
        → Sim {S = S} answer
            (post_json_request (beside answer host) verify endpoint path body)
            (post_json_request (replay host) verify endpoint path body)
    Sim-post_json_request endpoint path body = record {
      stops = Stops-post_json_request host verify endpoint path body;
      at = λ s v y. elim (Result-cases (make_url endpoint path)) [
        | inr (x, e) ↦ unfold post_json_request ◌>>=◌ in rw e ([], λ us. refl, refl)
        | inl (url, e) ↦
            let request = post_request verify url body in
            let call = post_json_request_lem (replay host) {S = S} verify endpoint path url body in
            let (o, z) = answer request y in
            rw (post_json_request_lem (beside answer host) verify endpoint path url body _ e) (
              o ∷ [],
              λ us.
                  call (given s (o ∷ us) v) e
                  ∙ ap (λ q. (q, given s us v)) (sym (same_reply answer host o)),
              (request, z, ap (λ q. q.1.world.waiting) (call (given s [] v) e), refl, refl),
            )
      ];
    }

    pub Sim-get_json_request :
        (endpoint path : String) (query : Json)
        → Sim {S = S} answer
            (get_json_request (beside answer host) verify endpoint path query)
            (get_json_request (replay host) verify endpoint path query)
    Sim-get_json_request endpoint path query = record {
      stops = Stops-get_json_request host verify endpoint path query;
      at = λ s v y. elim (Result-cases (make_url endpoint path)) [
        | inr (x, e) ↦ unfold get_json_request ◌>>=◌ in rw e ([], λ us. refl, refl)
        | inl (url, e) ↦
            let request = get_request verify url query in
            let call = get_json_request_lem (replay host) {S = S} verify endpoint path url query in
            let (o, z) = answer request y in
            rw (get_json_request_lem (beside answer host) verify endpoint path url query _ e) (
              o ∷ [],
              λ us.
                  call (given s (o ∷ us) v) e
                  ∙ ap (λ q. (q, given s us v)) (sym (same_reply answer host o)),
              (request, z, ap (λ q. q.1.world.waiting) (call (given s [] v) e), refl, refl),
            )
      ];
    }

pub ruleset sim_rules = (
  Sim-pure, Sim-raise, Sim-lift, Sim-reads, Sim-gets, Sim-if, Sim-modify, Sim-now, Sim-uuid4,
  Sim-post_json_request, Sim-get_json_request, Sim-bind,
)
