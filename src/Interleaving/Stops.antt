-- ===== src/Interleaving/Stops.antt =====
-- A handler that waits for an answer has stopped at its request: nothing in it ran after the request
-- (account-aggregator/src and financial-information-user/src, main.py, controller.py and client.py).
use fiu_data_governance.Prelude.{
  ◌≡◌, refl, ap, ◌⊎◌, inl, inr, Bool, true, false, none, String, List, [], ◌∷◌, if◌then◌else◌,
  string_eq,
}
use fiu_data_governance.Host.{
  Host, HttpRequest, Outcome, unreachable, Action, Sys, pure, raise, lift, reads, gets, modify, ask,
  ◌>>=◌,
}
use fiu_data_governance.Client.{make_url, post_json_request, get_json_request}
use fiu_data_governance.Client.Failures.{
  post_request, get_request, reply, post_json_request_lem, get_json_request_lem,
}
use fiu_data_governance.Python.Errors.{Exn, Result, ok, err, Result-cases}
use fiu_data_governance.Python.Json.{Json}
use fiu_data_governance.Interleaving.Replay.{Answered, send, replay}

-- The action raises where it waits.
pub record Stops {S W A : Type 0} (m : Action S (Answered W) A) : Type 0 where
  pub at :
      (s : Sys S (Answered W))
      → s.world.waiting ≡ none
      → ((m s).1.world.waiting ≡ none) ⊎ ((m s).0 ≡ err Exn.connection_error)

module _ {S W A : Type 0} where
  pub Stops-pure : (a : A) → Stops {S = S} {W = W} (pure a)
  unfolding pure
  Stops-pure a = record { at = λ s h. inl h }

  pub Stops-raise : (e : Exn) → Stops {S = S} {W = W} {A = A} (raise e)
  unfolding raise
  Stops-raise e = record { at = λ s h. inl h }

  pub Stops-lift : (r : Result A) → Stops {S = S} {W = W} (lift r)
  unfolding lift
  Stops-lift r = record { at = λ s h. inl h }

  pub Stops-reads : (f : S → Result A) → Stops {S = S} {W = W} (reads f)
  unfolding reads
  Stops-reads f = record { at = λ s h. inl h }

  pub Stops-gets : (f : S → A) → Stops {S = S} {W = W} (gets f)
  unfolding gets
  Stops-gets f = record { at = λ s h. inl h }

  pub Stops-if :
      (b : Bool) (m n : Action S (Answered W) A) → Stops m → Stops n → Stops (if b then m else n)
  Stops-if true m n h k = h
  Stops-if false m n h k = k

-- A request is answered, or it waits and counts as not answered.
send-cases :
    {W : Type 0} (os : List Outcome) (request : HttpRequest) (w : Answered W)
    → w.answers ≡ os
    → w.waiting ≡ none
    → ((send request w).1.waiting ≡ none) ⊎ ((send request w).0 ≡ unreachable)
send-cases [] request w e h = rw e (inr refl)
send-cases (o ∷ os) request w e h = rw e (inl h)

module _ {S W : Type 0} where
  pub Stops-modify : (f : S → S) → Stops {S = S} {W = W} (modify f)
  unfolding modify
  Stops-modify f = record { at = λ s h. inl h }

  pub Stops-now : (host : Host W) → Stops {S = S} (ask (replay host).now)
  unfolding ask
  Stops-now host = record { at = λ s h. inl h }

  pub Stops-uuid4 : (host : Host W) → Stops {S = S} (ask (replay host).uuid4)
  unfolding ask
  Stops-uuid4 host = record { at = λ s h. inl h }

  module _ (host : Host W) (verify : Bool) where
    -- What the client makes of it.
    reply-cases :
        (request : HttpRequest) (s : Sys S (Answered W))
        → s.world.waiting ≡ none
        → ((send request s.world).1.waiting ≡ none)
          ⊎ (reply (replay host) (send request s.world).0 ≡ err Exn.connection_error)
    reply-cases request s h = elim (send-cases s.world.answers request s.world refl h) [
      | inl quiet ↦ inl quiet
      | inr missing ↦ inr (ap (reply (replay host)) missing)
    ]

    pub Stops-post_json_request :
        (endpoint path : String) (body : Json)
        → Stops {S = S} (post_json_request (replay host) verify endpoint path body)
    Stops-post_json_request endpoint path body = record {
      at = λ s h. elim (Result-cases (make_url endpoint path)) [
        | inl (url, e) ↦
            rw (post_json_request_lem (replay host) verify endpoint path url body s e)
              (reply-cases (post_request verify url body) s h)
        | inr (x, e) ↦ unfold post_json_request ◌>>=◌ in rw e (inl h)
      ];
    }

    pub Stops-get_json_request :
        (endpoint path : String) (query : Json)
        → Stops {S = S} (get_json_request (replay host) verify endpoint path query)
    Stops-get_json_request endpoint path query = record {
      at = λ s h. elim (Result-cases (make_url endpoint path)) [
        | inl (url, e) ↦
            rw (get_json_request_lem (replay host) verify endpoint path url query s e)
              (reply-cases (get_request verify url query) s h)
        | inr (x, e) ↦ unfold get_json_request ◌>>=◌ in rw e (inl h)
      ];
    }

module _ {S W A B : Type 0} where
  resume-Stops :
      (r : Result A) (m : Action S (Answered W) A) (f : A → Action S (Answered W) B)
      (s : Sys S (Answered W))
      → ((a : A) → Stops (f a))
      → ((m s).1.world.waiting ≡ none) ⊎ ((m s).0 ≡ err Exn.connection_error)
      → (m s).0 ≡ r
      → (((m >>= f) s).1.world.waiting ≡ none) ⊎ (((m >>= f) s).0 ≡ err Exn.connection_error)
  unfolding ◌>>=◌
  resume-Stops (ok a) m f s k (inl h) e = rw e ((k a).at (m s).1 h)
  resume-Stops (ok a) m f s k (inr h) e = cc
  resume-Stops (err x) m f s k (inl h) e = rw e (inl h)
  resume-Stops (err x) m f s k (inr h) e = rw h (inr refl)

  pub Stops-bind :
      (m : Action S (Answered W) A) (f : A → Action S (Answered W) B)
      → Stops m
      → ((a : A) → Stops (f a))
      → Stops (m >>= f)
  Stops-bind m f q k = record { at = λ s h. resume-Stops (m s).0 m f s k (q.at s h) refl }

pub ruleset stops_rules = (
  Stops-pure, Stops-raise, Stops-lift, Stops-reads, Stops-gets, Stops-if, Stops-modify, Stops-now,
  Stops-uuid4, Stops-post_json_request, Stops-get_json_request, Stops-bind,
)
