-- ===== src/Interleaving/Beside.antt =====
-- A handler whose peers answer at once, as in Workflow, and the same handler waiting for each answer: the
-- second has the run of the first for the answers that the peers give (client.py).
use mathlib.Core.List.{append_assoc, append-nil}
use mathlib.Core.Path.{subst}
use fiu_data_governance.Prelude.{
  ◌≡◌, refl, sym, ap, ◌∙◌, inl, inr, String, none, some, List, [], ◌∷◌, ◌++◌,
}
use fiu_data_governance.Host.{Host, HttpRequest, Outcome, Action, Sys, ◌>>=◌}
use fiu_data_governance.Python.Errors.{Result, ok, err}
use fiu_data_governance.Interleaving.Replay.{Answered}
use fiu_data_governance.Interleaving.Stops.{Stops, Stops-bind}

-- The world of a service with its peers in it.
pub record Beside (V Y : Type 0) : Type 0 where
  pub own : V
  pub around : Y

module _ {V Y : Type 0} (answer : HttpRequest → Y → Outcome × Y) where
  abbrev local : (V → String × V) → Beside V Y → String × Beside V Y
  local f w = let (text, v) = f w.own in (text, record w { own = v })

  abbrev pub beside : Host V → Host (Beside V Y)
  beside host = record {
    send = λ r w. let (o, y) = answer r w.around in (o, record w { around = y });
    is_error = host.is_error;
    now = local host.now;
    uuid4 = local host.uuid4;
    loads = host.loads;
    dumps = host.dumps;
    b64encode = host.b64encode;
    b64decode = host.b64decode;
    sign = host.sign;
    public_jwk = host.public_jwk;
  }

-- A state with answers to come.
abbrev pub given : {S V : Type 0} → S → List Outcome → V → Sys S (Answered V)
given s os v = record { self = s; world = record { answers = os; waiting = none; inner = v } }

module _ {S V Y A : Type 0} (answer : HttpRequest → Y → Outcome × Y) (n : Action S (Answered V) A)
    (s : S) (v : V) where
  -- The action waits for one answer after the other, after those that it has, and the peers give them.
  abbrev pub Fed : List Outcome → List Outcome → Y → Y → Type 0
  Fed ps [] y z = y ≡ z
  Fed ps (o ∷ os) y z =
      (request : HttpRequest) × (y' : Y) × ((n (given s ps v)).1.world.waiting ≡ some request)
      × (answer request y ≡ (o, y'))
      × Fed (ps ++ o ∷ []) os y' z

-- The state of a service with its peers.
abbrev pub with_peers : {S V Y : Type 0} → S → V → Y → Sys S (Beside V Y)
with_peers s v y = record { self = s; world = record { own = v; around = y } }

-- With the answers that the peers give, the waiting action has the outcome of the other one.
abbrev pub Matches :
    {S V Y A : Type 0}
    → (HttpRequest → Y → Outcome × Y)
    → Result A × Sys S (Beside V Y)
    → Action S (Answered V) A
    → S
    → V
    → Y
    → Type 0
Matches answer (r, t) n s v y =
    (os : List Outcome) × ((us : List Outcome)
      → n (given s (os ++ us) v) ≡ (r, given t.self us t.world.own))
    × Fed answer n s v [] os y t.world.around

pub record Sim {S V Y A : Type 0} (answer : HttpRequest → Y → Outcome × Y)
    (m : Action S (Beside V Y) A) (n : Action S (Answered V) A) : Type 0 where
  pub stops : Stops n
  pub at : (s : S) (v : V) (y : Y) → Matches answer (m (with_peers s v y)) n s v y

module _ {S V Y A B : Type 0} (answer : HttpRequest → Y → Outcome × Y) (n : Action S (Answered V) A)
    (g : A → Action S (Answered V) B) (s : S) (v : V) where
  bind_waits :
      (ps : List Outcome) (request : HttpRequest)
      → Stops n
      → (n (given s ps v)).1.world.waiting ≡ some request
      → ((n >>= g) (given s ps v)).1.world.waiting ≡ some request
  unfolding ◌>>=◌
  bind_waits ps request h w = elim (h.at (given s ps v) refl) [
    | inl quiet ↦ absurd (cc (sym quiet ∙ w))
    | inr raised ↦ rw raised w
  ]

  Fed-append :
      (ps os us : List Outcome) (x y z : Y)
      → Stops n
      → Fed answer n s v ps os x y
      → Fed answer (n >>= g) s v (ps ++ os) us y z
      → Fed answer (n >>= g) s v ps (os ++ us) x z
  Fed-append ps [] us x y z h fed rest =
      subst (λ q. Fed answer (n >>= g) s v ps us q z) (sym fed)
        (subst (λ q. Fed answer (n >>= g) s v q us y z) (append-nil ps) rest)
  Fed-append ps (o ∷ os) us x y z h (request, x', w, sent, fed) rest = (
    request,
    x',
    bind_waits ps request h w,
    sent,
    Fed-append (ps ++ o ∷ []) os us x' y z h fed
        (subst (λ q. Fed answer (n >>= g) s v q us y z) (sym (append_assoc ps (o ∷ []) os)) rest),
  )

module _ {S V Y A B : Type 0} (answer : HttpRequest → Y → Outcome × Y) (n : Action S (Answered V) A)
    (g : A → Action S (Answered V) B) (s s' : S) (v v' : V) (a : A) (os : List Outcome)
    (runs : (us : List Outcome) → n (given s (os ++ us) v) ≡ (ok a, given s' us v')) where
  resumes : (us : List Outcome) → (n >>= g) (given s (os ++ us) v) ≡ g a (given s' us v')
  unfolding ◌>>=◌
  resumes us = rw (runs us) refl

  -- What the second action waits for, the chain waits for after the answers of the first.
  Fed-shift :
      (ps us : List Outcome) (y z : Y)
      → Fed answer (g a) s' v' ps us y z
      → Fed answer (n >>= g) s v (os ++ ps) us y z
  Fed-shift ps [] y z fed = fed
  Fed-shift ps (o ∷ us) y z (request, y', w, sent, fed) = (
    request,
    y',
    ap (λ r. r.1.world.waiting) (resumes ps) ∙ w,
    sent,
    subst (λ q. Fed answer (n >>= g) s v q us y' z) (sym (append_assoc os ps (o ∷ [])))
        (Fed-shift (ps ++ o ∷ []) us y' z fed),
  )

module _ {S V Y A B : Type 0} (answer : HttpRequest → Y → Outcome × Y) where
  bind-Matches :
      (out : Result A × Sys S (Beside V Y)) (w : Sys S (Beside V Y)) (n : Action S (Answered V) A)
      (f : A → Action S (Beside V Y) B) (g : A → Action S (Answered V) B) (s : S) (v : V) (y : Y)
      → Stops n
      → ((a : A) → Sim answer (f a) (g a))
      → Matches answer out n s v y
      → Matches answer (((λ u. out) >>= f) w) (n >>= g) s v y
  unfolding ◌>>=◌
  bind-Matches (ok a, t) w n f g s v y h k (os, runs, fed) =
      let (us, runs', fed') = (k a).at t.self t.world.own t.world.around in
      let z = (f a t).1.world.around in
      (
        os ++ us,
        λ rest.
            ap (λ q. (n >>= g) (given s q v)) (append_assoc os us rest)
            ∙ resumes answer n g s t.self v t.world.own a os runs (us ++ rest)
            ∙ runs' rest,
        Fed-append answer n g s v [] os us _ _ _ h fed (
            subst (λ q. Fed answer (n >>= g) s v q us t.world.around z) (append-nil os)
              (Fed-shift answer n g s t.self v t.world.own a os runs [] us _ _ fed')),
      )
  bind-Matches (err x, t) w n f g s v y h k (os, runs, fed) = (
    os,
    λ rest. rw (runs rest) refl,
    subst (λ q. Fed answer (n >>= g) s v [] q y t.world.around) (append-nil os)
        (Fed-append answer n g s v [] os [] _ _ _ h fed refl),
  )

  pub Sim-bind :
      (m : Action S (Beside V Y) A) (n : Action S (Answered V) A) (f : A → Action S (Beside V Y) B)
      (g : A → Action S (Answered V) B)
      → Sim answer m n
      → ((a : A) → Sim answer (f a) (g a))
      → Sim answer (m >>= f) (n >>= g)
  unfolding ◌>>=◌
  Sim-bind m n f g h k = record {
    stops = Stops-bind n g h.stops (λ a. (k a).stops);
    at = λ s v y.
        bind-Matches (m (with_peers s v y)) (with_peers s v y) n f g s v y h.stops k (h.at s v y);
  }
