-- ===== src/Host/Effects.antt =====
-- A handler is an action on the module's globals `S` and the world `W` around the service. What was
-- written before an exception stays written, so the state comes back beside the exception too.
pub mod Keeps
use fiu_data_governance.Prelude.{◌≡◌, refl, ap}
use fiu_data_governance.Python.Errors.{Exn, Result, ok, err}

pub record Sys (S W : Type 0) : Type 0 where
  pub self : S
  pub world : W

abbrev pub Action : Type 0 → Type 0 → Type 0 → Type 0
Action S W A = Sys S W → Result A × Sys S W

module _ {S W A : Type 0} where
  unfoldable pub pure : A → Action S W A
  pure a s = (ok a, s)

  unfoldable pub raise : Exn → Action S W A
  raise e s = (err e, s)

  -- A computation that reads and writes no state, but may raise.
  unfoldable pub lift : Result A → Action S W A
  lift r s = (r, s)

  -- A read of the globals, which may raise.
  unfoldable pub reads : (S → Result A) → Action S W A
  reads f s = (f s.self, s)

  unfoldable pub gets : (S → A) → Action S W A
  gets f s = (ok (f s.self), s)

  -- A call of the world.
  unfoldable pub ask : (W → A × W) → Action S W A
  ask f s = let (a, w) = f s.world in (ok a, record s { world = w })

module _ {S W : Type 0} where
  unfoldable pub modify : (S → S) → Action S W (Unit {0})
  modify f s = (ok tt, record s { self = f s.self })

module _ {S W A B : Type 0} where
  abbrev resume : Result A → (A → Action S W B) → Action S W B
  resume (ok a) f s = f a s
  resume (err e) f s = (err e, s)

  infixl 10 ◌>>=◌ ◌>>◌
  -- To unfold this is to unfold the actions above too.
  unfoldable pub ◌>>=◌ : Action S W A → (A → Action S W B) → Action S W B
  unfolding pure raise lift reads gets ask modify
  ◌>>=◌ m f s = let (r, s') = m s in resume r f s'

  abbrev pub ◌>>◌ : Action S W A → Action S W B → Action S W B
  m >> k = m >>= λ _. k

  resume-returns :
      (r : Result A) (f : A → Action S W B) (s : Sys S W) {b : B}
      → (resume r f s).0 ≡ ok b
      → (a : A) × (r ≡ ok a) × ((f a s).0 ≡ ok b)
  resume-returns (ok a) f s h = (a, refl, h)
  resume-returns (err e) f s h = cc

  -- A chain of two actions returns only if both do, the second from the state that the first leaves.
  pub >>=-returns :
      (m : Action S W A) (f : A → Action S W B) (s : Sys S W) {b : B}
      → ((m >>= f) s).0 ≡ ok b
      → (a : A) × ((m s).0 ≡ ok a) × ((f a (m s).1).0 ≡ ok b)
  unfolding ◌>>=◌
  >>=-returns m f s h = resume-returns (m s).0 f (m s).1 h

  resume-runs :
      (p : Result A × Sys S W) (f : A → Action S W B) {b : B} {u : Sys S W}
      → resume p.0 f p.1 ≡ (ok b, u)
      → (a : A) × (t : Sys S W) × (p ≡ (ok a, t)) × (f a t ≡ (ok b, u))
  resume-runs (ok a, t) f h = (a, t, refl, h)
  resume-runs (err e, t) f h = cc

  -- The same with the states.
  pub >>=-runs :
      (m : Action S W A) (f : A → Action S W B) (s : Sys S W) {b : B} {u : Sys S W}
      → (m >>= f) s ≡ (ok b, u)
      → (a : A) × (t : Sys S W) × (m s ≡ (ok a, t)) × (f a t ≡ (ok b, u))
  unfolding ◌>>=◌
  >>=-runs m f s h = resume-runs (m s) f h

module _ {S W A B : Type 0} where
  pub gets-returns :
      (f : S → A) (k : A → Action S W B) (s : Sys S W) {b : B}
      → ((gets f >>= k) s).0 ≡ ok b
      → (k (f s.self) s).0 ≡ ok b
  unfolding ◌>>=◌
  gets-returns f k s h = h

module _ {S W A : Type 0} where
  pub lift-runs :
      (r : Result A) (s : Sys S W) {a : A} {t : Sys S W}
      → lift r s ≡ (ok a, t)
      → (r ≡ ok a) × (s ≡ t)
  unfolding lift
  lift-runs r s h = (ap (λ p. p.0) h, ap (λ p. p.1) h)

  pub pure-runs : (x : A) (s : Sys S W) {a : A} {t : Sys S W} → pure x s ≡ (ok a, t) → s ≡ t
  unfolding pure
  pure-runs x s h = ap (λ p. p.1) h

  pub ask-runs :
      (f : W → A × W) (s : Sys S W) {a : A} {t : Sys S W}
      → ask f s ≡ (ok a, t)
      → (f s.world).1 ≡ t.world
  unfolding ask
  ask-runs f s h = ap (λ p. p.1.world) h

module _ {S W A B : Type 0} where
  then_pure_of :
      (r : Result A) (m : Action S W A) (b : B) (s : Sys S W)
      → (m s).0 ≡ r
      → ((m >>= λ a. pure b) s).1 ≡ (m s).1
  unfolding ◌>>=◌
  then_pure_of (ok a) m b s e = rw e refl
  then_pure_of (err x) m b s e = rw e refl

  -- A last return changes no state.
  pub state-then_pure :
      (m : Action S W A) (b : B) (s : Sys S W) → ((m >>= λ a. pure b) s).1 ≡ (m s).1
  state-then_pure m b s = then_pure_of (m s).0 m b s refl
