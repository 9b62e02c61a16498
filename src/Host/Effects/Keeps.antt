-- ===== src/Host/Effects/Keeps.antt =====
-- What an action keeps true of the globals, one rule for each way to build an action.
use fiu_data_governance.Prelude.{◌≡◌, refl, Bool, true, false, if◌then◌else◌}
use fiu_data_governance.Python.Errors.{Exn, Result, ok, err}
use fiu_data_governance.Host.Effects.{
  Sys, Action, pure, raise, lift, reads, gets, ask, modify, ◌>>=◌, >>=-returns,
}

-- `P` holds of the globals after the action, whether it returns or raises, if it held before.
pub record Keeps {S W A : Type 0} (P : S → Type 0) (m : Action S W A) : Type 0 where
  pub at : (s : Sys S W) → P s.self → P (m s).1.self

module _ {S W A : Type 0} {P : S → Type 0} where
  pub Keeps-pure : (a : A) → Keeps {W = W} P (pure a)
  unfolding pure
  Keeps-pure a = record { at = λ s h. h }

  pub Keeps-raise : (e : Exn) → Keeps {W = W} {A = A} P (raise e)
  unfolding raise
  Keeps-raise e = record { at = λ s h. h }

  pub Keeps-lift : (r : Result A) → Keeps {W = W} P (lift r)
  unfolding lift
  Keeps-lift r = record { at = λ s h. h }

  pub Keeps-reads : (f : S → Result A) → Keeps {W = W} P (reads f)
  unfolding reads
  Keeps-reads f = record { at = λ s h. h }

  pub Keeps-gets : (f : S → A) → Keeps {W = W} P (gets f)
  unfolding gets
  Keeps-gets f = record { at = λ s h. h }

  pub Keeps-ask : (f : W → A × W) → Keeps {S = S} P (ask f)
  unfolding ask
  Keeps-ask f = record { at = λ s h. h }

  pub Keeps-if :
      (b : Bool) (m n : Action S W A) → Keeps P m → Keeps P n → Keeps P (if b then m else n)
  Keeps-if true m n km kn = km
  Keeps-if false m n km kn = kn

module _ {S W : Type 0} {P : S → Type 0} where
  pub Keeps-modify : (f : S → S) → ((s : S) → P s → P (f s)) → Keeps {W = W} P (modify f)
  unfolding modify
  Keeps-modify f k = record { at = λ s h. k s.self h }

module _ {S W A B : Type 0} {P : S → Type 0} where
  resume-keeps :
      (r : Result A) (m : Action S W A) (f : A → Action S W B) (s : Sys S W)
      → ((a : A) → Keeps P (f a))
      → P (m s).1.self
      → (m s).0 ≡ r
      → P ((m >>= f) s).1.self
  unfolding ◌>>=◌
  resume-keeps (ok a) m f s kf h e = rw e ((kf a).at (m s).1 h)
  resume-keeps (err x) m f s kf h e = rw e h

  pub Keeps-bind :
      (m : Action S W A) (f : A → Action S W B)
      → Keeps P m
      → ((a : A) → Keeps P (f a))
      → Keeps P (m >>= f)
  Keeps-bind m f km kf = record { at = λ s h. resume-keeps (m s).0 m f s kf (km.at s h) refl }

  -- What follows a computation without effects may use what that computed.
  pub Keeps-lift-then :
      (r : Result A) (f : A → Action S W B)
      → ((a : A) → r ≡ ok a → Keeps P (f a))
      → Keeps P (lift r >>= f)
  unfolding ◌>>=◌
  Keeps-lift-then (ok a) f k = record { at = λ s h. (k a refl).at s h }
  Keeps-lift-then (err e) f k = record { at = λ s h. h }

pub ruleset keeps_rules =
    (Keeps-pure, Keeps-raise, Keeps-lift, Keeps-reads, Keeps-gets, Keeps-ask, Keeps-if, Keeps-bind)

-- What holds after the first action holds after the rest, which keeps it.
pub then-keeps :
    {S W A B : Type 0} (P : S → Type 0) (m : Action S W A) (f : A → Action S W B) (s : Sys S W)
    → P (m s).1.self
    → ((a : A) → Keeps P (f a))
    → P ((m >>= f) s).1.self
then-keeps P m f s h kf = resume-keeps (m s).0 m f s kf h refl

-- `P` holds after the action from `s`, and after a return `Q` too.
pub record Leads {S W A : Type 0} (P Q : S → Type 0) (m : Action S W A) (s : Sys S W) : Type 0 where
  pub always : P (m s).1.self
  pub returned : (a : A) → (m s).0 ≡ ok a → Q (m s).1.self

module _ {S W A B : Type 0} (P Q : S → Type 0) (m : Action S W A) (f : A → Action S W B) where
  leads-resume :
      (r : Result A) (s : Sys S W)
      → Leads P Q m s
      → ((a : A) (t : Sys S W) → Q t.self → P (f a t).1.self)
      → (m s).0 ≡ r
      → P ((m >>= f) s).1.self
  unfolding ◌>>=◌
  leads-resume (ok a) s l k e = rw e (k a (m s).1 (l.returned a e))
  leads-resume (err x) s l k e = rw e l.always

  state-after_return : (s : Sys S W) (a : A) → (m s).0 ≡ ok a → ((m >>= f) s).1 ≡ (f a (m s).1).1
  unfolding ◌>>=◌
  state-after_return s a e = rw e

  -- The rest of the chain may use `Q`.
  pub Leads-then :
      (s : Sys S W)
      → Leads P Q m s
      → ((a : A) (t : Sys S W) → Q t.self → P (f a t).1.self)
      → P ((m >>= f) s).1.self
  Leads-then s l k = leads-resume (m s).0 s l k refl

  pub Leads-bind :
      (s : Sys S W)
      → Leads P Q m s
      → ((a : A) → Keeps Q (f a))
      → ((t : S) → Q t → P t)
      → Leads P Q (m >>= f) s
  Leads-bind s l k weak = record {
    always = Leads-then s l (λ a t q. weak (f a t).1.self ((k a).at t q));
    returned = λ b h.
        let (a, p, q) = >>=-returns m f s h in
        rw (state-after_return s a p) ((k a).at (m s).1 (l.returned a p));
  }
