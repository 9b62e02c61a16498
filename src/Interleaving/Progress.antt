-- ===== src/Interleaving/Progress.antt =====
-- Where two services that call each other can go on (Interleaving), and where neither can.
use fiu_data_governance.Prelude.{Bool, some, ◌≡◌, ◌⊎◌, inl, inr, List, Option-cases}
use fiu_data_governance.Host.{Sys, HttpRequest, Outcome}
use fiu_data_governance.Interleaving.{
  Program, Proc, idle, busy, IsIdle, awaits, Advance, serve, outside, finish, Move, begin, advance,
}

module _ {S W E T V F : Type 0} (P : Program S W E) (Q : Program T V F) where
  -- `P` waits for a request to `Q`.
  abbrev pub WaitsFor : Proc S W E → Type 0
  WaitsFor p =
      (request : HttpRequest) × (f : F) × (awaits P p ≡ some request) × (Q.route request ≡ some f)

  abbrev pub CanAdvance : Proc S W E → Proc T V F → Type 0
  CanAdvance p q = (p' : Proc S W E) × (q' : Proc T V F) × Advance P Q p q p' q'

  -- A busy service goes on or waits for the other one.
  busy-cases :
      (b : Bool) (s : Sys S W) (e : E) (os : List Outcome) (q : Proc T V F)
      → CanAdvance (busy b s e os) q ⊎ WaitsFor (busy b s e os)
  busy-cases b s e os q = elim (Option-cases (awaits P (busy b s e os))) [
    | inl w ↦ inl (_, _, finish w)
    | inr (request, w) ↦ elim (Option-cases (Q.route request)) [
      | inl r ↦ inl (_, _, outside request Outcome.unreachable w r)
      | inr (f, r) ↦ inr (request, f, w, r)
    ]
  ]

  -- A service that waits for the other one, which is not idle, does not move.
  WaitsFor-Move :
      (May : E → Proc T V F → Type 0) {p p' : Proc S W E} {q q' : Proc T V F}
      → WaitsFor p
      → Move P Q May p q p' q'
      → ⊥
  WaitsFor-Move May (request, f, w, r) (begin e may) = cc
  WaitsFor-Move May (request, f, w, r) (advance (serve other o route)) = cc
  WaitsFor-Move May (request, f, w, r) (advance (outside other o w' r')) = cc
  WaitsFor-Move May (request, f, w, r) (advance (finish w')) = cc

module _ {S W E T V F : Type 0} (P : Program S W E) (Q : Program T V F) where
  -- Each waits for the other.
  abbrev pub IsHung : Proc S W E → Proc T V F → Type 0
  IsHung p q = WaitsFor P Q p × WaitsFor Q P q

  -- What the two can do next without a new event.
  abbrev pub Proceeds : Proc S W E → Proc T V F → Type 0
  Proceeds p q = CanAdvance P Q p q ⊎ CanAdvance Q P q p

  -- A system in which a service is busy goes on, unless each waits for the other.
  pub Proceeds-cases :
      (p : Proc S W E) (q : Proc T V F) → (IsIdle p × IsIdle q) ⊎ (Proceeds p q ⊎ IsHung p q)
  Proceeds-cases (idle s) (idle t) = inl (tt, tt)
  Proceeds-cases (idle s) (busy c t f us) = elim (busy-cases Q P c t f us (idle s)) [
    | inl goes ↦ inr (inl (inr goes))
    | inr (request, e, w, r) ↦ inr (inl (inl (_, _, serve request w r)))
  ]
  Proceeds-cases (busy b s e os) (idle t) = elim (busy-cases P Q b s e os (idle t)) [
    | inl goes ↦ inr (inl (inl goes))
    | inr (request, f, w, r) ↦ inr (inl (inr (_, _, serve request w r)))
  ]
  Proceeds-cases (busy b s e os) (busy c t f us) = elim (busy-cases P Q b s e os (busy c t f us)) [
    | inl goes ↦ inr (inl (inl goes))
    | inr waits ↦ elim (busy-cases Q P c t f us (busy b s e os)) [
      | inl goes ↦ inr (inl (inr goes))
      | inr waits' ↦ inr (inr (waits, waits'))
    ]
  ]

  -- Services that wait for each other stay as they are.
  pub IsHung-Move :
      (May : E → Proc T V F → Type 0) (May' : F → Proc S W E → Type 0) {p p' : Proc S W E}
      {q q' : Proc T V F}
      → IsHung p q
      → ¬ (Move P Q May p q p' q' ⊎ Move Q P May' q p q' p')
  IsHung-Move May May' (w, w') (inl m) = WaitsFor-Move P Q May w m
  IsHung-Move May May' (w, w') (inr m) = WaitsFor-Move Q P May' w' m
