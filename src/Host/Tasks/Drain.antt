-- ===== src/Host/Tasks/Drain.antt =====
-- Runs of the tasks of a service, one after another, in any order: a run that takes its task from the
-- list and starts none leaves one task less.
use fiu_data_governance.Prelude.{
  ℕ, zero, suc, ◌≤◌, ◌≡◌, ◌∙◌, refl, sym, ap, List, [], ◌∷◌, Option, none, some, length, arith,
}
use fiu_data_governance.Host.Effects.{Sys}
use fiu_data_governance.Host.Tasks.{take_task}

-- A choice, for as many runs as there are tasks, of a position among the tasks that are left.
abbrev pub IsSchedule : List ℕ → ℕ → Type 0
IsSchedule [] k = k ≡ 0
IsSchedule (n ∷ ns) zero = ⊥
IsSchedule (n ∷ ns) (suc k) = (n ≤ k) × IsSchedule ns k

module _ {T : Type 0} where
  -- The tasks that stay when one is taken.
  abbrev pub left : List T → Option (T × List T) → List T
  left ts none = ts
  left ts (some (t, us)) = us

  length-left_push :
      (u : T) (ts : List T) (o : Option (T × List T))
      → suc (length (left ts o)) ≡ length ts
      → length (left (u ∷ ts) (elim o [ none ↦ none | some (t, us) ↦ some (t, u ∷ us) ]))
        ≡ length ts
  length-left_push u ts none h = omega arith
  length-left_push u ts (some (t, us)) h = h

  length-left :
      (n : ℕ) (ts : List T) (k : ℕ)
      → n ≤ k
      → length ts ≡ suc k
      → length (left ts (take_task n ts)) ≡ k
  length-left n [] k h e = omega arith
  length-left zero (u ∷ ts) k h e = omega arith
  length-left (suc n) (u ∷ ts) zero h e = omega arith
  length-left (suc n) (u ∷ ts) (suc k) h e =
      let smaller : n ≤ k = omega arith in
      let rest : length ts ≡ suc k = omega arith in
      length-left_push u ts (take_task n ts) (ap suc (length-left n ts k smaller rest) ∙ sym rest)
      ∙ rest

  no_tasks : (ts : List T) → length ts ≡ 0 → ts ≡ []
  no_tasks [] e = refl
  no_tasks (t ∷ ts) e = absurd (omega arith)

abbrev pub run_each : {S W : Type 0} → (ℕ → Sys S W → Sys S W) → List ℕ → Sys S W → Sys S W
run_each run [] s = s
run_each run (n ∷ ns) s = run_each run ns (run n s)

module _ {S W T : Type 0} (tasks : S → List T) (run : ℕ → Sys S W → Sys S W) where
  -- A run takes its task and starts none.
  abbrev pub TakesOne : Type 0
  TakesOne =
      (n : ℕ) (s : Sys S W)
      → tasks (run n s).self ≡ left (tasks s.self) (take_task n (tasks s.self))

  pub run_each-empties :
      TakesOne
      → (ns : List ℕ) (k : ℕ) (s : Sys S W) → IsSchedule ns k
      → length (tasks s.self) ≡ k
      → tasks (run_each run ns s).self ≡ []
  run_each-empties takes [] k s h e = no_tasks (tasks s.self) (e ∙ h)
  run_each-empties takes (n ∷ ns) zero s h e = elim h [ ]
  run_each-empties takes (n ∷ ns) (suc k) s (h, hs) e =
      run_each-empties takes ns k (run n s) hs
        (ap length (takes n s) ∙ length-left n (tasks s.self) k h e)
