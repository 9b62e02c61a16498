-- ===== src/Host/Tasks.antt =====
-- The tasks that `asyncio.ensure_future` has started and that have not run.
pub mod Drain
use fiu_data_governance.Prelude.{ℕ, zero, suc, List, [], ◌∷◌, Option, none, some}

-- The task at a position, and the tasks without it.
abbrev pub take_task : {T : Type 0} → ℕ → List T → Option (T × List T)
take_task n [] = none
take_task zero (t ∷ ts) = some (t, ts)
take_task (suc n) (t ∷ ts) = elim (take_task n ts) [ none ↦ none | some (u, us) ↦ some (u, t ∷ us) ]
