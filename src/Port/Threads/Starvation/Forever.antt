-- ===== src/Port/Threads/Starvation/Forever.antt =====
-- A stuck vessel of the port of Eilat stays stuck.
use software_development_pla.Common.{ℕ}
use software_development_pla.Port.Threads.{Yard}
use software_development_pla.Port.Threads.Starvation.{
  IsStuck, Later, now, vessel_moves, crane_moves, vessel_step-IsStuck,
}
use software_development_pla.Port.Threads.Starvation.Cranes.{crane_step-IsStuck}

-- A vessel that waits at a crane whose thread has served its share of vessels, and has not let this one
-- go, is there for good: whatever steps the threads take, it stays at that crane and is not let go.
pub Later-IsStuck : (v c : ℕ) (y y' : Yard) → IsStuck v c y → Later y y' → IsStuck v c y'
Later-IsStuck v c y _ stuck now = stuck
Later-IsStuck v c y _ stuck (vessel_moves w draw y1 y2 l e) =
    vessel_step-IsStuck v c y1 (Later-IsStuck v c y y1 stuck l) w draw y2 e
Later-IsStuck v c y _ stuck (crane_moves d y1 y2 l e) =
    crane_step-IsStuck v c y1 (Later-IsStuck v c y y1 stuck l) d y2 e
