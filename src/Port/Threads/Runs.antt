-- ===== src/Port/Threads/Runs.antt =====
-- The runs of the threads of the port of Eilat.
use software_development_pla.Common.{ℕ, refl, sym, none, weigh-eq-zero}
use software_development_pla.Port.Quay.{init_static_vars}
use software_development_pla.Port.Quay.Cranes.{occupied}
use software_development_pla.Port.Threads.{
  Yard, new_yard, Reached, start, vessel_moves, crane_moves,
}
use software_development_pla.Port.Threads.Occupancy.{Phase, free, Orderly}
use software_development_pla.Port.Threads.Occupancy.Kept.{vessel_step-Keeps, crane_step-Keeps}

new_yard-Orderly : (vessels cranes : ℕ) → Orderly (λ _. free) (new_yard vessels cranes)
unfolding new_yard init_static_vars
new_yard-Orderly vessels cranes = record {
  ids = λ e. refl;
  ins = λ e. refl;
  outs = λ e. refl;
  busy = λ e. refl;
  waiting = λ n c. (λ e. cc, λ e. cc);
  going = λ n c. (λ e. cc, λ e. cc);
  within = λ e v h. absurd (cc h);
  counted = sym (weigh-eq-zero occupied (λ _. none) cranes (λ i. refl));
}

pub reached-Orderly :
    (vessels cranes : ℕ) (y : Yard)
    → Reached vessels cranes y
    → (phase : ℕ → Phase) × Orderly phase y
reached-Orderly vessels cranes _ (start events e) = (_, new_yard-Orderly vessels cranes)
reached-Orderly vessels cranes _ (vessel_moves v draw y y' r e) =
    let (phase, ok) = reached-Orderly vessels cranes y r in vessel_step-Keeps phase y ok v draw y' e
reached-Orderly vessels cranes _ (crane_moves c y y' r e) =
    let (phase, ok) = reached-Orderly vessels cranes y r in crane_step-Keeps phase y ok c y' e
