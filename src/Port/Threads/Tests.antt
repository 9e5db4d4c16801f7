-- ===== src/Port/Threads/Tests.antt =====
-- Runs of the threads of the port of Eilat, and the theorems about them.
use software_development_pla.Common.{ℕ, ◌<◌, ◌≡◌, ◌≢◌, refl, inl, some, List, [], ◌∷◌, ℕ_discrete}
use software_development_pla.Port.Quay.{
  init_static_vars, enter_to_barrier, pass_barrier, release_from_barrier, release_vessels,
  find_crane, enter_unloading_quay, wait_for_vessel, finish_unloading, wait_for_crane, leave_quay,
}
use software_development_pla.Port.Quay.Cranes.{IsCounted}
use software_development_pla.Port.Threads.{
  Place, released, at_crane, Yard, Moved, waits, moved, gave_up, out_of_bounds, after_section,
  vessel_step, crane_step, new_yard, Reached, creates, runs, ran_ahead, launch, start, vessel_moves,
  crane_moves,
}
use software_development_pla.Port.Threads.Safety.{crane-exclusion, quay_threads-safe}
use software_development_pla.Port.Threads.Starvation.{IsStuck, Later}
use software_development_pla.Port.Threads.Starvation.Forever.{Later-IsStuck}

data Turn : Type 0 where
  vessel crane : ℕ → Turn

abbrev take_turn : Turn → Yard → Moved
take_turn (vessel v) y = vessel_step v 7 y
take_turn (crane c) y = crane_step c y

abbrev after : Moved → Yard → Yard
after (moved y') y = y'
after _ y = y

-- The threads take these turns; a thread that waits loses its turn.
abbrev play : List Turn → Yard → Yard
play [] y = y
play (t ∷ ts) y = play ts (after (take_turn t y) y)

take_turn-Reached :
    (vessels cranes : ℕ) (t : Turn) (y : Yard)
    → Reached vessels cranes y
    → Reached vessels cranes (after (take_turn t y) y)
take_turn-Reached vessels cranes t y r = go (take_turn t y) refl
  where
    go : (o : Moved) → take_turn t y ≡ o → Reached vessels cranes (after o y)
    go (moved y') e = step t e
      where
        step : (t : Turn) → take_turn t y ≡ moved y' → Reached vessels cranes y'
        step (vessel v) e = vessel_moves v 7 y y' r e
        step (crane c) e = crane_moves c y y' r e
    go waits e = r
    go gave_up e = r
    go out_of_bounds e = r

play-Reached :
    (vessels cranes : ℕ) (ts : List Turn) (y : Yard)
    → Reached vessels cranes y
    → Reached vessels cranes (play ts y)
play-Reached vessels cranes [] y r = r
play-Reached vessels cranes (t ∷ ts) y r =
    play-Reached vessels cranes ts (after (take_turn t y) y)
      (take_turn-Reached vessels cranes t y r)

-- Four vessels and two cranes. The first two vessels come, and the first is served at crane 0.
abbrev first_served : List Turn
first_served =
    vessel 1 ∷ vessel 2 ∷ vessel 1 ∷ vessel 1 ∷ crane 0 ∷ crane 0 ∷ vessel 1 ∷ vessel 1 ∷ []

-- The third comes, which lets two more through; the second is served at crane 0, too, and then the third
-- settles there.
abbrev third_settles : List Turn
third_settles =
    vessel 3
    ∷ vessel 2
    ∷ vessel 2
    ∷ crane 0
    ∷ crane 0
    ∷ vessel 2
    ∷ vessel 2
    ∷ vessel 3
    ∷ vessel 3
    ∷ []

abbrev one_served : Yard
one_served = play first_served (new_yard 4 2)

abbrev crane_0_ended : Yard
crane_0_ended = play third_settles one_served

-- The first crane waits while the second is created.
two_launched : Reached 4 2 (new_yard 4 2)
unfolding launch
two_launched = start (creates ∷ runs 0 ∷ creates ∷ []) refl

-- The thread of a crane comes to its wait before its semaphores are created.
crane_ran_ahead : launch 2 0 (creates ∷ runs 1 ∷ creates ∷ []) ≡ ran_ahead 1
unfolding launch
crane_ran_ahead = refl

abbrev crane_0_ended-Reached : Reached 4 2 crane_0_ended
crane_0_ended-Reached =
    play-Reached 4 2 third_settles one_served
      (play-Reached 4 2 first_served (new_yard 4 2) two_launched)

third_there : crane_0_ended.vessels 3 ≡ at_crane 0
unfolding new_yard init_static_vars vessel_step crane_step after_section enter_to_barrier
    pass_barrier release_from_barrier release_vessels find_crane enter_unloading_quay
    wait_for_vessel finish_unloading wait_for_crane leave_quay ℕ_discrete
third_there = refl

third_IsStuck : IsStuck 3 0 crane_0_ended
unfolding new_yard init_static_vars vessel_step crane_step after_section enter_to_barrier
    pass_barrier release_from_barrier release_vessels find_crane enter_unloading_quay
    wait_for_vessel finish_unloading wait_for_crane leave_quay ℕ_discrete
third_IsStuck = record { here = refl; ended = refl; idle = refl; down = refl }

crane-exclusion_example :
    (◌≡◌ {A = ℕ} 3 3)
    × (0 < crane_0_ended.port.num_of_cranes)
    × (crane_0_ended.port.cranes_vessel_ids 0 ≡ some 3)
    × IsCounted crane_0_ended.port
crane-exclusion_example =
    crane-exclusion 4 2 crane_0_ended 3 3 0 crane_0_ended-Reached (inl third_there)
      (inl third_there)

quay_threads-safe_example :
    ((c : ℕ)
      → (crane_step c crane_0_ended ≢ gave_up)
        × (crane_step c crane_0_ended ≢ out_of_bounds)
        × ((v : ℕ) → (crane_0_ended.cranes c).busy ≡ some v → crane_0_ended.vessels v ≡ at_crane c))
    × ((v draw : ℕ)
        → crane_0_ended.vessels v ≡ released
        → vessel_step v draw crane_0_ended ≢ gave_up)
quay_threads-safe_example = quay_threads-safe 4 2 crane_0_ended crane_0_ended-Reached

-- The fourth vessel is served at crane 1, and the third still waits at crane 0.
abbrev fourth_served : Yard
fourth_served =
    play (vessel 4 ∷ vessel 4 ∷ vessel 4 ∷ crane 1 ∷ crane 1 ∷ vessel 4 ∷ vessel 4 ∷ [])
      crane_0_ended

play-Later : (ts : List Turn) (y y1 : Yard) → Later y y1 → Later y (play ts y1)
play-Later [] y y1 l = l
play-Later (t ∷ ts) y y1 l = play-Later ts y (after (take_turn t y1) y1) (go (take_turn t y1) refl)
  where
    go : (o : Moved) → take_turn t y1 ≡ o → Later y (after o y1)
    go (moved y') e = step t e
      where
        step : (t : Turn) → take_turn t y1 ≡ moved y' → Later y y'
        step (vessel v) e = Later.vessel_moves v 7 y1 y' l e
        step (crane c) e = Later.crane_moves c y1 y' l e
    go waits e = l
    go gave_up e = l
    go out_of_bounds e = l

Later-IsStuck_example : IsStuck 3 0 fourth_served
Later-IsStuck_example = Later-IsStuck 3 0 crane_0_ended fourth_served third_IsStuck (
    play-Later (vessel 4 ∷ vessel 4 ∷ vessel 4 ∷ crane 1 ∷ crane 1 ∷ vessel 4 ∷ vessel 4 ∷ [])
      crane_0_ended crane_0_ended Later.now)

fourth_away : fourth_served.vessels 4 ≡ Place.away
unfolding new_yard init_static_vars vessel_step crane_step after_section enter_to_barrier
    pass_barrier release_from_barrier release_vessels find_crane enter_unloading_quay
    wait_for_vessel finish_unloading wait_for_crane leave_quay ℕ_discrete
fourth_away = refl
