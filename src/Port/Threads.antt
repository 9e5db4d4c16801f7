-- ===== src/Port/Threads.antt =====
-- The threads `Vessel` and `Crane` of EilatPort.c, whose critical sections and waits for semaphores are
-- steps that alternate in any order.
pub mod Kept
pub mod Occupancy
pub mod Runs
pub mod Safety
pub mod Starvation
mod Tests
use software_development_pla.Common.{
  ℕ, ◌+◌, ◌/◌, ◌≡◌, ltb, if◌then◌else◌, Option, none, some, update, ◌==◌, List, [], ◌∷◌,
}
use software_development_pla.Port.Quay.{
  Port, Section, blocked, done, failed, fault, init_static_vars, enter_to_barrier, pass_barrier,
  find_crane, enter_unloading_quay, wait_for_vessel, finish_unloading, wait_for_crane, leave_quay,
}

-- A vessel has not come to the barrier; waits there for the semaphore of its ticket; is on its way to
-- the quay; waits for its crane; was let go by its crane; has left the quay.
pub data Place : Type 0 where
  arriving : Place
  at_barrier : ℕ → Place
  released : Place
  at_crane : ℕ → Place
  let_go : ℕ → Place
  away : Place

-- How many vessels the crane has served, and the vessel that it unloads.
pub record CraneThread : Type 0 where
  pub served : ℕ
  pub busy : Option ℕ

pub record Yard : Type 0 where
  pub port : Port
  pub vessels : ℕ → Place
  pub cranes : ℕ → CraneThread

pub data Moved : Type 0 where
  waits : Moved
  moved : Yard → Moved
  gave_up : Moved
  out_of_bounds : Moved

unfoldable pub after_section : Section → (Port → Yard) → Moved
after_section blocked next = waits
after_section (done s) next = moved (next s)
after_section failed next = gave_up
after_section fault next = out_of_bounds

abbrev pub put_vessel : ℕ → Place → Yard → Port → Yard
put_vessel v p y s = record y { port = s; vessels = update y.vessels v p }

-- Where no crane is free, `enterUnloadingQuay` does not return.
abbrev pub settled_at : Option ℕ → Place
settled_at none = released
settled_at (some c) = at_crane c

-- The next step of `Vessel`; `draw` is the result of rand(3).
unfoldable pub vessel_step : ℕ → ℕ → Yard → Moved
vessel_step v draw y = elim (y.vessels v) [
  | arriving ↦
      after_section (enter_to_barrier y.port) (put_vessel v (at_barrier y.port.barrier_size) y)
  | at_barrier ticket ↦ after_section (pass_barrier ticket y.port) (put_vessel v released y)
  | released ↦
      after_section (enter_unloading_quay v draw y.port)
        (put_vessel v (settled_at (find_crane y.port.cranes_vessel_ids 0 y.port.num_of_cranes)) y)
  | at_crane c ↦ after_section (wait_for_crane c y.port) (put_vessel v (let_go c) y)
  | let_go c ↦ after_section (leave_quay c y.port) (put_vessel v away y)
  | away ↦ waits
]

abbrev pub put_crane : ℕ → CraneThread → Yard → Port → Yard
put_crane c t y s = record y { port = s; cranes = update y.cranes c t }

abbrev pub vessels_per_crane : Port → ℕ
vessels_per_crane s = s.num_of_vessels / s.num_of_cranes

-- The next step of `Crane`.
unfoldable pub crane_step : ℕ → Yard → Moved
crane_step c y =
    let t = y.cranes c in
    elim t.busy [
      | none ↦
          if ltb t.served (vessels_per_crane y.port)
          then after_section (wait_for_vessel c y.port)
              (put_crane c (record t { busy = y.port.cranes_vessel_ids c }) y)
          else waits
      | some _ ↦
          after_section (finish_unloading c y.port)
            (put_crane c (record { served = t.served + 1; busy = none }) y)
    ]

-- The state after `initStaticVars`, where every crane that has run waits.
unfoldable pub new_yard : ℕ → ℕ → Yard
new_yard vessels cranes = record {
  port = init_static_vars vessels cranes;
  vessels = λ _. arriving;
  cranes = λ _. record { served = 0; busy = none };
}

-- While `initStaticVars` creates the threads of the cranes, each before its semaphores: it creates the
-- semaphores of the next crane, or the thread of a crane comes to its first wait.
pub data Launch : Type 0 where
  creates : Launch
  runs : ℕ → Launch

-- All semaphores are there, and no crane came to its wait before; or a crane did, whose wait fails at
-- once, so that it serves a vessel that has not come; or the semaphores of some cranes are missing.
pub data Launched : Type 0 where
  launched unfinished : Launched
  ran_ahead : ℕ → Launched

-- With the semaphores of `created` cranes there.
unfoldable pub launch : ℕ → ℕ → List Launch → Launched
launch cranes created [] = if created == cranes then launched else unfinished
launch cranes created (creates ∷ events) = launch cranes (created + 1) events
launch cranes created (runs c ∷ events) =
    let rest = launch cranes created events in if ltb c created then rest else ran_ahead c

-- The runs of a port of that many vessels and cranes, in which threads of any number take steps, where no
-- crane has run ahead of its semaphores.
pub data Reached (vessels cranes : ℕ) : Yard → Type 0 where
  start :
      (events : List Launch)
      → launch cranes 0 events ≡ launched
      → Reached vessels cranes (new_yard vessels cranes)
  vessel_moves :
      (v draw : ℕ) (y y' : Yard)
      → Reached vessels cranes y
      → vessel_step v draw y ≡ moved y'
      → Reached vessels cranes y'
  crane_moves :
      (c : ℕ) (y y' : Yard)
      → Reached vessels cranes y
      → crane_step c y ≡ moved y'
      → Reached vessels cranes y'
