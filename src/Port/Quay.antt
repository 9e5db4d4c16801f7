-- ===== src/Port/Quay.antt =====
-- The barrier and the unloading quay of EilatPort.c. A critical section is one function of the state;
-- the sleeps and the messages leave no trace.
pub mod Barrier
pub mod Cranes
use software_development_pla.Common.{
  ℕ, zero, suc, ◌+◌, ◌-◌, ◌%◌, ltb, leb, ◌==◌, if◌then◌else◌, Bool, true, false, ◌&&◌, Option, none,
  some, update,
}

abbrev pub min_cargo_weight : ℕ
min_cargo_weight = 5

abbrev pub max_cargo_weight : ℕ
max_cargo_weight = 50

-- A crane id of `none` is CRANE_AVAILABLE. `barrier_size` is `barrierTaillIdx + 1`, the number of
-- vessels that have come to the barrier; a semaphore is its count, of at most one.
pub record Port : Type 0 where
  pub num_of_vessels : ℕ
  pub num_of_cranes : ℕ
  pub cranes_with_vessels : ℕ
  pub cranes_vessel_ids : ℕ → Option ℕ
  pub cargo_weights : ℕ → ℕ
  pub vessels_in_barrier : ℕ
  pub is_quay_adt_free : Bool
  pub barrier_queue : ℕ → ℕ
  pub barrier_size : ℕ
  pub barrier_head_idx : ℕ
  pub cranes_in_semaphores : ℕ → ℕ
  pub cranes_out_semaphores : ℕ → ℕ

-- A thread waits for a semaphore, or the section is done, or it ends in `exitWithError`, or it writes
-- out of the bounds of an array.
pub data Section : Type 0 where
  blocked : Section
  done : Port → Section
  failed : Section
  fault : Section

-- `num_of_vessels` and `num_of_cranes` are known; no vessel has come yet.
unfoldable pub init_static_vars : ℕ → ℕ → Port
init_static_vars vessels cranes = record {
  num_of_vessels = vessels;
  num_of_cranes = cranes;
  cranes_with_vessels = 0;
  cranes_vessel_ids = λ _. none;
  cargo_weights = λ _. 0;
  vessels_in_barrier = 0;
  is_quay_adt_free = true;
  barrier_queue = λ _. 0;
  barrier_size = 0;
  barrier_head_idx = 0;
  cranes_in_semaphores = λ _. 0;
  cranes_out_semaphores = λ _. 0;
}

-- The loop, with `n` vessels left to release.
unfoldable pub release_vessels : ℕ → Port → Section
release_vessels zero s = done s
release_vessels (suc n) s =
    let head = s.barrier_head_idx in
    let rest =
      release_vessels n
        (record s { barrier_queue = update s.barrier_queue head 1; barrier_head_idx = head + 1 }) in
    if ltb head s.num_of_vessels
    then (if s.barrier_queue head == 0 then rest else failed)
    else fault

abbrev pub and_then : Section → (Port → Section) → Section
and_then (done s) next = next s
and_then other next = other

unfoldable pub release_from_barrier : Port → Section
release_from_barrier s =
    and_then (release_vessels s.num_of_cranes s)
      (λ s'. done (record s' { is_quay_adt_free = false }))

-- The first section of `enterToBarrier`; the vessel then waits for the semaphore at `barrier_size`, as
-- it was before.
unfoldable pub enter_to_barrier : Port → Section
enter_to_barrier s =
    let arrived : Port = record s {
      vessels_in_barrier = s.vessels_in_barrier + 1;
      barrier_size = s.barrier_size + 1;
    } in
    if s.is_quay_adt_free && leb s.num_of_cranes arrived.vessels_in_barrier
    then release_from_barrier arrived
    else done arrived

-- The wait and the second section.
unfoldable pub pass_barrier : ℕ → Port → Section
pass_barrier ticket s =
    if s.barrier_queue ticket == 0
    then blocked
    else done (record s {
      barrier_queue = update s.barrier_queue ticket 0;
      vessels_in_barrier = s.vessels_in_barrier - 1;
    })

-- The loop, with `n` cranes left from `c` on: the first free one.
unfoldable pub find_crane : (ℕ → Option ℕ) → ℕ → ℕ → Option ℕ
find_crane ids c zero = none
find_crane ids c (suc n) =
    let rest = find_crane ids (c + 1) n in elim (ids c) [ none ↦ some c | some _ ↦ rest ]

-- The vessel settles down at crane `c`, which is told so; `draw` is the result of rand(3).
abbrev pub settle : ℕ → ℕ → ℕ → Port → Port
settle vessel draw c s = record s {
  cranes_vessel_ids = update s.cranes_vessel_ids c (some vessel);
  cranes_with_vessels = s.cranes_with_vessels + 1;
  cargo_weights =
      update s.cargo_weights c (draw % (max_cargo_weight - min_cargo_weight) + min_cargo_weight);
  cranes_in_semaphores = update s.cranes_in_semaphores c 1;
}

-- Where no crane is free, `cargoWeights` is written behind its end.
unfoldable pub enter_unloading_quay : ℕ → ℕ → Port → Section
enter_unloading_quay vessel draw s = elim (find_crane s.cranes_vessel_ids 0 s.num_of_cranes) [
  | none ↦ fault
  | some c ↦ if s.cranes_in_semaphores c == 0 then done (settle vessel draw c s) else failed
]

-- The wait of `Crane` for a vessel.
unfoldable pub wait_for_vessel : ℕ → Port → Section
wait_for_vessel c s =
    if s.cranes_in_semaphores c == 0
    then blocked
    else done (record s { cranes_in_semaphores = update s.cranes_in_semaphores c 0 })

-- `Crane` lets the vessel go.
unfoldable pub finish_unloading : ℕ → Port → Section
finish_unloading c s =
    if s.cranes_out_semaphores c == 0
    then done (record s { cranes_out_semaphores = update s.cranes_out_semaphores c 1 })
    else failed

-- The wait of `Vessel` for its crane.
unfoldable pub wait_for_crane : ℕ → Port → Section
wait_for_crane c s =
    if s.cranes_out_semaphores c == 0
    then blocked
    else done (record s { cranes_out_semaphores = update s.cranes_out_semaphores c 0 })

unfoldable pub leave_quay : ℕ → Port → Section
leave_quay c s =
    let left : Port = record s {
      cranes_vessel_ids = update s.cranes_vessel_ids c none;
      cranes_with_vessels = s.cranes_with_vessels - 1;
      cargo_weights = update s.cargo_weights c 0;
    } in
    let free : Port = record left { is_quay_adt_free = true } in
    if left.cranes_with_vessels == 0
    then (if leb free.num_of_cranes free.vessels_in_barrier
        then release_from_barrier free
        else done free)
    else done left
