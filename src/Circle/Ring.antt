-- ===== src/Circle/Ring.antt =====
-- The sixteen border cells of traffic_cycle.c in the order of the traffic, from the cell on which the
-- cars of generator 0 enter.
use software_development_pla.Common.{
  ℕ, zero, suc, ◌+◌, ◌-◌, ◌*◌, ◌%◌, ◌<◌, ◌≡◌, refl, ltb, ◌==◌, if◌then◌else◌, true, false, some,
  arith, ℤ, pos, increment, decrement, subst,
}
use software_development_pla.Circle.Types.{Direction, right, up, left, down, Car}
use software_development_pla.Circle.Geometry.{
  is_exit_corner, is_on_border, get_next_row_col, cell_indexes_to_check, slot, next_direction,
}
use software_development_pla.Circle.Cars.{init_car, update_car}

abbrev pub ring_size : ℕ
ring_size = 16

abbrev pub ring : ℕ → ℤ × ℤ
ring k =
    if ltb k 4
    then (pos 4, pos k)
    else if ltb k 8
    then (pos (8 - k), pos 4)
    else if ltb k 12
    then (pos 0, pos (12 - k))
    else (pos (k - 12), pos 0)

-- The way on from there.
abbrev pub ring_dir : ℕ → Direction
ring_dir k = if ltb k 4 then right else if ltb k 8 then up else if ltb k 12 then left else down

abbrev pub ring_slot : ℕ → ℕ
ring_slot k =
    if ltb k 4
    then 20 + k
    else if ltb k 8
    then 44 - 5 * k
    else if ltb k 12
    then 12 - k
    else 5 * (k - 12)

abbrev pub next_place : ℕ → ℕ
next_place k = (k + 1) % ring_size

-- The cells that the cars of generator `g` enter, and test before that.
abbrev pub entry : ℕ → ℕ
entry g = 4 * g

abbrev pub tested : ℕ → ℕ
tested g = (4 * g + 15) % ring_size

get_next_row_col-ring :
    (k : ℕ)
    → k < ring_size
    → get_next_row_col (ring k).0 (ring k).1 (ring_dir k) ≡ ring (next_place k)
unfolding get_next_row_col increment decrement
get_next_row_col-ring k h = ground arith

pub slot-ring : (k : ℕ) → k < ring_size → slot (ring k).0 (ring k).1 ≡ some (ring_slot k)
unfolding slot
slot-ring k h = ground arith

is_exit_corner-ring : (k : ℕ) → k < ring_size → is_exit_corner (ring k).0 (ring k).1 ≡ (k % 4 == 0)
unfolding is_exit_corner
is_exit_corner-ring k h = ground arith

pub is_on_border-ring : (k : ℕ) → k < ring_size → is_on_border (ring k).0 (ring k).1 ≡ true
unfolding is_on_border
is_on_border-ring k h = ground arith

ring_slot_injective : (k l : ℕ) → k < ring_size → l < ring_size → ring_slot k ≡ ring_slot l → k ≡ l
ring_slot_injective k l hk hl e = ground arith

ring_dir-next :
    (k : ℕ)
    → k < ring_size
    → ring_dir (next_place k)
      ≡ (if next_place k % 4 == 0 then next_direction (ring_dir k) else ring_dir k)
unfolding next_direction
ring_dir-next k h = ground arith

-- The car is in the circle at place `k`, and heads the way of the traffic.
pub record RidesAt (k : ℕ) (car : Car) : Type 0 where
  pub row_eq : car.row ≡ (ring k).0
  pub col_eq : car.col ≡ (ring k).1
  pub dir_eq : car.dir ≡ ring_dir k
  pub entered : car.has_entered_circle ≡ true

-- One move in the circle, with no other car in the way.
abbrev pub drive : Car → Car
drive car = let next = get_next_row_col car.row car.col car.dir in update_car car next.0 next.1

abbrev pub drives : ℕ → Car → Car
drives zero car = car
drives (suc n) car = drives n (drive car)

pub next-RidesAt :
    (k : ℕ) (car : Car)
    → k < ring_size
    → RidesAt k car
    → get_next_row_col car.row car.col car.dir ≡ ring (next_place k)
next-RidesAt k car h at = rw (at.row_eq, at.col_eq, at.dir_eq, get_next_row_col-ring k h) refl

pub update_car-RidesAt :
    (k : ℕ) (car : Car)
    → k < ring_size
    → RidesAt k car
    → RidesAt (next_place k) (update_car car (ring (next_place k)).0 (ring (next_place k)).1)
unfolding update_car
update_car-RidesAt k car h at = record {
  row_eq = refl;
  col_eq = refl;
  dir_eq =
      ground (arith, is_exit_corner-ring (next_place k), ring_dir-next k h, at.dir_eq, at.entered);
  entered = ground (arith, at.entered);
}

-- A car in the circle visits its sixteen cells in their order, always heads the way of the traffic, and
-- so is back after sixteen moves: `n` moves take it from place `k` to place `(k + n) % 16`.
pub drives-RidesAt :
    (n k : ℕ) (car : Car)
    → k < ring_size
    → RidesAt k car
    → RidesAt ((k + n) % ring_size) (drives n car)
drives-RidesAt zero k car h at = subst (λ x. RidesAt x car) (omega arith) at
drives-RidesAt (suc n) k car h at =
    subst (λ x. RidesAt x (drives n (drive car))) (omega arith)
      (drives-RidesAt n (next_place k) (drive car) (omega arith)
        (rw (next-RidesAt k car h at) (update_car-RidesAt k car h at)))

-- The car of generator `g`, before it has entered the circle.
pub record WaitsAt (g : ℕ) (car : Car) : Type 0 where
  pub next_eq : get_next_row_col car.row car.col car.dir ≡ ring (entry g)
  pub dir_eq : car.dir ≡ ring_dir (entry g)
  pub check_eq : cell_indexes_to_check car.corner ≡ some (ring (tested g))
  pub outside : car.has_entered_circle ≡ false

pub enter-RidesAt :
    (g : ℕ) (car : Car)
    → WaitsAt g car
    → RidesAt (entry g) (record (update_car car (ring (entry g)).0 (ring (entry g)).1) {
      has_entered_circle = true;
    })
unfolding update_car
enter-RidesAt g car at = record {
  row_eq = refl;
  col_eq = refl;
  dir_eq = ground (arith, at.dir_eq, at.outside);
  entered = refl;
}

-- A new car of one of the four generators enters at the corner of its generator, tests the cell from
-- which the traffic comes to that corner, and once it is in, heads the way of the traffic.
pub init_car-WaitsAt :
    (garbage : Car) (g c : ℕ)
    → g < 4
    → let car = init_car garbage g c in
      WaitsAt g car
      × (next_place (tested g) ≡ entry g)
      × RidesAt (entry g) (record (update_car car (ring (entry g)).0 (ring (entry g)).1) {
        has_entered_circle = true;
      })
unfolding init_car get_next_row_col increment decrement cell_indexes_to_check update_car
init_car-WaitsAt garbage g c h = (
  record {
    next_eq = ground arith;
    dir_eq = ground arith;
    check_eq = ground arith;
    outside = ground arith;
  },
  omega arith,
  record {
    row_eq = ground arith;
    col_eq = ground arith;
    dir_eq = ground arith;
    entered = ground arith;
  },
)
