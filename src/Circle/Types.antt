-- ===== src/Circle/Types.antt =====
-- The types of traffic_cycle.c, and its shared arrays as one record.
use software_development_pla.Common.{ℕ, Bool, Option, ℤ}

-- `N`
abbrev pub circle_size : ℕ
circle_size = 5

abbrev pub max_number_of_cars : ℕ
max_number_of_cars = 1000

pub data Direction : Type 0 where
  right up left down : Direction

pub data Corner : Type 0 where
  upper_right upper_left buttom_left buttom_right empty : Corner

pub record Car : Type 0 where
  pub car_id : ℕ
  pub row : ℤ
  pub col : ℤ
  pub generator_id : ℕ
  pub dir : Direction
  pub has_entered_circle : Bool
  pub is_on_exit_corner : Bool
  pub corner : Corner
  pub move : ℕ

-- Where the thread of a car stands in the loop of `moveCar`: at its start; with the mutex of the cell
-- to test, before it has that of the entry; after the test for an exit, before it has the mutex of
-- the next cell.
pub data Place : Type 0 where
  at_start holds_test goes_on : Place

pub record Thread : Type 0 where
  pub car : Car
  pub place : Place

-- Rows of `board` and `cellsMutexes` one after another. `owners` holds who has locked a mutex, and
-- `threads` the running threads with their cars, by car id.
pub record Circle : Type 0 where
  pub next_car_id : ℕ
  pub owners : ℕ → Option ℕ
  pub board : ℕ → Option ℕ
  pub threads : ℕ → Option Thread

-- What a step of a thread ends in: it waits for a mutex, or is done, or indexes out of an array or
-- calls `exit`.
pub data Outcome : Type 0 where
  blocked : Outcome
  done : Circle → Outcome
  fault : Outcome
