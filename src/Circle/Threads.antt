-- ===== src/Circle/Threads.antt =====
-- `updateBoardAndCar`, the loop of `moveCar` and the births of cars in `carGenerator`, of
-- traffic_cycle.c. A thread runs on from the mutex of a cell that it has got to the next that it
-- asks for, in one step: in between it only gives mutexes back.
use software_development_pla.Common.{
  ℕ, ◌+◌, ltb, leb, if◌then◌else◌, Bool, ◌&&◌, true, false, Option, none, some, ℤ, update,
}
use software_development_pla.Circle.Types.{
  max_number_of_cars, Car, Place, at_start, holds_test, goes_on, Thread, Circle, Outcome, blocked,
  done, fault,
}
use software_development_pla.Circle.Geometry.{get_next_row_col, cell_indexes_to_check, slot}
use software_development_pla.Circle.Cars.{init_car, update_car}

-- Run `next` on the place of `[row][col]`.
unfoldable pub in_bounds : ℤ → ℤ → (ℕ → Outcome) → Outcome
in_bounds row col next = elim (slot row col) [ none ↦ fault | some n ↦ next n ]

-- `pthread_mutex_lock` by car `c`, which waits while the mutex is locked.
unfoldable pub lock : ℕ → ℕ → Circle → (Circle → Outcome) → Outcome
lock c n s next = elim (s.owners n) [
  | some other ↦ blocked
  | none ↦ next (record s { owners = update s.owners n (some c) })
]

abbrev pub unlock : ℕ → Circle → Circle
unlock n s = record s { owners = update s.owners n none }

abbrev pub put_thread : ℕ → Option Thread → Circle → Circle
put_thread c t s = record s { threads = update s.threads c t }

-- The car of thread `c` moves to the cell `next`, whose place is `n`.
unfoldable pub update_board_and_car :
    ℕ → Car → ℤ × ℤ → ℕ → Circle → (Car → Circle → Outcome) → Outcome
update_board_and_car c car (next_row, next_col) n s next =
    let entered = record s { board = update s.board n (some c) } in
    let car' = update_car car next_row next_col in
    if car.has_entered_circle
    then in_bounds car.row car.col
        (λ old. next car' (record entered { board = update entered.board old none }))
    else next car' entered

-- The car takes the entry, and lets go of the cell that it tested.
unfoldable pub enter_circle : ℕ → Car → ℕ → Circle → Outcome
enter_circle c car test s =
    let (next_row, next_col) = get_next_row_col car.row car.col car.dir in
    in_bounds next_row next_col (λ n. lock c n s (λ s1.
      update_board_and_car c car (next_row, next_col) n s1
        (λ car' s2. done (
          put_thread c
            (some (record { car = record car' { has_entered_circle = true }; place = at_start }))
            (unlock test s2)))))

-- Up to `free(car)`.
unfoldable pub exit_circle : ℕ → Car → Circle → Outcome
exit_circle c car s =
    in_bounds car.row car.col
      (λ n. done (put_thread c none (unlock n (record s { board = update s.board n none }))))

unfoldable pub continue_in_circle : ℕ → Car → Circle → Outcome
continue_in_circle c car s =
    let (next_row, next_col) = get_next_row_col car.row car.col car.dir in
    in_bounds next_row next_col (λ n. lock c n s (λ s1.
      update_board_and_car c car (next_row, next_col) n s1
        (λ car' s2. in_bounds car.row car.col (λ old.
          done (put_thread c (some (record { car = car'; place = at_start })) (unlock old s2))))))

-- At the start of the loop. `exits` is what `shouldExitCircle` answers.
unfoldable pub start_move : ℕ → Bool → Car → Circle → Outcome
start_move c exits car s =
    if car.has_entered_circle
    then (if car.is_on_exit_corner && exits
        then exit_circle c car s
        else done (put_thread c (some (record { car = car; place = goes_on })) s))
    else elim (cell_indexes_to_check car.corner) [
      | none ↦ fault
      | some test ↦ in_bounds test.0 test.1 (λ n.
          lock c n s
            (λ s1. done (put_thread c (some (record { car = car; place = holds_test })) s1)))
    ]

-- With the mutex of the cell to test.
unfoldable pub try_to_enter : ℕ → Car → Circle → Outcome
try_to_enter c car s = elim (cell_indexes_to_check car.corner) [
  | none ↦ fault
  | some test ↦ in_bounds test.0 test.1 (λ n. enter_circle c car n s)
]

-- Thread `c` runs to where it next waits, or to the `free` of its car.
unfoldable pub run_car : ℕ → Bool → Thread → Circle → Outcome
run_car c exits t s = elim t.place [
  | at_start ↦ start_move c exits t.car s
  | holds_test ↦ try_to_enter c t.car s
  | goes_on ↦ continue_in_circle c t.car s
]

abbrev pub is_at_start : Place → Bool
is_at_start at_start = true
is_at_start _ = false

-- The car leaves the circle.
abbrev pub leaves : Bool → Thread → Bool
leaves exits t = is_at_start t.place && t.car.has_entered_circle && t.car.is_on_exit_corner && exits

-- The step of thread `c`. A car that leaves is freed, and then its `carID` is read, which is `freed`
-- whatever the memory holds by then, as an index of `car_threads`; that entry only matters when the
-- program ends.
unfoldable pub move_car : ℕ → Bool → ℕ → Thread → Circle → Outcome
move_car c exits freed t s =
    if leaves exits t && leb max_number_of_cars freed then fault else run_car c exits t s

-- One round of the loop of `carGenerator`, with the first state of the thread that it creates.
unfoldable pub car_generator : Car → ℕ → Circle → Outcome
car_generator garbage generator_id s =
    let c = s.next_car_id in
    if ltb c max_number_of_cars
    then done
        (record (put_thread c
          (some (record { car = init_car garbage generator_id c; place = at_start })) s) {
            next_car_id = c + 1;
          })
    else fault
