-- ===== src/Circle/Tests.antt =====
-- A run of the traffic circle, and the theorems about it at that run.
use software_development_pla.Common.{
  ◌≤◌, [], ◌∷◌, ℕ, ℕ_discrete, ◌+◌, ◌%◌, ◌≡◌, ◌↔◌, refl, true, false, some, arith, pos, decrement,
}
use software_development_pla.Circle.Types.{
  Car, right, empty, at_start, holds_test, Thread, Circle, Outcome, done, fault,
}
use software_development_pla.Circle.Geometry.{
  get_next_row_col, cell_indexes_to_check, slot, is_on_border,
}
use software_development_pla.Circle.Cars.{new_car, init_car, update_car}
use software_development_pla.Circle.Threads.{
  in_bounds, lock, update_board_and_car, enter_circle, start_move, try_to_enter, run_car, leaves,
  move_car, car_generator,
}
use software_development_pla.Circle.Print.{cell_symbol, print_row}
use software_development_pla.Circle.Ring.{
  ring_size, ring, next_place, entry, tested, drives, RidesAt, WaitsAt, drives-RidesAt,
  init_car-WaitsAt,
}
use software_development_pla.Circle.Exclusion.Runs.{
  empty_circle, Reached, start, born, moved, move_car-fault_iff, has_its_cell, exclusion, board_iff,
}

abbrev garbage : Car
garbage = new_car 7 7 (pos 0) (pos 0) right empty

abbrev after : Outcome → Circle
after (done s) = s
after _ = empty_circle

abbrev waiting_thread : Thread
waiting_thread = record { car = init_car garbage 2 0; place = at_start }

abbrev testing_thread : Thread
testing_thread = record { car = init_car garbage 2 0; place = holds_test }

-- A car of generator 2 is born, tests the cell at row 1, column 4, and enters at row 0, column 4.
abbrev one_born : Circle
one_born = after (car_generator garbage 2 empty_circle)

abbrev one_testing : Circle
one_testing = after (move_car 0 false 0 waiting_thread one_born)

abbrev one_inside : Circle
one_inside = after (move_car 0 false 0 testing_thread one_testing)

abbrev inside_thread : Thread
inside_thread = record {
  car = record (update_car (init_car garbage 2 0) (pos 0) (pos 4)) { has_entered_circle = true };
  place = at_start;
}

one_inside-Reached : Reached one_inside
unfolding car_generator run_car move_car start_move try_to_enter enter_circle update_board_and_car
    init_car cell_indexes_to_check get_next_row_col in_bounds lock slot decrement ℕ_discrete
one_inside-Reached =
    moved 0 false 0 testing_thread one_testing one_inside
      (moved 0 false 0 waiting_thread one_born one_testing
        (born garbage 2 empty_circle one_born (omega arith) start refl) refl refl)
      refl refl

inside_running : one_inside.threads 0 ≡ some inside_thread
unfolding car_generator run_car move_car start_move try_to_enter enter_circle update_board_and_car
    init_car cell_indexes_to_check get_next_row_col in_bounds lock slot decrement ℕ_discrete
inside_running = refl

inside_entered : inside_thread.car.has_entered_circle ≡ true
inside_entered = refl

-- The first row that `printBoard` prints then.
one_inside_printed : print_row 0 0 5 one_inside ≡ b' ' ∷ b' ' ∷ b' ' ∷ b' ' ∷ b'*' ∷ b'\n' ∷ []
unfolding car_generator run_car move_car start_move try_to_enter enter_circle update_board_and_car
    init_car cell_indexes_to_check get_next_row_col in_bounds lock slot decrement ℕ_discrete
    print_row cell_symbol is_on_border
one_inside_printed = refl

-- The memory of the car still holds its number.
move_car-fault_iff_example :
    (move_car 0 true 0 inside_thread one_inside ≡ fault)
    ↔ ((leaves true inside_thread ≡ true) × (1000 ≤ 0))
move_car-fault_iff_example =
    move_car-fault_iff 0 true 0 inside_thread one_inside one_inside-Reached inside_running

has_its_cell_example :
    (is_on_border inside_thread.car.row inside_thread.car.col ≡ true)
    × ((n : ℕ) × (slot inside_thread.car.row inside_thread.car.col ≡ some n)
        × (one_inside.board n ≡ some 0)
        × (one_inside.owners n ≡ some 0))
has_its_cell_example =
    has_its_cell one_inside 0 inside_thread one_inside-Reached inside_running inside_entered

exclusion_example : ◌≡◌ {A = ℕ} 0 0
exclusion_example =
    exclusion one_inside 0 0 inside_thread inside_thread one_inside-Reached inside_running
      inside_running inside_entered inside_entered refl refl

board_iff_example : (one_inside.board 4 ≡ some 0) ↔ (
    (t : Thread) × (one_inside.threads 0 ≡ some t)
    × (t.car.has_entered_circle ≡ true)
    × (slot t.car.row t.car.col ≡ some 4))
board_iff_example = board_iff one_inside 4 0 one_inside-Reached

init_car-WaitsAt_example :
    let car = init_car garbage 3 9 in
    WaitsAt 3 car
    × (next_place (tested 3) ≡ entry 3)
    × RidesAt (entry 3) (record (update_car car (ring (entry 3)).0 (ring (entry 3)).1) {
      has_entered_circle = true;
    })
init_car-WaitsAt_example = init_car-WaitsAt garbage 3 9 (omega arith)

-- Twenty moves from the corner on which the cars of generator 3 enter.
drives-RidesAt_example :
    let car = init_car garbage 3 9 in
    RidesAt
      ((12 + 20) % ring_size)
      (drives 20 (record (update_car car (ring 12).0 (ring 12).1) { has_entered_circle = true }))
drives-RidesAt_example =
    drives-RidesAt 20 12
      (record (update_car (init_car garbage 3 9) (ring 12).0 (ring 12).1) {
        has_entered_circle = true;
      })
      (omega arith) init_car-WaitsAt_example.2
