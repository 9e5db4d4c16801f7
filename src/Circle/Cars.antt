-- ===== src/Circle/Cars.antt =====
-- `initCar` and the changes that `updateBoardAndCar` makes to a car, of traffic_cycle.c.
use software_development_pla.Common.{ℕ, ◌-◌, ◌==◌, if◌then◌else◌, ◌&&◌, true, false, ℤ, pos, negsuc}
use software_development_pla.Circle.Types.{
  circle_size, Direction, right, up, left, down, Corner, upper_right, upper_left, buttom_left,
  buttom_right, Car,
}
use software_development_pla.Circle.Geometry.{get_corner_type, is_exit_corner, next_direction}

abbrev pub new_car : ℕ → ℕ → ℤ → ℤ → Direction → Corner → Car
new_car generator_id car_id row col dir corner = record {
  car_id = car_id;
  row = row;
  col = col;
  generator_id = generator_id;
  dir = dir;
  has_entered_circle = false;
  is_on_exit_corner = false;
  corner = corner;
  move = 0;
}

-- `garbage` is what the new allocation holds, which another generator id would leave there.
unfoldable pub init_car : Car → ℕ → ℕ → Car
init_car garbage g c =
    if g == 0
    then new_car g c (pos (circle_size - 1)) (negsuc 0) right buttom_left
    else if g == 1
    then new_car g c (pos circle_size) (pos (circle_size - 1)) up buttom_right
    else if g == 2
    then new_car g c (pos 0) (pos circle_size) left upper_right
    else if g == 3
    then new_car g c (negsuc 0) (pos 0) down upper_left
    else new_car g c garbage.row garbage.col garbage.dir garbage.corner

-- The end of `updateBoardAndCar`, without the board.
unfoldable pub update_car : Car → ℤ → ℤ → Car
unfolding is_exit_corner get_corner_type next_direction
update_car car next_row next_col =
    let turned : Car =
      if is_exit_corner next_row next_col && car.has_entered_circle
      then record car {
        is_on_exit_corner = true;
        dir = next_direction car.dir;
        corner = get_corner_type next_row next_col;
      }
      else record car { is_on_exit_corner = false } in
    record turned { row = next_row; col = next_col }
