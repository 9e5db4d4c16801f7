-- ===== src/Circle/Geometry.antt =====
-- `getCornerType`, `isOnExitCorner`, `isOnBorder`, `getNextRowCol` and `cellIndexesToCheck` of
-- traffic_cycle.c.
use software_development_pla.Common.{
  ℕ, ◌+◌, ◌-◌, ◌*◌, ltb, if◌then◌else◌, Bool, ◌&&◌, ◌||◌, Option, none, some, ℤ, pos, increment,
  decrement, is_number,
}
use software_development_pla.Circle.Types.{
  circle_size, Direction, right, up, left, down, Corner, upper_right, upper_left, buttom_left,
  buttom_right, empty,
}

unfoldable pub get_corner_type : ℤ → ℤ → Corner
get_corner_type row col =
    if is_number row 0 && is_number col 0
    then upper_left
    else if is_number row 0 && is_number col (circle_size - 1)
    then upper_right
    else if is_number row (circle_size - 1) && is_number col 0
    then buttom_left
    else if is_number row (circle_size - 1) && is_number col (circle_size - 1)
    then buttom_right
    else empty

unfoldable pub is_exit_corner : ℤ → ℤ → Bool
is_exit_corner row col =
    (is_number row 0 && is_number col 0)
    || (is_number row 0 && is_number col (circle_size - 1))
    || (is_number row (circle_size - 1) && is_number col 0)
    || (is_number row (circle_size - 1) && is_number col (circle_size - 1))

unfoldable pub is_on_border : ℤ → ℤ → Bool
is_on_border row col =
    is_number row 0
    || is_number row (circle_size - 1)
    || is_number col 0
    || is_number col (circle_size - 1)

unfoldable pub get_next_row_col : ℤ → ℤ → Direction → ℤ × ℤ
unfolding increment decrement
get_next_row_col row col up = (decrement row, col)
get_next_row_col row col right = (row, increment col)
get_next_row_col row col down = (increment row, col)
get_next_row_col row col left = (row, decrement col)

-- `none` is the call of `exit`.
unfoldable pub cell_indexes_to_check : Corner → Option (ℤ × ℤ)
cell_indexes_to_check upper_left = some (pos 0, pos 1)
cell_indexes_to_check upper_right = some (pos 1, pos (circle_size - 1))
cell_indexes_to_check buttom_left = some (pos (circle_size - 2), pos 0)
cell_indexes_to_check buttom_right = some (pos (circle_size - 1), pos (circle_size - 2))
cell_indexes_to_check empty = none

-- The place of `[row][col]` in an array of N rows; `none` out of its bounds.
unfoldable pub slot : ℤ → ℤ → Option ℕ
slot (pos i) (pos j) =
    if ltb i circle_size && ltb j circle_size then some (i * circle_size + j) else none
slot _ _ = none

-- `(dir + 1) % NUM_OF_DIRECTIONS`
unfoldable pub next_direction : Direction → Direction
next_direction right = up
next_direction up = left
next_direction left = down
next_direction down = right
