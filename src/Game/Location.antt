-- ===== src/Game/Location.antt =====
-- `adjustDecrement` and `calculateNextLocation` of C-Multiplayer-game/src/server/main.c.
pub mod Laws
use software_development_pla.Common.{
  ℕ, ◌+◌, ◌-◌, ◌%◌, ◌<◌, ◌==◌, if◌then◌else◌, Bool, true, false, Option, none, some,
}
use software_development_pla.Game.Protocol.{Direction, up, down, left, right, invalid_move, stopped}
use software_development_pla.Game.Types.{Location, board_width, board_height}
use software_development_pla.Game.State.{u32}

-- The new value of `*x`, and the result.
unfoldable pub adjust_decrement : ℕ → ℕ → ℕ × Bool
adjust_decrement x divisor = if x == 0 then (divisor - 1, true) else (x, false)

-- `none` is the `exit(EXIT_FAILURE)` of the default case.
unfoldable pub calculate_next_location : Location → Direction → Option Location
unfolding adjust_decrement
calculate_next_location l up =
    let (row, adjusted) = adjust_decrement l.row board_height in
    some (record l { row = if adjusted then row else (row - 1) % board_height })
calculate_next_location l down = some (record l { row = u32 (l.row + 1) % board_height })
calculate_next_location l left =
    let (col, adjusted) = adjust_decrement l.col board_width in
    some (record l { col = if adjusted then col else col - 1 })
calculate_next_location l right = some (record l { col = u32 (l.col + 1) % board_width })
calculate_next_location l _ = none

pub record InBounds (l : Location) : Type 0 where
  pub row_lt : l.row < board_height
  pub col_lt : l.col < board_width

abbrev pub is_move : Direction → Bool
is_move invalid_move = false
is_move stopped = false
is_move _ = true

abbrev pub opposite : Direction → Direction
opposite up = down
opposite down = up
opposite left = right
opposite right = left
opposite d = d
