-- ===== src/Game/State.antt =====
-- The globals of C-Multiplayer-game/src/server/main.c, lines 37 to 71, as one record.
use software_development_pla.Common.{ℕ, ◌+◌, ◌-◌, ◌*◌, ◌%◌, ◌^◌, Bool, Option, update}
use software_development_pla.Game.Protocol.{Direction}
use software_development_pla.Game.Types.{Location, Player, Monster, Cell, board_width}

-- The static buffer and index of `random_direction_generator`, with the number of `getrandom` calls.
pub record RandState : Type 0 where
  pub rand_bytes : ℕ → ℕ
  pub index : ℕ  -- uint8_t
  pub calls : ℕ

-- `cells` holds the rows of the board one after another, as the C array does. In the options `none`
-- is -1 for a descriptor or an index, and NULL for a monster.
pub record Server : Type 0 where
  pub cells : ℕ → Cell
  pub num_of_coins_on_screen : ℕ  -- unsigned int
  pub game_initiator_idx : Option ℕ
  pub num_of_monsters : ℕ
  pub has_someone_started_a_game : Bool
  pub num_of_known_players : ℕ
  pub num_of_alive_players : ℕ  -- unsigned int
  pub known_players_fds : ℕ → Option ℕ
  pub superpower_timers : ℕ → ℕ
  pub last_move_commands : ℕ → Direction
  pub players_info : ℕ → Player
  pub monsters : ℕ → Option Monster
  pub rand : RandState
  pub current_player_symbol : ℕ  -- char

-- What a handler of the updater thread ends in: it goes on, or calls `pthread_exit`, or the process
-- stops at `exit(EXIT_FAILURE)` or at a read through a pointer of the wrong kind.
pub data Run : Type 0 where
  running : Server → Run
  exited : Server → Run
  fault : Run

infixl 5 ◌>>=◌
abbrev pub ◌>>=◌ : Run → (Server → Run) → Run
running s >>= f = f s
exited s >>= f = exited s
fault >>= f = fault

abbrev pub u32 : ℕ → ℕ
u32 n = n % 2 ^ 32

-- `x--` on an unsigned int
abbrev pub u32_pred : ℕ → ℕ
u32_pred n = (n + 2 ^ 32 - 1) % 2 ^ 32

-- The place of `cells[row][col]`.
abbrev pub at : Location → ℕ
at l = l.row * board_width + l.col

unfoldable pub get_cell_at_location : Server → Location → Cell
get_cell_at_location s l = s.cells (at l)

-- `*cell = c`, for the cell at `l`.
abbrev pub put_cell : Location → Cell → Server → Server
put_cell l c s = record s { cells = update s.cells (at l) c }

abbrev pub set_player : ℕ → Player → Server → Server
set_player i q s = record s { players_info = update s.players_info i q }
