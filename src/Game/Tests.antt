-- ===== src/Game/Tests.antt =====
-- Runs of the game on small servers, and the theorems about it at them.
use software_development_pla.Common.{
  weigh, ℕ, ◌+◌, ◌%◌, ◌<◌, ◌≡◌, ◌≢◌, ◌*◌, List, [], ◌∷◌, if◌then◌else◌, ◌==◌, refl, false, none,
  some, arith, ℕ_discrete,
}
use software_development_pla.Game.Protocol.{left, right}
use software_development_pla.Game.Types.{
  disconnected, inside_a_game, Player, empty_cell, wall_cell, coin_cell, board_height, board_width,
  monster_sym,
}
use software_development_pla.Game.State.{RandState, Server, at, set_player}
use software_development_pla.Game.Updates.{
  UpdateWrites, sent, broken, start_part, gets_update, send_update,
}
use software_development_pla.Game.Random.{to_direction, random_direction_generator}
use software_development_pla.Game.Random.Laws.{IsAt, random-IsAt}
use software_development_pla.Game.Players.{handle_player_move}
use software_development_pla.Game.Monsters.{handle_monster_move}
use software_development_pla.Game.Round.{timer_handler}
use software_development_pla.Game.Updater.{sigalrm, sigusr1, Turn, set_timer_signal}
use software_development_pla.Game.Invariant.Games.{Played, set_timer_signal-Safe}
use software_development_pla.Game.Invariant.{IsConsistent, Safe}
use software_development_pla.Game.Invariant.PlayerMoves.{handle_player_move-Safe}
use software_development_pla.Game.Invariant.Coins.{IsTallied, Tallied}
use software_development_pla.Game.Invariant.CoinMoves.{handle_player_move-Tallied}
use software_development_pla.Game.Invariant.MonsterMoves.{handle_monster_move-Safe}
use software_development_pla.Game.Invariant.Tick.{timer_handler-Safe}
use software_development_pla.Game.Setup.{
  is_boundary, new_monster, new_coin, place, init_cell, init_row, init_rows, fill_board, init_board,
  put_player_on_board,
}
use software_development_pla.Game.Setup.Fill.{coins, IsFresh, init_board-IsConsistent}
use software_development_pla.Game.Setup.Join.{
  put_player_on_board-IsConsistent, put_player_on_board-eq-false,
}

abbrev pub idle_player : ℕ → Player
idle_player _ = record {
  location = record { row = 0; col = 0 };
  state = disconnected;
  points = 0;
  name = [];
  has_superpower = false;
  index = 0;
}

abbrev pub all_sent : ℕ → UpdateWrites
all_sent _ = record { start = sent; board = sent; finish = sent }

-- A server before its first game.
abbrev pub fresh : Server
fresh = record {
  cells = λ _. empty_cell;
  num_of_coins_on_screen = 0;
  game_initiator_idx = none;
  num_of_monsters = 0;
  has_someone_started_a_game = false;
  num_of_known_players = 2;
  num_of_alive_players = 2;
  known_players_fds = λ i. some (5 + i);
  superpower_timers = λ _. 0;
  last_move_commands = λ _. right;
  players_info = idle_player;
  monsters = λ _. none;
  rand = record { rand_bytes = λ _. 0; index = 0; calls = 0 };
  current_player_symbol = b'a';
}

disconnected-ne-inside : disconnected ≢ inside_a_game
disconnected-ne-inside h = cc

fresh-IsFresh : IsFresh fresh
fresh-IsFresh = record {
  no_monsters = λ k. refl;
  nobody = λ i h. disconnected-ne-inside h;
  no_timer = λ i. refl;
  no_coins = refl;
}

-- `rand` counts up: the third free cell gets a monster, and the seventh a coin.
abbrev board : Server
board = fill_board (λ k. k) (λ _. wall_cell) fresh

board_made : init_board (λ k. k) (λ _. wall_cell) fresh ≡ some board
unfolding init_board fill_board init_rows init_row init_cell is_boundary new_monster new_coin
    ℕ_discrete
board_made = refl

-- Where `rand` makes a monster of each inner cell, there is no room for them.
too_many_monsters : init_board (λ _. 4) (λ _. wall_cell) fresh ≡ none
unfolding init_board fill_board init_rows init_row init_cell is_boundary new_monster
too_many_monsters = refl

-- The write of the board fails, and UPDATE_START stands alone.
start_alone :
    (send_update
      (λ _. record { start = sent; board = broken; finish = sent })
      0
      inside_a_game
      []
      (some 5)).1
    ≡ record { fd = 5; part = start_part } ∷ []
unfolding send_update gets_update
start_alone = refl

board_cells :
    ((board.cells (at (record { row = 1; col = 3 }))).symbol ≡ monster_sym)
    × (board.cells (at (record { row = 1; col = 7 })) ≡ coin_cell)
    × (board.cells (at (record { row = 1; col = 1 })) ≡ empty_cell)
    × (board.cells (at (record { row = 14; col = 7 })) ≡ wall_cell)
unfolding fill_board init_rows init_row init_cell is_boundary new_monster new_coin ℕ_discrete
board_cells = (refl, refl, refl, refl)

init_board-IsConsistent_example :
    IsConsistent board × (coins (board_height * board_width) board ≡ board.num_of_coins_on_screen)
init_board-IsConsistent_example =
    init_board-IsConsistent (λ k. k) (λ _. wall_cell) fresh board fresh-IsFresh board_made

-- The player of slot 0 joins at row 1, column 1, after a first try at a wall.
abbrev joining : ℕ → ℕ
joining k = if k == 0 then 0 else 1

abbrev joined : Server
joined =
    set_player 0
      (record ((put_player_on_board joining 300 0 0 board).0.players_info 0) {
        state = inside_a_game;
      })
      (put_player_on_board joining 300 0 0 board).0

board_own : (board.players_info 0).index ≡ 0
unfolding fill_board init_rows init_row init_cell is_boundary new_monster new_coin ℕ_discrete
board_own = refl

board_outside : (board.players_info 0).state ≢ inside_a_game
unfolding fill_board init_rows init_row init_cell is_boundary new_monster new_coin ℕ_discrete
board_outside h = disconnected-ne-inside h

put_player_on_board-IsConsistent_example : IsConsistent joined
unfolding put_player_on_board fill_board init_rows init_row init_cell is_boundary new_monster
    new_coin ℕ_discrete
put_player_on_board-IsConsistent_example =
    put_player_on_board-IsConsistent joining 300 0 0 board init_board-IsConsistent_example.0
      board_own board_outside (omega arith) refl

-- Random byte `j` of call `n` is `j`.
abbrev bytes : ℕ → ℕ → ℕ
bytes n j = j

joined_inside : (joined.players_info 0).state ≡ inside_a_game
unfolding ℕ_discrete
joined_inside = refl

handle_player_move-Safe_example : Safe (handle_player_move all_sent 0 right joined)
handle_player_move-Safe_example =
    handle_player_move-Safe all_sent 0 right joined refl joined_inside
      put_player_on_board-IsConsistent_example

handle_monster_move-Safe_example : Safe (handle_monster_move bytes all_sent 0 joined)
handle_monster_move-Safe_example =
    handle_monster_move-Safe bytes all_sent 0 joined put_player_on_board-IsConsistent_example

timer_handler-Safe_example : Safe (timer_handler all_sent bytes joined)
timer_handler-Safe_example =
    timer_handler-Safe all_sent bytes joined put_player_on_board-IsConsistent_example

-- An alarm, and then the end of the thread.
abbrev one_alarm : List Turn
one_alarm =
    record { signal = sigalrm; net = all_sent; commands = λ _. right }
    ∷ record { signal = sigusr1; net = all_sent; commands = λ _. left }
    ∷ []

joined_Played : Played joined
unfolding put_player_on_board fill_board init_rows init_row init_cell is_boundary new_monster
    new_coin ℕ_discrete
joined_Played =
    Played.joined joining 300 0 0 board
      (Played.set_up (λ k. k) (λ _. wall_cell) fresh board fresh-IsFresh board_made) board_own
      board_outside (omega arith) refl

set_timer_signal-Safe_example : Safe (set_timer_signal bytes all_sent one_alarm joined)
set_timer_signal-Safe_example = set_timer_signal-Safe joined all_sent bytes one_alarm joined_Played

put_player_on_board-eq-false_example :
    ((put_player_on_board (λ _. 0) 2 0 0 board).0 ≡ board)
    × ((t : ℕ) → t < 2 → (board.cells (at (place (λ _. 0) (0 + 2 * t)))).is_empty ≡ false)
unfolding put_player_on_board fill_board init_rows init_row init_cell is_boundary new_monster
    new_coin ℕ_discrete
put_player_on_board-eq-false_example = put_player_on_board-eq-false (λ _. 0) 2 0 0 board refl

-- 27 draws in, the second buffer is in use.
random-IsAt_example :
    let r : RandState = record { rand_bytes = λ j. j; index = 2; calls = 2 } in
    ((random_direction_generator bytes r).0 ≡ to_direction (2 % 4))
    × IsAt bytes 28 (random_direction_generator bytes r).1
random-IsAt_example =
    random-IsAt bytes 27 (record { rand_bytes = λ j. j; index = 2; calls = 2 })
      (record { index_eq = refl; calls_eq = refl; buffer_eq = λ j _. refl })

joined-IsTallied : IsTallied joined
unfolding put_player_on_board fill_board init_rows init_row init_cell is_boundary new_monster
    new_coin weigh ℕ_discrete
joined-IsTallied = refl

handle_player_move-Tallied_example : Tallied (handle_player_move all_sent 0 right joined)
handle_player_move-Tallied_example =
    handle_player_move-Tallied all_sent 0 right joined refl joined_inside
      put_player_on_board-IsConsistent_example joined-IsTallied
