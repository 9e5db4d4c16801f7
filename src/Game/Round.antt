-- ===== src/Game/Round.antt =====
-- One tick of the game: `check_for_clients_moves`, `advance_game` and `timer_handler` of
-- C-Multiplayer-game/src/server/main.c. The clock readings only set the next alarm.
use software_development_pla.Common.{ℕ}
use software_development_pla.Game.Protocol.{Direction, invalid_move, stopped}
use software_development_pla.Game.Types.{PlayerState, inside_a_game, max_num_of_players}
use software_development_pla.Game.State.{Server, Run, running, ◌>>=◌}
use software_development_pla.Game.Updates.{UpdateWrites, send_game_updates_handler}
use software_development_pla.Game.Life.{for_each, update_superpowers}
use software_development_pla.Game.Players.{handle_player_move}
use software_development_pla.Game.Monsters.{handle_monster_move}

module _ (net : ℕ → UpdateWrites) where
  -- The body of the loop: `cached` is a move, or `STOPPED`, or `INVALID_MOVE`.
  unfoldable pub apply_command : ℕ → Direction → PlayerState → Server → Run
  apply_command i invalid_move state s = running s
  apply_command i stopped inside_a_game s = running s
  apply_command i cached inside_a_game s = handle_player_move net i cached s
  apply_command i cached state s = running s

  unfoldable pub check_for_client_move : ℕ → Server → Run
  check_for_client_move i s = apply_command i (s.last_move_commands i) (s.players_info i).state s

  unfoldable pub check_for_clients_moves : Server → Run
  check_for_clients_moves s = for_each check_for_client_move 0 max_num_of_players s

  module _ (getrandom : ℕ → ℕ → ℕ) where
    unfoldable pub advance_game : Server → Run
    advance_game s = for_each (handle_monster_move getrandom net) 0 s.num_of_monsters s

    unfoldable pub timer_handler : Server → Run
    timer_handler s = do
      after_powers ← update_superpowers s
      after_players ← check_for_clients_moves after_powers
      after_monsters ← advance_game after_players
      running (send_game_updates_handler net after_monsters).0
