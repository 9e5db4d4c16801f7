-- ===== src/Game/Players.antt =====
-- The moves of players: `destroy_monster`, `move_player_to_empty_cell`,
-- `check_for_coin_in_target_after_move` and `handle_player_move` of
-- C-Multiplayer-game/src/server/main.c.
use software_development_pla.Common.{ℕ, ◌+◌, ◌==◌, if◌then◌else◌, true, none, some, update}
use software_development_pla.Game.Protocol.{Direction}
use software_development_pla.Game.Types.{
  Location, Monster, Cell, GameObj, obj_m, empty_cell, monster_sym, coin_worth,
}
use software_development_pla.Game.State.{
  Server, Run, running, fault, u32, u32_pred, at, put_cell, set_player,
}
use software_development_pla.Game.Location.{calculate_next_location}
use software_development_pla.Game.Updates.{UpdateWrites}
use software_development_pla.Game.Life.{
  mark_as_dead, exit_if_game_over, won_game, should_get_superpower, toupper,
  num_of_rounds_for_superpower,
}

unfoldable pub destroy_monster : Monster → Server → Server
destroy_monster monster s = record s { monsters = update s.monsters monster.index none }

-- `*newCell = *oldCell; *oldCell = emptyCell;`
unfoldable pub move_player_to_empty_cell : Location → Location → Server → Server
move_player_to_empty_cell old_loc new_loc s =
    put_cell old_loc empty_cell (put_cell new_loc (s.cells (at old_loc)) s)

-- `player` is the slot `i` of `players_info`.
abbrev pub set_location : ℕ → Location → Server → Server
set_location i loc s = set_player i (record (s.players_info i) { location = loc }) s

-- `player->points += COIN_WORTH; num_of_coins_on_screen--;`
unfoldable pub take_coin : ℕ → Server → Server
take_coin i s =
    let player = s.players_info i in
    set_player i (record player { points = u32 (player.points + coin_worth) })
      (record s { num_of_coins_on_screen = u32_pred s.num_of_coins_on_screen })

-- The player at `new_loc` gets superpower for its next rounds.
unfoldable pub grant_superpower : ℕ → Location → Server → Server
unfolding toupper
grant_superpower i new_loc s =
    let player = s.players_info i in
    let new_cell = s.cells (at new_loc) in
    let s' = put_cell new_loc (record new_cell { symbol = toupper new_cell.symbol }) s in
    record s' {
      players_info = update s.players_info i (record player { has_superpower = true });
      superpower_timers = update s.superpower_timers player.index num_of_rounds_for_superpower;
    }

module _ (net : ℕ → UpdateWrites) where
  unfoldable pub check_for_coin_in_target_after_move : ℕ → Location → Server → Run
  check_for_coin_in_target_after_move i new_loc s =
      let s' = take_coin i s in
      if s'.num_of_coins_on_screen == 0
      then won_game net s'
      else if should_get_superpower (s'.players_info i).points
      then running (grant_superpower i new_loc s')
      else running s'

  -- The player, with superpower, enters the cell of the monster that `obj` points to.
  unfoldable pub kill_monster : ℕ → Location → Location → Cell → GameObj → Server → Run
  kill_monster i old_loc new_loc new_cell (obj_m k) s = elim (s.monsters k) [
    | none ↦ fault
    | some monster ↦
        let s' = move_player_to_empty_cell old_loc new_loc (destroy_monster monster s) in
        if new_cell.contains_coin
        then check_for_coin_in_target_after_move i new_loc s'
        else running s'
  ]
  kill_monster i old_loc new_loc new_cell _ s = fault

  -- The player, whose location is `new_loc` by now, came from `old_loc`.
  unfoldable pub enter_cell : ℕ → Location → Location → Server → Run
  enter_cell i old_loc new_loc s =
      let player = s.players_info i in
      let new_cell = s.cells (at new_loc) in
      if new_cell.is_empty
      then running (move_player_to_empty_cell old_loc new_loc s)
      else if new_cell.symbol == monster_sym
      then (if player.has_superpower
          then kill_monster i old_loc new_loc new_cell new_cell.obj s
          else exit_if_game_over net (put_cell old_loc empty_cell (mark_as_dead player.index s)))
      else if new_cell.contains_coin
      then check_for_coin_in_target_after_move i new_loc
          (move_player_to_empty_cell old_loc new_loc s)
      else running (set_location i old_loc s)

  unfoldable pub handle_player_move : ℕ → Direction → Server → Run
  handle_player_move i d s =
      let old_loc = (s.players_info i).location in
      elim (calculate_next_location old_loc d) [
        | none ↦ fault
        | some new_loc ↦ enter_cell i old_loc new_loc (set_location i new_loc s)
      ]
