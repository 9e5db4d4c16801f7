-- ===== src/Game/Monsters.antt =====
-- The moves of monsters: `update_source_cell` and `handle_monster_move` of
-- C-Multiplayer-game/src/server/main.c.
use software_development_pla.Common.{
  ℕ, zero, suc, ◌==◌, if◌then◌else◌, Bool, ◌||◌, none, some, update,
}
use software_development_pla.Game.Types.{
  Location, Monster, GameObj, obj_p, empty_cell, coin_cell, monster_sym, wall_sym, coin_sym,
}
use software_development_pla.Game.State.{RandState, Server, Run, running, fault, at, put_cell}
use software_development_pla.Game.Location.{calculate_next_location}
use software_development_pla.Game.Updates.{UpdateWrites}
use software_development_pla.Game.Life.{mark_as_dead, exit_if_game_over}
use software_development_pla.Game.Players.{destroy_monster}
use software_development_pla.Game.Random.{random_direction_generator}

abbrev pub monster_tries_threshold : ℕ
monster_tries_threshold = 80

unfoldable pub update_source_cell : Location → Server → Server
update_source_cell old_loc s =
    put_cell old_loc (if (s.cells (at old_loc)).contains_coin then coin_cell else empty_cell) s

-- Where the search for a free neighbour ends.
pub data Target : Type 0 where
  to_location : Location → Target
  no_luck : Target
  bad_direction : Target

unfoldable pub is_blocked : Server → Location → Bool
is_blocked s loc =
    let new_cell_sym = (s.cells (at loc)).symbol in
    new_cell_sym == wall_sym || new_cell_sym == monster_sym

module _ (getrandom : ℕ → ℕ → ℕ) where
  -- The draw before the loop and the draws in it; `tries` is how many more may fail. A failed draw
  -- puts the old location back, so each draw starts from there. Only the random numbers change.
  unfoldable pub find_target : ℕ → Location → Server → RandState → Target × RandState
  find_target zero old_loc s r = (no_luck, r)
  find_target (suc tries) old_loc s r =
      let (d, r') = random_direction_generator getrandom r in
      let retry = find_target tries old_loc s r' in
      elim (calculate_next_location old_loc d) [
        | none ↦ (bad_direction, r')
        | some loc ↦ if is_blocked s loc then retry else (to_location loc, r')
      ]

module _ (net : ℕ → UpdateWrites) where
  -- The monster meets the player that `obj` points to.
  unfoldable pub meet_player : Monster → Location → Location → GameObj → Server → Run
  meet_player monster old_loc new_loc (obj_p j) s =
      let player = s.players_info j in
      if player.has_superpower
      then running (update_source_cell old_loc (destroy_monster monster s))
      else exit_if_game_over net (
          update_source_cell old_loc
            (put_cell new_loc (s.cells (at old_loc)) (mark_as_dead player.index s)))
  meet_player monster old_loc new_loc _ s = fault

  -- The monster, whose location is `new_loc` by now, came from `old_loc`.
  unfoldable pub step_onto : Monster → Location → Location → Server → Run
  step_onto monster old_loc new_loc s =
      let old_cell = s.cells (at old_loc) in
      let new_cell = s.cells (at new_loc) in
      let dest_has_coin = new_cell.symbol == coin_sym in
      if new_cell.is_empty || dest_has_coin
      then running (
          update_source_cell old_loc
            (put_cell new_loc (record old_cell { contains_coin = dest_has_coin }) s))
      else meet_player monster old_loc new_loc new_cell.obj s

  -- `monster` is the allocation of slot `k`.
  unfoldable pub move_monster : ℕ → Monster → Target → Server → Run
  move_monster k monster (to_location loc) s =
      let moved = record monster { location = loc } in
      step_onto moved monster.location loc
        (record s { monsters = update s.monsters k (some moved) })
  move_monster k monster no_luck s = running s
  move_monster k monster bad_direction s = fault

-- With the test `if (monsters[i])` of `advance_game` before it.
unfoldable pub handle_monster_move : (ℕ → ℕ → ℕ) → (ℕ → UpdateWrites) → ℕ → Server → Run
handle_monster_move getrandom net k s = elim (s.monsters k) [
  | none ↦ running s
  | some monster ↦
      let (target, r) = find_target getrandom monster_tries_threshold monster.location s s.rand in
      move_monster net k monster target (record s { rand = r })
]
