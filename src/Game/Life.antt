-- ===== src/Game/Life.antt =====
-- Players that die, the end of a game, and superpowers: `mark_as_dead`, `check_game_over`,
-- `stop_updates`, `wonGame`, `shouldGetSuperPower` and `updateSuperPowers` of
-- C-Multiplayer-game/src/server/main.c. Arming and disarming the timer leaves no trace here.
use software_development_pla.Common.{
  ℕ, zero, suc, ◌+◌, ◌-◌, ◌%◌, ◌==◌, leb, if◌then◌else◌, Bool, true, false, ◌&&◌, update,
}
use software_development_pla.Game.Protocol.{invalid_move}
use software_development_pla.Game.Types.{dead, obj_p}
use software_development_pla.Game.State.{
  Server, Run, running, exited, fault, ◌>>=◌, u32_pred, at, put_cell, set_player,
}
use software_development_pla.Game.Updates.{UpdateWrites, send_game_updates_handler}

abbrev pub superpower_divider : ℕ
superpower_divider = 50

abbrev pub num_of_rounds_for_superpower : ℕ
num_of_rounds_for_superpower = 100

-- tolower and toupper of the C locale
unfoldable pub tolower : ℕ → ℕ
tolower c = if leb b'A' c && leb c b'Z' then c + 32 else c

unfoldable pub toupper : ℕ → ℕ
toupper c = if leb b'a' c && leb c b'z' then c - 32 else c

unfoldable pub mark_as_dead : ℕ → Server → Server
mark_as_dead i s = record s {
  num_of_alive_players = u32_pred s.num_of_alive_players;
  players_info = update s.players_info i (record (s.players_info i) { state = dead });
  last_move_commands = update s.last_move_commands i invalid_move;
  superpower_timers = update s.superpower_timers i 0;
}

unfoldable pub stop_updates : Server → Server
stop_updates s = record s { has_someone_started_a_game = false }

unfoldable pub should_get_superpower : ℕ → Bool
should_get_superpower points = points % superpower_divider == 0

module _ (net : ℕ → UpdateWrites) where
  -- `true` stands for UPDATER_THREAD_EXITED.
  unfoldable pub check_game_over : Server → Server × Bool
  check_game_over s =
      if s.num_of_alive_players == 0
      then (stop_updates (send_game_updates_handler net s).0, true)
      else (s, false)

  -- `if (UPDATER_THREAD_EXITED == check_game_over()) pthread_exit(NULL);`
  unfoldable pub exit_if_game_over : Server → Run
  exit_if_game_over s = let (s', over) = check_game_over s in if over then exited s' else running s'

  unfoldable pub won_game : Server → Run
  won_game s = exited (stop_updates (send_game_updates_handler net s).0)

-- The end of the superpower of the player that stands where player `i` is recorded to be.
unfoldable pub expire_superpower : ℕ → Server → Run
unfolding tolower
expire_superpower i s =
    let loc = (s.players_info i).location in
    let cell = s.cells (at loc) in
    let s' = put_cell loc (record cell { symbol = tolower cell.symbol }) s in
    elim cell.obj [
      | obj_p j ↦ running (set_player j (record (s'.players_info j) { has_superpower = false }) s')
      | _ ↦ fault
    ]

-- One round of the loop of `updateSuperPowers`.
unfoldable pub update_superpower : ℕ → Server → Run
update_superpower i s =
    let timer = s.superpower_timers i in
    let s' = record s { superpower_timers = update s.superpower_timers i (timer - 1) } in
    if timer == 0 then running s else if timer - 1 == 0 then expire_superpower i s' else running s'

-- `for (i = first; i < first + n; i++)` over a body that may stop the thread.
unfoldable pub for_each : (ℕ → Server → Run) → ℕ → ℕ → Server → Run
for_each body first zero s = running s
for_each body first (suc n) s = body first s >>= for_each body (first + 1) n

unfoldable pub update_superpowers : Server → Run
update_superpowers s = for_each update_superpower 0 s.num_of_known_players s
