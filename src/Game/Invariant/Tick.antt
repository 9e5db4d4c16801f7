-- ===== src/Game/Invariant/Tick.antt =====
-- One tick of the game meets no fault and keeps the board consistent.
use software_development_pla.Common.{ℕ, zero, suc, ◌+◌, ◌-◌, ◌≤◌, ◌≡◌, refl, arith, ◌==◌, update}
use software_development_pla.Game.Protocol.{Direction, up, down, left, right, invalid_move, stopped}
use software_development_pla.Game.Types.{PlayerState, inside_a_game, obj_p, max_num_of_players}
use software_development_pla.Game.Location.Laws.{at-lt}
use software_development_pla.Game.State.{Server, Run, running, exited, fault, ◌>>=◌, at}
use software_development_pla.Game.Updates.{UpdateWrites}
use software_development_pla.Game.Life.{
  tolower, expire_superpower, update_superpower, for_each, update_superpowers,
}
use software_development_pla.Game.Round.{
  apply_command, check_for_client_move, check_for_clients_moves, advance_game, timer_handler,
}
use software_development_pla.Game.Invariant.{Fits, IsConsistent, Safe, Safe-if}
use software_development_pla.Game.Invariant.Movement.{SameFacts-update, restyle}
use software_development_pla.Game.Invariant.Ends.{send-IsConsistent}
use software_development_pla.Game.Invariant.PlayerMoves.{handle_player_move-Safe}
use software_development_pla.Game.Invariant.MonsterMoves.{handle_monster_move-Safe}

letter-tolower : (c : ℕ) → b'A' ≤ c → b'A' ≤ tolower c
unfolding tolower
letter-tolower c h = ground arith

pub Safe-bind :
    (m : Run) (f : Server → Run)
    → Safe m
    → ((s : Server) → IsConsistent s → Safe (f s))
    → Safe (m >>= f)
Safe-bind (running s) f h k = k s h
Safe-bind (exited s) f h k = h
Safe-bind fault f h k = h

for_each-Safe :
    (body : ℕ → Server → Run)
    → ((i : ℕ) (s : Server) → IsConsistent s → Safe (body i s))
    → (first n : ℕ) (s : Server) → IsConsistent s
    → Safe (for_each body first n s)
unfolding for_each
for_each-Safe body keep first zero s inv = inv
for_each-Safe body keep first (suc n) s inv =
    Safe-bind (body first s) _ (keep first s inv)
      (λ s' inv'. for_each-Safe body keep (first + 1) n s' inv')

-- The superpower of a player in play ends: the pointer of its cell leads back to it.
expire_superpower-Safe :
    (i : ℕ) (s : Server)
    → (s.players_info i).state ≡ inside_a_game
    → IsConsistent s
    → Safe (expire_superpower i s)
unfolding expire_superpower
expire_superpower-Safe i s inside inv =
    rw (seen, expire_superpower)
      (restyle i _ _ s.superpower_timers (SameFacts-update s.players_info i _ (refl, refl, refl))
        inv.timer_inside
        (ground
          (arith, seen, shown, letter-tolower (s.cells (at (s.players_info i).location)).symbol))
        inside inv)
  where
    seen : (s.cells (at (s.players_info i).location)).obj ≡ obj_p i
    seen = (inv.player_cell i inside).2

    shown :
        Fits s.players_info s.monsters
          (at (s.players_info i).location)
          (s.cells (at (s.players_info i).location))
          (obj_p i)
    shown =
        rw seen at (
          inv.fits (at (s.players_info i).location) (at-lt _ (inv.player_cell i inside).0)
            (λ q. cc))

-- A timer that runs belongs to a player in play.
update_superpower-Safe : (i : ℕ) (s : Server) → IsConsistent s → Safe (update_superpower i s)
unfolding update_superpower
update_superpower-Safe i s inv =
    Safe-if (s.superpower_timers i == 0) _ _ (λ _. inv)
      (λ more.
        Safe-if (s.superpower_timers i - 1 == 0) _ _
          (λ _. expire_superpower-Safe i _ (inv.timer_inside i (ground arith)) ticked)
          (λ _. ticked))
  where
    ticked :
        IsConsistent (record s {
          superpower_timers = update s.superpower_timers i (s.superpower_timers i - 1);
        })
    ticked = record {
      fits = inv.fits;
      player_cell = inv.player_cell;
      monster_cell = inv.monster_cell;
      own_index = inv.own_index;
      timer_inside = λ j h. inv.timer_inside j (λ q. h (ground arith));
    }

module _ (net : ℕ → UpdateWrites) where
  apply_command-Safe :
      (i : ℕ) (d : Direction) (state : PlayerState) (s : Server)
      → (s.players_info i).state ≡ state
      → IsConsistent s
      → Safe (apply_command net i d state s)
  unfolding apply_command
  apply_command-Safe i invalid_move state s e inv = inv
  apply_command-Safe i stopped inside_a_game s e inv = inv
  apply_command-Safe i up inside_a_game s e inv = handle_player_move-Safe net i up s refl e inv
  apply_command-Safe i down inside_a_game s e inv = handle_player_move-Safe net i down s refl e inv
  apply_command-Safe i left inside_a_game s e inv = handle_player_move-Safe net i left s refl e inv
  apply_command-Safe i right inside_a_game s e inv =
      handle_player_move-Safe net i right s refl e inv
  apply_command-Safe i _ _ s e inv = inv

  check_for_clients_moves-Safe :
      (s : Server) → IsConsistent s → Safe (check_for_clients_moves net s)
  unfolding check_for_clients_moves check_for_client_move
  check_for_clients_moves-Safe s inv =
      for_each-Safe _
        (λ i t. apply_command-Safe i (t.last_move_commands i) (t.players_info i).state t refl) 0
        max_num_of_players s inv

  -- A tick that starts from a consistent server, where in particular each player in play has its slot as
  -- its index, as only that of slot 0 has in the source: whatever the players have asked for, whatever
  -- random bytes the monsters draw and whatever the sockets answer, it reads no pointer as another kind
  -- than it has, does not end the process, and leaves a consistent server, also when it ends the game.
  pub timer_handler-Safe :
      (getrandom : ℕ → ℕ → ℕ) (s : Server) → IsConsistent s → Safe (timer_handler net getrandom s)
  unfolding timer_handler update_superpowers advance_game
  timer_handler-Safe getrandom s inv =
      Safe-bind (update_superpowers s) _
        (for_each-Safe update_superpower update_superpower-Safe 0 s.num_of_known_players s inv)
        λ s1 inv1.
          Safe-bind (check_for_clients_moves net s1) _ (check_for_clients_moves-Safe s1 inv1)
            λ s2 inv2.
              Safe-bind (advance_game net getrandom s2) _
                (for_each-Safe _ (handle_monster_move-Safe getrandom net) 0 s2.num_of_monsters s2
                  inv2)
                λ s3 inv3. send-IsConsistent net s3 inv3
