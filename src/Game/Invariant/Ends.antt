-- ===== src/Game/Invariant/Ends.antt =====
-- Consistency when an update is sent, a game ends or a player dies.
use software_development_pla.Common.{
  ℕ, zero, suc, ◌≡◌, ◌∙◌, ap, update_self, update-ne, ◌≢◌, inl, inr, some, ◌==◌, update, Bool-cases,
}
use software_development_pla.Game.Types.{dead, inside_a_game, Player}
use software_development_pla.Game.State.{Server, at}
use software_development_pla.Game.Updates.{UpdateWrites, send_updates, send_game_updates_handler}
use software_development_pla.Game.Life.{check_game_over, stop_updates, exit_if_game_over, won_game}
use software_development_pla.Game.Invariant.Holes.{kill-open}
use software_development_pla.Game.Invariant.{Consistent, IsConsistent, Safe}

module _ (net : ℕ → UpdateWrites) where
  send_updates-IsConsistent :
      (n : ℕ) (s : Server) → IsConsistent s → IsConsistent (send_updates net n s).0
  unfolding send_updates
  send_updates-IsConsistent zero s h = h
  send_updates-IsConsistent (suc n) s h = send_updates-IsConsistent n s h

  pub send-IsConsistent :
      (s : Server) → IsConsistent s → IsConsistent (send_game_updates_handler net s).0
  unfolding send_game_updates_handler
  send-IsConsistent s h = send_updates-IsConsistent s.num_of_known_players s h

  pub won_game-Safe : (s : Server) → IsConsistent s → Safe (won_game net s)
  unfolding won_game stop_updates
  won_game-Safe s h = send-IsConsistent s h

  pub exit_if_game_over-Safe : (s : Server) → IsConsistent s → Safe (exit_if_game_over net s)
  unfolding exit_if_game_over check_game_over stop_updates
  exit_if_game_over-Safe s h = elim (Bool-cases (s.num_of_alive_players == 0)) [
    | inl over ↦ rw (over, check_game_over) (send-IsConsistent s h)
    | inr more ↦ rw (more, check_game_over) h
  ]

-- The death of player `i`, whose record may have changed before, opens the cell that it stood in.
pub mark_as_dead-open :
    (s : Server) (i : ℕ) (players : ℕ → Player)
    → ((j : ℕ) → i ≢ j → players j ≡ s.players_info j)
    → (s.players_info i).state ≡ inside_a_game
    → IsConsistent s
    → Consistent
        (some (at (s.players_info i).location))
        s.cells
        (update players i (record (players i) { state = dead }))
        s.monsters
        (update s.superpower_timers i 0)
mark_as_dead-open s i players same inside inv =
    kill-open i _ _
      (λ j ne. (update-ne players i _ j ne ∙ same j ne, update-ne s.superpower_timers i 0 j ne))
      (ap (λ q. q.state) here) (update_self s.superpower_timers i 0) inside inv
  where
    here :
        update players i (record (players i) { state = dead }) i
        ≡ record (players i) { state = dead }
    here = update_self players i _
