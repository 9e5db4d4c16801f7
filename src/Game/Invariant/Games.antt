-- ===== src/Game/Invariant/Games.antt =====
-- Whole games: the board is set up, players join, and the thread of the updates runs.
use software_development_pla.Common.{ℕ, some, ◌≤◌, ◌≡◌, ◌≢◌, subst, true, List, [], ◌∷◌}
use software_development_pla.Game.Protocol.{Direction}
use software_development_pla.Game.Types.{Cell, inside_a_game}
use software_development_pla.Game.State.{Server, running, exited, set_player}
use software_development_pla.Game.Updates.{UpdateWrites, send_game_updates_handler}
use software_development_pla.Game.Round.{timer_handler}
use software_development_pla.Game.Updater.{
  Signal, sigalrm, sigusr1, Turn, serve_signal, serve_signals, set_timer_signal,
}
use software_development_pla.Game.Setup.{init_board, put_player_on_board}
use software_development_pla.Game.Setup.Fill.{IsFresh, init_board-IsConsistent}
use software_development_pla.Game.Setup.Join.{put_player_on_board-IsConsistent}
use software_development_pla.Game.Invariant.{IsConsistent, Safe}
use software_development_pla.Game.Invariant.Ends.{send-IsConsistent}
use software_development_pla.Game.Invariant.Tick.{Safe-bind, timer_handler-Safe}

-- The servers that a game can come to, by steps in any order.
pub data Played : Server → Type 0 where
  set_up :
      (rand : ℕ → ℕ) (board : ℕ → Cell) (s s' : Server)
      → IsFresh s
      → init_board rand board s ≡ some s'
      → Played s'
  joined :
      (rand : ℕ → ℕ) (tries k i : ℕ) (s : Server)
      → Played s
      → (s.players_info i).index ≡ i
      → (s.players_info i).state ≢ inside_a_game
      → b'A' ≤ s.current_player_symbol
      → (put_player_on_board rand tries k i s).1 ≡ true
      → Played (
          set_player i
            (record ((put_player_on_board rand tries k i s).0.players_info i) {
              state = inside_a_game;
            })
            (put_player_on_board rand tries k i s).0)
  commanded :
      (commands : ℕ → Direction) (s : Server)
      → Played s
      → Played (record s { last_move_commands = commands })
  updated :
      (net : ℕ → UpdateWrites) (s : Server) → Played s → Played (send_game_updates_handler net s).0
  ticked :
      (net : ℕ → UpdateWrites) (getrandom : ℕ → ℕ → ℕ) (s s' : Server)
      → Played s
      → timer_handler net getrandom s ≡ running s'
      → Played s'

command-IsConsistent :
    (commands : ℕ → Direction) (s : Server)
    → IsConsistent s
    → IsConsistent (record s { last_move_commands = commands })
command-IsConsistent commands s inv = inv

played-IsConsistent : (s : Server) → Played s → IsConsistent s
played-IsConsistent _ (set_up rand board s s' f e) = (init_board-IsConsistent rand board s s' f e).0
played-IsConsistent _ (joined rand tries k i s p own outside symbol placed) =
    put_player_on_board-IsConsistent rand tries k i s (played-IsConsistent s p) own outside symbol
      placed
played-IsConsistent _ (commanded commands s p) = played-IsConsistent s p
played-IsConsistent _ (updated net s p) = send-IsConsistent net s (played-IsConsistent s p)
played-IsConsistent _ (ticked net getrandom s s' p e) =
    subst Safe e (timer_handler-Safe net getrandom s (played-IsConsistent s p))

serve_signals-Safe :
    (getrandom : ℕ → ℕ → ℕ) (turns : List Turn) (s : Server)
    → IsConsistent s
    → Safe (serve_signals getrandom turns s)
unfolding serve_signals serve_signal
serve_signals-Safe getrandom [] s inv = inv
serve_signals-Safe getrandom (turn ∷ turns) s inv =
    Safe-bind _ _ (served turn.signal) (λ s' inv'. serve_signals-Safe getrandom turns s' inv')
  where
    asked : Server
    asked = record s { last_move_commands = turn.commands }

    served :
        (signal : Signal)
        → Safe (elim signal [
          | sigusr1 ↦ exited asked
          | sigalrm ↦ timer_handler turn.net getrandom asked
        ])
    served sigusr1 = inv
    served sigalrm = timer_handler-Safe turn.net getrandom asked inv

-- However a game was set up with room in `monsters` for all monsters, and if each player that joined it
-- had its slot as its index, as only that of slot 0 has in the source, and a letter from A on as its
-- symbol: the thread of the updates, for whatever sequence of signals and of commands in between, and whatever random bytes
-- and answers of the sockets, never reads a pointer as another kind than it has; the server is
-- consistent where the thread waits for the next signal and where it ends.
pub set_timer_signal-Safe :
    (s : Server) (net : ℕ → UpdateWrites) (getrandom : ℕ → ℕ → ℕ) (turns : List Turn)
    → Played s
    → Safe (set_timer_signal getrandom net turns s)
unfolding set_timer_signal
set_timer_signal-Safe s net getrandom turns p =
    serve_signals-Safe getrandom turns _ (send-IsConsistent net s (played-IsConsistent s p))
