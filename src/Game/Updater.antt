-- ===== src/Game/Updater.antt =====
-- The thread that sends the updates: `set_timer_signal` of C-Multiplayer-game/src/server/main.c.
use software_development_pla.Common.{ℕ, List, [], ◌∷◌}
use software_development_pla.Game.Protocol.{Direction}
use software_development_pla.Game.State.{Server, Run, running, exited, ◌>>=◌}
use software_development_pla.Game.Updates.{UpdateWrites, send_game_updates_handler}
use software_development_pla.Game.Round.{timer_handler}

-- The signals that the thread waits for.
pub data Signal : Type 0 where
  sigalrm sigusr1 : Signal

-- A signal, with what the writes of its updates answer and the commands that the thread of the sockets
-- has stored by then.
pub record Turn : Type 0 where
  pub signal : Signal
  pub net : ℕ → UpdateWrites
  pub commands : ℕ → Direction

module _ (getrandom : ℕ → ℕ → ℕ) where
  unfoldable pub serve_signal : Turn → Server → Run
  serve_signal turn s = elim turn.signal [
    | sigusr1 ↦ exited s
    | sigalrm ↦ timer_handler turn.net getrandom s
  ]

  -- The loop, over the signals that come.
  unfoldable pub serve_signals : List Turn → Server → Run
  serve_signals [] s = running s
  serve_signals (turn ∷ turns) s =
      serve_signal turn (record s { last_move_commands = turn.commands }) >>= serve_signals turns

  unfoldable pub set_timer_signal : (ℕ → UpdateWrites) → List Turn → Server → Run
  set_timer_signal net turns s = serve_signals turns (send_game_updates_handler net s).0
