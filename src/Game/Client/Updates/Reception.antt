-- ===== src/Game/Client/Updates/Reception.antt =====
-- What becomes of the bytes that the client of C-Multiplayer-game receives during a game.
use mathlib.Core.List.{map}
use software_development_pla.Common.{
  ℕ, suc, ◌*◌, ◌<◌, ◌≤◌, ◌≡◌, refl, subst, false, List, [], length, arith,
}
use software_development_pla.Game.Types.{board_height, board_width}
use software_development_pla.Game.Client.Updates.{
  Poll, ready, timeout, Reader, ended, is_code, receive_updates,
}
use software_development_pla.Game.Client.Updates.Drawing.{symbols}
use software_development_pla.Game.Client.Updates.Frames.{receive_updates-draws}
use software_development_pla.Game.Client.Updates.Wire.{
  Tick, BoardsArrive, board_dimensions, bytes_sent, boards_sent, bytes_sent-wire, boards_sent-Sized,
}

-- The thread at its start.
abbrev pub new_reader : List ℕ → Reader
new_reader incoming = record {
  buf = λ _. 0;
  incoming = incoming;
  closed = false;
  reads = 0;
  polls = 0;
  screen = [];
}

is_code-zero : is_code 0 ≡ false
unfolding is_code
is_code-zero = refl

-- Where the server sends its updates in a sequence of states, and no write of a board or of UPDATE_END
-- fails or is cut, while a write of UPDATE_START may fail: if no read of the client gets less than it asks
-- for, and poll finds each of the updates that were begun for the client, and then times out, the client
-- draws exactly the symbols of the boards of those states, in their order, each as often as an update
-- was begun, and ends.
pub receive_updates-boards :
    (chunk : ℕ → ℕ) (poll : ℕ → Poll) (fd : ℕ) (ticks : List Tick) (fuel : ℕ)
    → BoardsArrive ticks
    → ((k : ℕ) → board_height * board_width ≤ suc (chunk k))
    → length (boards_sent fd ticks) < fuel
    → ((k : ℕ) → k < length (boards_sent fd ticks) → poll k ≡ ready)
    → poll (length (boards_sent fd ticks)) ≡ timeout
    → (r : Reader) × (receive_updates board_dimensions chunk poll fuel
          (new_reader (bytes_sent fd ticks))
        ≡ ended r)
      × (map symbols r.screen ≡ boards_sent fd ticks)
receive_updates-boards chunk poll fd ticks fuel arrive room enough polls last =
    receive_updates-draws board_dimensions chunk poll (boards_sent fd ticks) fuel
      (new_reader (bytes_sent fd ticks)) (boards_sent-Sized chunk poll fd ticks) (omega arith)
      (omega arith) room enough (bytes_sent-wire fd ticks arrive) is_code-zero
      (λ k b. subst (λ i. poll i ≡ ready) (omega arith) (polls k b))
      (subst (λ i. poll i ≡ timeout) (omega arith) last)
