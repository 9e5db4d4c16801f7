-- ===== src/Game/Updates.antt =====
-- `create_symbolized_board` and `send_game_updates_handler` of
-- C-Multiplayer-game/src/server/main.c. What the sockets answer is an argument.
use software_development_pla.Common.{
  ℕ, zero, suc, ◌+◌, ◌*◌, if◌then◌else◌, Bool, true, false, Option, none, some, List, [], ◌∷◌, ◌++◌,
  update,
}
use software_development_pla.Game.Types.{
  PlayerState, inside_a_game, dead, spectator, Cell, board_width, board_height,
}
use software_development_pla.Game.State.{Server}

-- What one `write` to a client does: it succeeds, or fails with EAGAIN or EWOULDBLOCK, or fails for
-- another reason.
pub data WriteResult : Type 0 where
  sent would_block broken : WriteResult

-- The three writes of one update to one client.
pub record UpdateWrites : Type 0 where
  pub start : WriteResult
  pub board : WriteResult
  pub finish : WriteResult

-- What one write to a client carries: UPDATE_START, the symbols of the board, or UPDATE_END.
pub data Part : Type 0 where
  start_part end_part : Part
  board_part : List ℕ → Part

-- A write that did not fail.
pub record Written : Type 0 where
  pub fd : ℕ
  pub part : Part

-- The symbols of `n` cells from the cell at `i` on.
unfoldable pub symbols_from : (ℕ → Cell) → ℕ → ℕ → List ℕ
symbols_from cells i zero = []
symbols_from cells i (suc n) = (cells i).symbol ∷ symbols_from cells (i + 1) n

unfoldable pub create_symbolized_board : Server → List ℕ
unfolding symbols_from
create_symbolized_board s = symbols_from s.cells 0 (board_height * board_width)

-- The negation of `player_shouldnt_get_update`.
unfoldable pub gets_update : PlayerState → Bool
gets_update inside_a_game = true
gets_update dead = true
gets_update spectator = true
gets_update _ = false

module _ (net : ℕ → UpdateWrites) where
  -- One round of the loop: the new descriptor of the client, and what was written to it. After a failed
  -- write nothing more is.
  unfoldable pub send_update : ℕ → PlayerState → List ℕ → Option ℕ → Option ℕ × List Written
  send_update i state board none = (none, [])
  send_update i state board (some fd) =
      if gets_update state then first_write (net i).start else (some fd, [])
    where
      third_write : WriteResult → List Written
      third_write sent = record { fd = fd; part = end_part } ∷ []
      third_write _ = []

      second_write : WriteResult → List Written
      second_write sent = record { fd = fd; part = board_part board } ∷ third_write (net i).finish
      second_write _ = []

      first_write : WriteResult → Option ℕ × List Written
      first_write sent =
          (some fd, record { fd = fd; part = start_part } ∷ second_write (net i).board)
      first_write would_block = (some fd, [])
      first_write broken = (none, [])

  -- The first `n` rounds.
  unfoldable pub send_updates : ℕ → Server → Server × List Written
  send_updates zero s = (s, [])
  send_updates (suc n) s =
      let (s', writes) = send_updates n s in
      let board = create_symbolized_board s' in
      let (fd, more) = send_update n (s'.players_info n).state board (s'.known_players_fds n) in
      (record s' { known_players_fds = update s'.known_players_fds n fd }, writes ++ more)

  unfoldable pub send_game_updates_handler : Server → Server × List Written
  send_game_updates_handler s = send_updates s.num_of_known_players s
