-- ===== src/Game/Session/Commands.antt =====
-- Players in a game: `handle_disconnected_player`, `handle_player_command`, `handle_known_player` and
-- `getUserAck` of C-Multiplayer-game/src/server/main.c.
use software_development_pla.Common.{
  ℕ, zero, ◌==◌, ltb, if◌then◌else◌, Bool, ◌&&◌, not, Option, none, some, List, [], ◌∷◌, length,
  take, ℤ, pos, update,
}
use software_development_pla.Game.Protocol.{decode_direction, client_ack_game_started}
use software_development_pla.Game.Types.{disconnected}
use software_development_pla.Game.State.{Server, set_player}
use software_development_pla.Game.Updates.{UpdateWrites}
use software_development_pla.Game.Life.{mark_as_dead, check_game_over}
use software_development_pla.Game.Session.Types.{
  bytes, not_yet, failed, Io, Session, Ended, returned, stopped, fault, try_again_later, minus_one,
  updater_thread_exited,
}
use software_development_pla.Game.Session.Names.{c_string, max_player_name}

abbrev pub small_msg_max_len : ℕ
small_msg_max_len = 200

-- The move of player `i`, or its name when it sent more than one byte. `command[n] = '\0'` needs room
-- after the `n` bytes.
unfoldable pub handle_player_command : ℕ → List ℕ → Session → Ended
handle_player_command i [] e = returned (pos 0) e
handle_player_command i (c ∷ []) e = returned (pos 0) (record e {
  server = record (e.server) {
    last_move_commands = update e.server.last_move_commands i (decode_direction c);
  };
})
handle_player_command i (c ∷ d ∷ cs) e =
    let command = c ∷ d ∷ cs in
    let player = e.server.players_info i in
    if ltb (length command) small_msg_max_len
    then returned (pos 0) (record e {
      server =
          set_player i (record player { name = take max_player_name (c_string command) }) e.server;
    })
    else fault

module _ (net : ℕ → UpdateWrites) (io : Io) where
  -- The server when player `i` is gone, and whether that ends the game.
  unfoldable pub disconnect : ℕ → Server → Server × Bool
  disconnect i s =
      let marked =
        mark_as_dead i (record s { known_players_fds = update s.known_players_fds i none }) in
      check_game_over net
        (set_player i (record (marked.players_info i) { state = disconnected }) marked)

  unfoldable pub handle_disconnected_player : Option ℕ → Session → Ended
  handle_disconnected_player none e = if io.epoll_del_fails then stopped else fault
  handle_disconnected_player (some i) e =
      let (server, over) = disconnect i e.server in
      if io.epoll_del_fails
      then stopped
      else if over && not e.has_board
      then fault
      else returned (if over then updater_thread_exited else pos 0) (record e { server = server })

  -- The game is over: the main thread goes on once the updater thread has ended.
  abbrev pub join_updater : Ended → Ended
  join_updater (returned _ e) = returned (pos 0) e
  join_updater other = other

  -- The game is over: `pthread_exit`.
  abbrev pub exit_when_over : Ended → Ended
  exit_when_over (returned (pos zero) e) = returned (pos 0) e
  exit_when_over (returned _ e) = stopped
  exit_when_over other = other

  unfoldable pub handle_known_player : Option ℕ → Session → Ended
  handle_known_player none e = fault
  handle_known_player (some i) e = elim io.command_read [
    | bytes read ↦ elim read [
      | [] ↦ join_updater (handle_disconnected_player (some i) e)
      | c ∷ cs ↦ handle_player_command i (c ∷ cs) e
    ]
    | not_yet ↦ returned try_again_later e
    | failed ↦ exit_when_over (handle_disconnected_player (some i) e)
  ]

-- 0 or -1; at the end of the stream the buffer keeps what it held.
unfoldable pub get_user_ack : Io → ℤ
get_user_ack io = elim io.ack_read [
  | bytes read ↦ elim read [
    | [] ↦ if io.ack_garbage == client_ack_game_started then pos 0 else minus_one
    | c ∷ _ ↦ if c == client_ack_game_started then pos 0 else minus_one
  ]
  | _ ↦ minus_one
]
