-- ===== src/Game/Session/Types.antt =====
-- The state and the outcomes of the thread that serves the sockets, in
-- C-Multiplayer-game/src/server/main.c, and what the system calls of one event answer.
use software_development_pla.Common.{ℕ, ◌==◌, Bool, Option, none, some, List, ℤ, pos, negsuc}
use software_development_pla.Game.Types.{
  Player, PlayerState, disconnected, just_logged_in, was_asked_for_name, waiting_for_name,
  received_name, waiting_for_options, was_shown_options, waiting_for_choice, waiting_for_others,
  waiting_for_game_to_start, waiting_for_client_to_ack_game, inside_a_game, spectator, dead,
}
use software_development_pla.Game.State.{Server, set_player}
use software_development_pla.Game.Updates.{WriteResult}

-- `read` returns bytes, none of them at the end of the stream, or -1 with EAGAIN or EWOULDBLOCK, or -1
-- with another errno.
pub data ReadResult : Type 0 where
  bytes : List ℕ → ReadResult
  not_yet : ReadResult
  failed : ReadResult

-- `errno_again`: an earlier call left EAGAIN in errno. `after_choice` and `ack_garbage`: the bytes on
-- the stack after the character of a choice, and in the buffer of an acknowledgement.
pub record Io : Type 0 where
  pub name_read : ReadResult
  pub choice_read : ReadResult
  pub ack_read : ReadResult
  pub command_read : ReadResult
  pub menu_write : WriteResult
  pub options_write : WriteResult
  pub start_write : WriteResult
  pub height_write : WriteResult
  pub epoll_del_fails : Bool
  pub errno_again : Bool
  pub after_choice : List ℕ
  pub ack_garbage : ℕ

-- `stray` is the memory before `players_info`, which `players_info[-1]` names. `updater_runs` says that
-- `start_game` has created the thread of the updates, and `has_board` that `p_board` is not NULL, its
-- value before the first game.
pub record Session : Type 0 where
  pub server : Server
  pub stray : Player
  pub updater_runs : Bool
  pub has_board : Bool

-- An event is handled, with what `handle_player_event` returns, or ends in `exit` or `pthread_exit`, or
-- reads or writes through NULL or out of the bounds of an array, other than through `players_info[-1]`.
pub data Ended : Type 0 where
  returned : ℤ → Session → Ended
  stopped : Ended
  fault : Ended

abbrev pub try_again_later : ℤ
try_again_later = pos 666

abbrev pub updater_thread_exited : ℤ
updater_thread_exited = pos 444

abbrev pub minus_one : ℤ
minus_one = negsuc 0

-- `&players_info[i]`, where `none` is -1.
unfoldable pub player_at : Option ℕ → Session → Player
player_at none e = e.stray
player_at (some i) e = e.server.players_info i

unfoldable pub put_player : Option ℕ → Player → Session → Session
put_player none q e = record e { stray = q }
put_player (some i) q e = record e { server = set_player i q e.server }

unfoldable pub set_state : Option ℕ → PlayerState → Session → Session
unfolding put_player player_at
set_state i state e = put_player i (record (player_at i e) { state = state }) e

abbrev pub state_code : PlayerState → ℕ
state_code disconnected = 0
state_code just_logged_in = 1
state_code was_asked_for_name = 2
state_code waiting_for_name = 3
state_code received_name = 4
state_code waiting_for_options = 5
state_code was_shown_options = 6
state_code waiting_for_choice = 7
state_code waiting_for_others = 8
state_code waiting_for_game_to_start = 9
state_code waiting_for_client_to_ack_game = 10
state_code inside_a_game = 11
state_code spectator = 12
state_code dead = 13

-- `players_info[i].state == state`
unfoldable pub is_in_state : Option ℕ → PlayerState → Session → Bool
unfolding player_at
is_in_state i state e = state_code (player_at i e).state == state_code state
