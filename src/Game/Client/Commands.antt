-- ===== src/Game/Client/Commands.antt =====
-- The commands of the client of C-Multiplayer-game: `timer_handler` and `send_move_commands` of
-- client/main.c, and `start_keyboard_listener` of client/termios2.c.
pub mod Laws
use software_development_pla.Common.{
  ℕ, ◌+◌, ◌%◌, ◌==◌, if◌then◌else◌, Bool, false, Option, none, some, List, [], ◌∷◌,
}
use software_development_pla.Game.Protocol.{
  Direction, up, down, left, right, invalid_move, stopped, encode_direction,
}
use software_development_pla.Game.Random.{num_of_directions, to_direction}

-- `currentMove` and `last_sent_move`; a char of -1 is `none`.
pub record Moves : Type 0 where
  pub current_move : Option ℕ
  pub last_sent_move : Option ℕ

abbrev pub no_moves : Moves
no_moves = record { current_move = none; last_sent_move = none }

-- The numbers of `enum Move`.
abbrev pub code_of : Direction → ℕ
code_of up = 0
code_of down = 1
code_of left = 2
code_of right = 3
code_of invalid_move = 4
code_of stopped = 5

-- One round of the loop: the byte that is written, or `none` while there is no move to send.
unfoldable pub send_move_command : Moves → Option (Moves × ℕ)
send_move_command m = elim m.current_move [
  | none ↦ none
  | some move ↦ some (
    record { current_move = none; last_sent_move = some move },
    encode_direction (to_direction (move % num_of_directions)),
  )
]

-- The static variables of `timer_handler`, with the number of calls of getrandom.
pub record Bot : Type 0 where
  pub moves : Moves
  pub rand_bytes : ℕ → ℕ
  pub index : ℕ
  pub fills : ℕ

abbrev pub bot_bytes_buf_len : ℕ
bot_bytes_buf_len = 256

abbrev pub is_move_of : Option ℕ → ℕ → Bool
is_move_of none cmd = false
is_move_of (some move) cmd = move == cmd

-- The test of the handler, with the mutex: a move that was just sent is not sent again.
unfoldable pub propose : ℕ → Moves → Moves
propose cmd m = if is_move_of m.last_sent_move cmd then m else record m { current_move = some cmd }

-- Call `k` of getrandom fills the buffer with `getrandom k`.
unfoldable pub bot_timer_handler : (ℕ → ℕ → ℕ) → Bot → Bot
bot_timer_handler getrandom b =
    let filled : Bot =
      if b.index == 0
      then record b { rand_bytes = getrandom b.fills; fills = b.fills + 1 }
      else b in
    let cmd = filled.rand_bytes filled.index % num_of_directions in
    record filled {
      moves = propose cmd filled.moves;
      index = (filled.index + 1) % bot_bytes_buf_len;
    }

-- Where the keyboard listener is: between keys, after the byte 27, after 27 and 91, or out of its loop.
pub data Listening : Type 0 where
  at_key after_escape after_bracket out : Listening

-- The third byte of a key; the key End ends the loop.
unfoldable pub press : ℕ → Moves → Listening × Moves
press key m =
    if key == b'A'
    then (at_key, record m { current_move = some (code_of up) })
    else if key == b'B'
    then (at_key, record m { current_move = some (code_of down) })
    else if key == b'C'
    then (at_key, record m { current_move = some (code_of right) })
    else if key == b'D'
    then (at_key, record m { current_move = some (code_of left) })
    else if key == b'F'
    then (out, record m { current_move = some (code_of stopped) })
    else (at_key, m)

-- The listener gets the byte `key`.
unfoldable pub hear : Bool → ℕ → Listening → Moves → Listening × Moves
hear is_game_over key at_key m =
    if is_game_over then (out, m) else if key == 27 then (after_escape, m) else (at_key, m)
hear is_game_over key after_escape m = if key == 91 then (after_bracket, m) else (at_key, m)
hear is_game_over key after_bracket m = press key m
hear is_game_over key out m = (out, m)

unfoldable pub start_keyboard_listener : Bool → List ℕ → Listening → Moves → Listening × Moves
start_keyboard_listener is_game_over [] mode m = (mode, m)
start_keyboard_listener is_game_over (key ∷ keys) mode m =
    let (mode', m') = hear is_game_over key mode m in
    start_keyboard_listener is_game_over keys mode' m'
