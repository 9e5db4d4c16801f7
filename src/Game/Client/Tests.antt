-- ===== src/Game/Client/Tests.antt =====
-- Runs of the client, and the theorems about it at them.
use mathlib.Core.List.{map}
use software_development_pla.Common.{
  ℕ, ◌+◌, ◌≡◌, ◌≢◌, refl, if◌then◌else◌, ltb, Bool, true, false, none, some, List, [], ◌∷◌, ◌++◌,
  arith, update, pos, length, ℕ_discrete,
}
use software_development_pla.Game.Protocol.{
  i_need_your_name_msg, enter_your_choice_msg, game_started, game_over, update_start, update_end,
  left, down, stopped, encode_direction, decode_direction,
}
use software_development_pla.Game.Tests.{fresh, idle_player}
use software_development_pla.Game.Types.{received_name, inside_a_game}
use software_development_pla.Game.State.{Server}
use software_development_pla.Game.Random.{to_direction}
use software_development_pla.Game.Session.Types.{Io, bytes, Session, returned, player_at}
use software_development_pla.Game.Session.Names.{store_name}
use software_development_pla.Game.Session.Commands.{get_user_ack}
use software_development_pla.Game.Updates.{
  sent, would_block, gets_update, send_update, send_updates, send_game_updates_handler,
}
use software_development_pla.Game.Client.Updates.{
  act_on_code, find_code, Dimensions, Poll, timeout, ready, Reader, goes_on, ended, exited, spins,
  receive_update, receive_updates, is_code,
}
use software_development_pla.Game.Client.Updates.Drawing.{symbols, window}
use software_development_pla.Game.Client.Updates.Wire.{
  Tick, board_dimensions, bytes_sent, boards_sent,
}
use software_development_pla.Game.Client.Updates.Reception.{new_reader, receive_updates-boards}
use software_development_pla.Game.Client.Updates.Termination.{receive_updates-total}
use software_development_pla.Game.Client.Updates.Errors.{
  receive_update-game_over, receive_update-short,
}
use software_development_pla.Game.Client.Commands.{
  no_moves, Bot, bot_timer_handler, propose, send_move_command, start_keyboard_listener, hear,
  press, at_key, out, code_of,
}
use software_development_pla.Game.Client.Commands.Laws.{
  new_bot, BotRun, start, alarm, send, Alternates, bot-Alternates, arrow, arrow-decoded,
}
use software_development_pla.Game.Client.Talk.{
  Round, got, closed, Talk, in_game, send_name, interact_with_server,
}
use software_development_pla.Game.Client.Talk.Names.{store_name-typed, send_name-given}
use software_development_pla.Game.Client.Talk.Laws.{questions, interact_with_server-in_game}

abbrev two_by_two : Dimensions
two_by_two = record { height = 2; width = 2 }

abbrev plenty : ℕ → ℕ
plenty _ = 4095

-- Two updates are there, then nothing comes.
abbrev ready_twice : ℕ → Poll
ready_twice k = if ltb k 2 then ready else timeout

-- One client, on descriptor 5, in a game.
abbrev watched : Server
watched = record fresh {
  num_of_known_players = 1;
  players_info = λ i. record (idle_player i) { state = inside_a_game };
  known_players_fds = λ _. some 5;
}

-- An update, one whose start the socket does not take, and one more.
abbrev three_ticks : List Tick
three_ticks =
    record { server = watched; net = λ _. record { start = sent; board = sent; finish = sent } }
    ∷ record {
      server = watched;
      net = λ _. record { start = would_block; board = sent; finish = sent };
    }
    ∷ record { server = watched; net = λ _. record { start = sent; board = sent; finish = sent } }
    ∷ []

receive_updates-boards_example :
    (r : Reader) × (receive_updates board_dimensions plenty ready_twice 3
        (new_reader (bytes_sent 5 three_ticks))
      ≡ ended r)
    × (map symbols r.screen ≡ boards_sent 5 three_ticks)
unfolding send_game_updates_handler send_updates send_update gets_update
receive_updates-boards_example =
    receive_updates-boards plenty ready_twice 5 three_ticks 3
      ((λ i. (refl, refl)), ((λ i. (refl, refl)), ((λ i. (refl, refl)), tt))) (λ k. omega arith)
      (omega arith) (λ k b. ground arith) refl

abbrev always_ready : ℕ → Poll
always_ready _ = ready

abbrev three_bytes : ℕ → ℕ
three_bytes _ = 2

receive_updates-total_example :
    (receive_updates two_by_two three_bytes always_ready 3 (new_reader (1 ∷ update_start ∷ []))
      ≢ goes_on (new_reader []))
    × (receive_updates two_by_two three_bytes always_ready 3 (new_reader (1 ∷ update_start ∷ []))
          ≡ spins (new_reader [])
        → ◌≡◌ {A = Bool} false true)
receive_updates-total_example =
    receive_updates-total two_by_two three_bytes always_ready 3 (new_reader (1 ∷ update_start ∷ []))
      (new_reader []) (omega arith)

-- On a closed connection the loop of one-byte reads never ends.
spins_when_closed :
    receive_updates two_by_two three_bytes always_ready 1
      (record (new_reader (1 ∷ [])) { closed = true })
    ≡ spins (record (new_reader (1 ∷ [])) { closed = true; polls = 1 })
unfolding receive_updates receive_update act_on_code find_code is_code
spins_when_closed = refl

ends_at_game_over :
    (r : Reader) × (receive_update two_by_two plenty always_ready
        (new_reader (1 ∷ 2 ∷ game_over ∷ 3 ∷ []))
      ≡ ended r)
    × (r.screen ≡ [])
    × (r.incoming ≡ 3 ∷ [])
unfolding is_code
ends_at_game_over =
    receive_update-game_over two_by_two plenty always_ready (1 ∷ 2 ∷ []) (3 ∷ [])
      (new_reader (1 ∷ 2 ∷ game_over ∷ 3 ∷ [])) refl (refl, (refl, tt)) refl refl

-- Three of the four symbols of a board are there when it is read.
receive_update-short_example :
    (r : Reader) × (receive_update two_by_two three_bytes always_ready
        (new_reader (update_start ∷ b'=' ∷ b'=' ∷ b'=' ∷ b'=' ∷ update_end ∷ []))
      ≡ exited r)
unfolding is_code
receive_update-short_example =
    receive_update-short two_by_two three_bytes always_ready (b'=' ∷ b'=' ∷ b'=' ∷ [])
      (update_end ∷ []) b'='
      (new_reader (update_start ∷ b'=' ∷ b'=' ∷ b'=' ∷ b'=' ∷ update_end ∷ [])) refl (omega arith)
      (omega arith) refl (λ e. omega (arith, e)) refl refl

-- getrandom gives the numbers of the bytes.
abbrev counting : ℕ → ℕ → ℕ
counting _ j = j

abbrev bot0 : Bot
bot0 = new_bot (λ _. 0)

-- An alarm, the sender, and the same again.
abbrev bot1 : Bot
bot1 = bot_timer_handler counting bot0

abbrev bot2 : Bot
bot2 = record bot1 { moves = record { current_move = none; last_sent_move = some 0 } }

abbrev bot3 : Bot
bot3 = bot_timer_handler counting bot2

abbrev bot4 : Bot
bot4 = record bot3 { moves = record { current_move = none; last_sent_move = some 1 } }

up_then_down : BotRun counting (λ _. 0) bot4 (0x0F ∷ 0x00 ∷ [])
unfolding bot_timer_handler propose send_move_command encode_direction to_direction
up_then_down = send bot3 _ 0x0F _ (alarm bot2 _ (send bot1 _ 0x00 _ (alarm bot0 _ start) refl)) refl

bot-Alternates_example : Alternates (0x0F ∷ 0x00 ∷ [])
bot-Alternates_example = bot-Alternates counting (λ _. 0) bot4 (0x0F ∷ 0x00 ∷ []) up_then_down

arrow-decoded_example :
    ((start_keyboard_listener false (arrow left) at_key no_moves).0 ≡ at_key)
    × ((byte : ℕ) × (send_move_command
            (start_keyboard_listener false (arrow left) at_key no_moves).1
          ≡ some (record { current_move = none; last_sent_move = some (code_of left) }, byte))
        × (decode_direction byte ≡ left))
arrow-decoded_example = arrow-decoded left no_moves refl

-- The key End is sent as the command DOWN.
end_moves_down :
    (start_keyboard_listener false (27 ∷ 91 ∷ b'F' ∷ []) at_key no_moves
      ≡ (out, record { current_move = some (code_of stopped); last_sent_move = none }))
    × (send_move_command (record { current_move = some (code_of stopped); last_sent_move = none })
        ≡ some (record { current_move = none; last_sent_move = some 5 }, encode_direction down))
unfolding start_keyboard_listener hear press send_move_command encode_direction to_direction
end_moves_down = (refl, refl)

abbrev quiet : Round
quiet = record {
  control = closed;
  typed_name = b'i' ∷ b'd' ∷ b'a' ∷ b'n' ∷ [];
  options = b'1' ∷ [];
  choice = b'1';
  height = some 15;
  width = some 20;
}

abbrev asks_name : Round
asks_name = record quiet { control = got i_need_your_name_msg }

abbrev asks_choice : Round
asks_choice = record quiet { control = got enter_your_choice_msg }

abbrev starts_game : Round
starts_game = record quiet { control = got game_started }

abbrev new_talk : Talk
new_talk = record { buf = λ _. 0; written = [] }

abbrev login : Session
login = record { server = fresh; stray = idle_player 0; updater_runs = false; has_board = false }

store_name-typed_example :
    (sent : List ℕ) × ((send_name none asks_name new_talk).written ≡ sent ∷ [])
    × ((e : Session) × (store_name (some 0) sent login ≡ returned (pos 0) e)
        × ((player_at (some 0) e).name ≡ b'i' ∷ b'd' ∷ b'a' ∷ b'n' ∷ [])
        × ((player_at (some 0) e).state ≡ received_name))
store_name-typed_example =
    store_name-typed asks_name new_talk (some 0) login
      (
        (λ e. omega (arith, e)),
        ((λ e. omega (arith, e)), ((λ e. omega (arith, e)), ((λ e. omega (arith, e)), tt))),
      )
      (omega arith)

-- The control byte, then NUL: two bytes of the name are sent.
abbrev asked : Talk
asked = record { buf = update (λ _. 0) 0 0x88; written = [] }

sends_control_byte_first :
    (send_name (some (λ j. 97 + j)) asks_name asked).written ≡ window (λ j. 97 + j) 0 (1 + 1) ∷ []
unfolding ℕ_discrete
sends_control_byte_first =
    send_name-given (λ j. 97 + j) asks_name asked 1 (λ j b e. ground arith) refl (omega arith)

interact_with_server-in_game_example :
    (t : Talk) × (ack : List ℕ) × (interact_with_server none
        (asks_name ∷ asks_choice ∷ starts_game ∷ [])
        new_talk
      ≡ in_game
          (record { height = 15; width = 20 })
          (record t { written = t.written ++ (ack ∷ []) }))
    × (length t.written ≡ 0 + questions (asks_name ∷ asks_choice ∷ []))
    × ((io : Io) → io.ack_read ≡ bytes ack → get_user_ack io ≡ pos 0)
interact_with_server-in_game_example =
    interact_with_server-in_game none (asks_name ∷ asks_choice ∷ []) starts_game 15 20 new_talk
      ((0x88, refl, λ e. omega (arith, e)), ((0x99, refl, λ e. omega (arith, e)), tt)) refl refl
      refl
