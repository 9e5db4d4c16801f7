-- ===== src/Game/Session/Tests.antt =====
-- Events of clients at a server with two known players, and the theorems about them there.
use software_development_pla.Common.{
  atoi, digits, ℕ, ℕ_discrete, ◌+◌, ◌<◌, ◌≡◌, ◌≢◌, ◌⊎◌, refl, false, none, some, List, [], ◌∷◌,
  arith, pos,
}
use software_development_pla.Game.Types.{wall_cell, was_asked_for_name, waiting_for_name}
use software_development_pla.Game.State.{u32}
use software_development_pla.Game.Life.{mark_as_dead, check_game_over}
use software_development_pla.Game.Session.Commands.{disconnect, handle_disconnected_player}
use software_development_pla.Game.Updates.{sent}
use software_development_pla.Game.Tests.{fresh, idle_player, all_sent}
use software_development_pla.Game.Session.Types.{
  bytes, Io, Session, Ended, returned, fault, player_at, put_player, set_state, is_in_state,
}
use software_development_pla.Game.Session.Names.{
  index_from, get_player_index, read_name, store_name, c_string,
}
use software_development_pla.Game.Session.Choices.{
  show_options, read_choice, handle_user_choice, wait_for_others,
}
use software_development_pla.Game.Session.Events.{
  handle_player_event, ask_stage, name_stage, menu_stage, options_stage, choice_stage,
  act_on_choice,
}
use software_development_pla.Game.Session.Others.Events.{handle_player_event-others}
use software_development_pla.Game.Session.Loop.{
  Answers, Event, Wait, interrupted, ready, Loop, serving, epoll_loop,
}
use software_development_pla.Game.Session.Loop.Batches.{NoneFailed}
use software_development_pla.Game.Session.Loop.Slots.{Differs, AreNew, InSlots}
use software_development_pla.Game.Session.Loop.Arrivals.{connection, epoll_loop-arrivals}
use software_development_pla.Game.Session.Arrival.{get_player_index_lem, handle_player_event-new}

-- The client sends the name "ab", or the choice 3.
abbrev io : Io
io = record {
  name_read = bytes (b'a' ∷ b'b' ∷ []);
  choice_read = bytes (b'3' ∷ []);
  ack_read = bytes (0xCC ∷ []);
  command_read = bytes (0xF0 ∷ []);
  menu_write = sent;
  options_write = sent;
  start_write = sent;
  height_write = sent;
  epoll_del_fails = false;
  errno_again = false;
  after_choice = [];
  ack_garbage = 0;
}

abbrev session : Session
session = record { server = fresh; stray = idle_player 0; updater_runs = false; has_board = false }

unknown : get_player_index 9 session.server ≡ none
unfolding get_player_index index_from
unknown = refl

get_player_index_lem_example :
    ((get_player_index 6 session.server ≡ none)
      × ((j : ℕ) → j < 2 → session.server.known_players_fds j ≢ some 6))
    ⊎ ((k : ℕ) × (get_player_index 6 session.server ≡ some k)
        × (k < 2)
        × (session.server.known_players_fds k ≡ some 6)
        × ((j : ℕ) → j < k → session.server.known_players_fds j ≢ some 6))
get_player_index_lem_example = get_player_index_lem session.server 6

handle_player_event-new_example :
    (e' : Session) × (handle_player_event all_sent (λ k. k) (λ _. wall_cell) io 9 session
      ≡ returned (pos 0) e')
    × (e'.server.num_of_known_players ≡ session.server.num_of_known_players + 1)
    × (e'.server.num_of_alive_players ≡ u32 (session.server.num_of_alive_players + 1))
    × (get_player_index 9 e'.server ≡ some session.server.num_of_known_players)
    × ((e'.server.players_info session.server.num_of_known_players).state ≡ was_asked_for_name)
    × ((e'.server.players_info session.server.num_of_known_players).index
        ≡ (session.server.players_info session.server.num_of_known_players).index)
    × (e'.stray.index ≡ session.server.num_of_known_players)
handle_player_event-new_example =
    handle_player_event-new all_sent (λ k. k) (λ _. wall_cell) io 9 session unknown (omega arith)

-- Slot 1, with descriptor 6, has been asked for its name: one event takes it through the menu to its
-- choice, to wait for others, which leaves it in the state in which a name is read.
abbrev asked : Session
asked = set_state (some 1) was_asked_for_name session

abbrev IsWaitingForName : Ended → Type 0
IsWaitingForName (returned _ e) = (e.server.players_info 1).state ≡ waiting_for_name
IsWaitingForName _ = ⊥

waits_for_name_again :
    IsWaitingForName (handle_player_event all_sent (λ k. k) (λ _. wall_cell) io 6 asked)
unfolding handle_player_event ask_stage name_stage menu_stage options_stage choice_stage
    act_on_choice get_player_index index_from is_in_state player_at set_state put_player read_name
    store_name c_string read_choice atoi digits handle_user_choice wait_for_others show_options
    ℕ_discrete
waits_for_name_again = refl

abbrev after : Ended → Session
after (returned _ e) = e
after _ = session

handle_player_event-others_example :
    let e' = after (handle_player_event all_sent (λ k. k) (λ _. wall_cell) io 6 asked) in
    e'.server.players_info 0 ≡ asked.server.players_info 0
unfolding handle_player_event ask_stage name_stage menu_stage options_stage choice_stage
    act_on_choice get_player_index index_from is_in_state player_at set_state put_player read_name
    store_name c_string read_choice atoi digits handle_user_choice wait_for_others show_options
    ℕ_discrete
handle_player_event-others_example =
    handle_player_event-others all_sent (λ k. k) (λ _. wall_cell) io 6 1 (pos 0) asked
      (after (handle_player_event all_sent (λ k. k) (λ _. wall_cell) io 6 asked)) refl refl 0
      (λ e. absurd (omega arith))

abbrev answers : Answers
answers = record {
  accept = none;
  epoll_add_fails = false;
  join_fails = false;
  net = all_sent;
  rand = λ k. k;
  board = λ _. wall_cell;
  io = io;
}

abbrev client9 : Event
client9 = record { fd = 9; answers = answers }

abbrev client8 : Event
client8 = record { fd = 8; answers = answers }

-- The listening socket has descriptor 3.
abbrev loop : Loop
loop = record { session = session; watched = 3 ∷ [] }

-- The event of the first client comes together with the connection of the second, after a signal.
abbrev waits : List Wait
waits =
    ready (connection 3 client9 ∷ [])
    ∷ interrupted
    ∷ ready (client9 ∷ connection 3 client8 ∷ [])
    ∷ ready (client8 ∷ [])
    ∷ []

epoll_loop-arrivals_example :
    (l' : Loop) × (epoll_loop 3 waits loop ≡ serving l')
    × (l'.session.server.num_of_known_players ≡ 4)
    × InSlots l'.session.server 2 (client9 ∷ client8 ∷ [])
    × (l'.watched ≡ 3 ∷ 9 ∷ 8 ∷ [])
unfolding NoneFailed AreNew Differs get_player_index index_from
epoll_loop-arrivals_example =
    epoll_loop-arrivals 3 (client9 ∷ client8 ∷ []) waits loop tt refl
      (
        (λ e. omega (arith, e)),
        refl,
        ((λ e. omega (arith, e)), tt),
        ((λ e. omega (arith, e)), refl, tt, tt),
      )
      (omega arith)

-- The last client leaves before any game.
abbrev last_one : Session
last_one = record session { server = record fresh { num_of_alive_players = 1 } }

leaves_without_board : handle_disconnected_player all_sent io (some 0) last_one ≡ fault
unfolding handle_disconnected_player disconnect check_game_over mark_as_dead
leaves_without_board = refl
