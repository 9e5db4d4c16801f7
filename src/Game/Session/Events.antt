-- ===== src/Game/Session/Events.antt =====
-- `handle_player_event` of C-Multiplayer-game/src/server/main.c, stage by stage. `i` is `player_idx`
-- and `p` is the slot that `player_status` points to, with `none` for -1.
use software_development_pla.Common.{
  ℕ, ◌==◌, ltb, if◌then◌else◌, Bool, false, ◌||◌, not, Option, none, some, ℤ, pos, negsuc,
  is_number,
}
use software_development_pla.Game.Types.{
  Cell, just_logged_in, was_asked_for_name, waiting_for_name, received_name, waiting_for_options,
  was_shown_options, waiting_for_choice, waiting_for_client_to_ack_game, inside_a_game,
  max_num_of_players,
}
use software_development_pla.Game.Updates.{UpdateWrites, sent}
use software_development_pla.Game.Setup.{put_player_on_board, board_cells}
use software_development_pla.Game.Session.Types.{
  Io, Session, Ended, returned, stopped, fault, set_state, is_in_state, try_again_later, minus_one,
  updater_thread_exited,
}
use software_development_pla.Game.Session.Names.{
  get_player_index, add_to_known_players, inquiry_for_player_name, read_name,
}
use software_development_pla.Game.Session.Choices.{read_choice, show_options, handle_user_choice}
use software_development_pla.Game.Session.Commands.{
  handle_disconnected_player, handle_known_player, get_user_ack,
}

-- A new client is added, if there is room; `player_status` points to `players_info[-1]` all the same.
unfoldable pub welcome : ℕ → Session → Option ℕ × Session
welcome fd e =
    let (server, n) = add_to_known_players fd e.server in
    let added : Session = record e { server = server } in
    let player = record added.stray { state = just_logged_in; index = n; has_superpower = false } in
    if ltb e.server.num_of_known_players max_num_of_players
    then (some n, record added { stray = player })
    else (none, e)

-- Go on with the next stage, unless this one has ended the event.
abbrev pub and_then : Ended → (Session → Ended) → Ended
and_then (returned code e) next = next e
and_then other next = other

-- A value of `int` equal to a constant.
abbrev pub equals : ℤ → ℤ → Bool
equals (pos m) (pos n) = m == n
equals (negsuc m) (negsuc n) = m == n
equals _ _ = false

abbrev pub is_option : ℤ → Bool
is_option z = is_number z 1 || is_number z 2 || is_number z 3

-- Only UPDATER_THREAD_EXITED is passed on.
abbrev pub only_exit : Ended → Ended
only_exit (returned code e) =
    if equals code updater_thread_exited then returned code e else returned (pos 0) e
only_exit other = other

abbrev pub finish : Ended → Ended
finish (returned code e) = returned (pos 0) e
finish other = other

-- `game_initiator_idx == i`
abbrev pub is_initiator : ℕ → Option ℕ → Bool
is_initiator i none = false
is_initiator i (some j) = j == i

module _ (net : ℕ → UpdateWrites) (rand : ℕ → ℕ) (board : ℕ → Cell) (io : Io) where
  -- What becomes of the choice that was read.
  unfoldable pub act_on_choice : Option ℕ → Option ℕ → Ended → Ended
  act_on_choice i p (returned choice e) =
      if equals choice try_again_later
      then returned (pos 2) e
      else if equals choice minus_one
      then only_exit (handle_disconnected_player net io i e)
      else if is_option choice
      then finish (handle_user_choice rand board io choice p e)
      else returned (pos 0) e
  act_on_choice i p other = other

  -- The acknowledged player `i` starts the updates if it is the initiator, and is put on the board.
  unfoldable pub enter_game : Option ℕ → Session → Ended
  enter_game none e = fault
  enter_game (some i) e =
      let started : Session = record e {
        updater_runs = e.updater_runs || is_initiator i e.server.game_initiator_idx;
      } in
      let (server, placed) = put_player_on_board rand board_cells 0 i started.server in
      if not e.has_board
      then fault
      else if placed
      then returned (pos 0) (set_state (some i) inside_a_game (record started { server = server }))
      else stopped

  unfoldable pub choice_stage : Option ℕ → Option ℕ → Session → Ended
  choice_stage i p e =
      if is_in_state p was_shown_options e || is_in_state p waiting_for_choice e
      then act_on_choice i p (read_choice io p e)
      else if is_in_state p waiting_for_client_to_ack_game e
      then (if is_number (get_user_ack io) 0 then enter_game p e else returned minus_one e)
      else if is_in_state p inside_a_game e
      then and_then (handle_known_player net io i e) (returned (pos 0))
      else returned (pos 0) e

  unfoldable pub options_stage : Option ℕ → Option ℕ → Session → Ended
  options_stage i p e =
      if is_in_state p waiting_for_options e
      then and_then (show_options io e) (λ e'. choice_stage i p (set_state p was_shown_options e'))
      else choice_stage i p e

  unfoldable pub menu_stage : Option ℕ → Option ℕ → Session → Ended
  menu_stage i p e =
      if is_in_state p received_name e
      then elim io.menu_write [
        | sent ↦ options_stage i p (set_state p waiting_for_options e)
        | _ ↦ stopped
      ]
      else options_stage i p e

  -- `TRY_AGAIN_LATER` ends the event.
  abbrev pub unless_later : Ended → (Session → Ended) → Ended
  unless_later (returned code e) next =
      if equals code try_again_later then returned code e else next e
  unless_later other next = other

  unfoldable pub name_stage : Option ℕ → Option ℕ → Session → Ended
  name_stage i p e =
      if is_in_state p was_asked_for_name e || is_in_state p waiting_for_name e
      then unless_later (read_name io i e) (menu_stage i p)
      else menu_stage i p e

  unfoldable pub ask_stage : Option ℕ → Option ℕ → Session → Ended
  ask_stage i p e =
      name_stage i p (if is_in_state p just_logged_in e then inquiry_for_player_name i e else e)

  unfoldable pub handle_player_event : ℕ → Session → Ended
  handle_player_event fd e = elim (get_player_index fd e.server) [
    | some i ↦ ask_stage (some i) (some i) e
    | none ↦ let (i, e') = welcome fd e in ask_stage i none e'
  ]
