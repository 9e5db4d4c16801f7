-- ===== src/Game/Session/Choices.antt =====
-- The choices of the clients: `readChoice`, `showOptions`, `notify_player_on_game`, `wait_for_others`
-- and `handle_user_choice` of C-Multiplayer-game/src/server/main.c.
use software_development_pla.Common.{
  ℕ, if◌then◌else◌, true, Option, none, some, [], ◌∷◌, atoi, ℤ, pos, is_number,
}
use software_development_pla.Game.Types.{
  Cell, waiting_for_name, waiting_for_choice, waiting_for_game_to_start,
  waiting_for_client_to_ack_game,
}
use software_development_pla.Game.Updates.{sent, would_block, broken}
use software_development_pla.Game.State.{Server}
use software_development_pla.Game.Setup.{new_game}
use software_development_pla.Game.Session.Types.{
  bytes, not_yet, failed, Io, Session, Ended, returned, stopped, fault, player_at, set_state,
  try_again_later, minus_one,
}

unfoldable pub read_choice : Io → Option ℕ → Session → Ended
read_choice io i e = elim io.choice_read [
  | bytes read ↦ elim read [
    | [] ↦ returned minus_one e
    | c ∷ _ ↦ returned (atoi (c ∷ io.after_choice)) e
  ]
  | not_yet ↦ returned try_again_later (set_state i waiting_for_choice e)
  | failed ↦ returned minus_one e
]

unfoldable pub show_options : Io → Session → Ended
show_options io e = elim io.options_write [
  | sent ↦ returned (pos 0) e
  | would_block ↦ returned (pos 0) e
  | broken ↦ stopped
]

-- The height is not written again when it could not be.
unfoldable pub notify_player_on_game : Io → Session → Ended
notify_player_on_game io e = elim io.start_write [
  | sent ↦ elim io.height_write [
    | sent ↦ returned (pos 0) e
    | would_block ↦ returned minus_one e
    | broken ↦ stopped
  ]
  | _ ↦ stopped
]

-- WAIT_FOR_OTHERS is the third option, and as a state of a player that is WAITING_FOR_NAME.
unfoldable pub wait_for_others : Option ℕ → Session → Session
wait_for_others i e = set_state i waiting_for_name e

-- What `notify_player_on_game` returns is not looked at.
abbrev pub ignore_result : Ended → Ended
ignore_result (returned _ e) = returned (pos 0) e
ignore_result other = other

-- `board` is what the memory of a new board holds.
module _ (rand : ℕ → ℕ) (board : ℕ → Cell) where
  unfoldable pub with_game : Io → Session → Option Server → Ended
  with_game io e none = fault
  with_game io e (some server) =
      ignore_result (notify_player_on_game io (record e { server = server; has_board = true }))

  unfoldable pub start_new_game : Io → Option ℕ → Session → Ended
  start_new_game io i e =
      let e' = set_state i waiting_for_client_to_ack_game e in
      if e.server.has_someone_started_a_game
      then returned (pos 0) e
      else with_game io e' (
          new_game rand board
            (record e'.server { game_initiator_idx = some (player_at i e').index }))

  unfoldable pub handle_user_choice : Io → ℤ → Option ℕ → Session → Ended
  handle_user_choice io choice i e =
      if is_number choice 1
      then start_new_game io i e
      else if is_number choice 2
      then ignore_result (notify_player_on_game io (set_state i waiting_for_client_to_ack_game e))
      else if is_number choice 3
      then returned (pos 0) (wait_for_others i (set_state i waiting_for_game_to_start e))
      else stopped
