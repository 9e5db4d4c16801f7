-- ===== src/Game/Session/Others/Events.antt =====
-- `handle_player_event` of C-Multiplayer-game/src/server/main.c for a known client, and the records of
-- the other players.
use software_development_pla.Common.{
  ℕ, ◌≡◌, ◌≢◌, ◌∙◌, refl, subst, if◌then◌else◌, Bool, true, false, some, ℤ, pos, is_number, ◌||◌,
}
use software_development_pla.Game.Types.{
  Player, Cell, was_asked_for_name, waiting_for_choice, waiting_for_client_to_ack_game,
  inside_a_game, just_logged_in, was_shown_options,
}
use software_development_pla.Game.Updates.{UpdateWrites}
use software_development_pla.Game.Setup.{board_cells}
use software_development_pla.Game.Session.Types.{
  Io, Session, Ended, returned, stopped, fault, set_state, is_in_state, minus_one,
}
use software_development_pla.Game.Session.Names.{inquiry_for_player_name, get_player_index}
use software_development_pla.Game.Session.Choices.{show_options}
use software_development_pla.Game.Session.Commands.{handle_known_player, get_user_ack}
use software_development_pla.Game.Session.Events.{
  handle_player_event, ask_stage, name_stage, menu_stage, options_stage, choice_stage,
  act_on_choice, enter_game,
}
use software_development_pla.Game.Session.Others.Servers.{put_player_on_board-others}
use software_development_pla.Game.Session.Others.Stages.{write-Others, read_name-Others}
use software_development_pla.Game.Session.Others.{
  Same, Others, returned-Others, stopped-Others, fault-Others, if-Others, set_state-Same,
}
use software_development_pla.Game.Session.Others.Commands.{
  and_then-Others, unless_later-Others, only_exit-Others, finish-Others, read_choice-Others,
  handle_user_choice-Others, handle_disconnected_player-Others, handle_known_player-Others,
}

module _ (net : ℕ → UpdateWrites) (rand : ℕ → ℕ) (board : ℕ → Cell) (io : Io) (i : ℕ)
    (players : ℕ → Player) where
  Others-Same : (code : ℤ) (e : Session) → Others i players (returned code e) → Same i players e
  unfolding Others
  Others-Same code e h = h

  act_on_choice-Others :
      (o : Ended)
      → Others i players o
      → Others i players (act_on_choice net rand board io (some i) (some i) o)
  unfolding act_on_choice
  act_on_choice-Others (returned choice e) h =
      let same : Same i players e = Others-Same choice e h in
      if-Others i players _ _ _ (returned-Others i players _ e same) (
        if-Others i players _ _ _
          (only_exit-Others net rand board io i players _
            (handle_disconnected_player-Others net rand board io i players e same))
          (if-Others i players _ _ _
            (finish-Others net rand board io i players _
              (handle_user_choice-Others net rand board io i players choice e same))
            (returned-Others i players _ e same)))
  act_on_choice-Others stopped h = h
  act_on_choice-Others fault h = h

  enter_game-Others :
      (e : Session) → Same i players e → Others i players (enter_game net rand board io (some i) e)
  unfolding enter_game
  enter_game-Others e h = if-Others i players _ _ _ (fault-Others i players) (
      if-Others i players _ _ _
        (returned-Others i players _ _ (
          set_state-Same i players _ _
            (λ j ne. put_player_on_board-others rand board_cells 0 i e.server j ne ∙ h j ne)))
        (stopped-Others i players))

  choice_stage-Others :
      (e : Session)
      → Same i players e
      → Others i players (choice_stage net rand board io (some i) (some i) e)
  unfolding choice_stage
  choice_stage-Others e h =
      if-Others i players
        (is_in_state (some i) was_shown_options e || is_in_state (some i) waiting_for_choice e) _ _
        (act_on_choice-Others _ (read_choice-Others net rand board io i players e h))
        (if-Others i players (is_in_state (some i) waiting_for_client_to_ack_game e) _ _
          (if-Others i players (is_number (get_user_ack io) 0) _ _ (enter_game-Others e h)
            (returned-Others i players minus_one e h))
          (if-Others i players (is_in_state (some i) inside_a_game e) _ _
            (and_then-Others net rand board io i players (handle_known_player net io (some i) e)
              (returned (pos 0)) (handle_known_player-Others net rand board io i players e h)
              (λ e' h'. returned-Others i players (pos 0) e' h'))
            (returned-Others i players (pos 0) e h)))

  options_stage-Others :
      (e : Session)
      → Same i players e
      → Others i players (options_stage net rand board io (some i) (some i) e)
  unfolding options_stage show_options
  options_stage-Others e h =
      if-Others i players _ _ _
        (and_then-Others net rand board io i players _ _
          (write-Others io i players io.options_write _ _ _ (returned-Others i players _ e h)
            (returned-Others i players _ e h) (stopped-Others i players))
          (λ e' h'. choice_stage-Others _ (set_state-Same i players _ e' h')))
        (choice_stage-Others e h)

  menu_stage-Others :
      (e : Session)
      → Same i players e
      → Others i players (menu_stage net rand board io (some i) (some i) e)
  unfolding menu_stage
  menu_stage-Others e h =
      if-Others i players _ _ _
        (write-Others io i players io.menu_write _ _ _
          (options_stage-Others _ (set_state-Same i players _ e h)) (stopped-Others i players)
          (stopped-Others i players))
        (options_stage-Others e h)

  name_stage-Others :
      (e : Session)
      → Same i players e
      → Others i players (name_stage net rand board io (some i) (some i) e)
  unfolding name_stage
  name_stage-Others e h =
      if-Others i players _ _ _
        (unless_later-Others net rand board io i players _ _ (read_name-Others io i players e h)
          menu_stage-Others)
        (menu_stage-Others e h)

  ask_stage-Others :
      (e : Session)
      → Same i players e
      → Others i players (ask_stage net rand board io (some i) (some i) e)
  unfolding ask_stage inquiry_for_player_name
  ask_stage-Others e h =
      name_stage-Others _
        (if-Same (is_in_state (some i) just_logged_in e) (set_state-Same i players _ e h))
    where
      if-Same :
          (b : Bool)
          → Same i players (set_state (some i) was_asked_for_name e)
          → Same i players (if b then set_state (some i) was_asked_for_name e else e)
      if-Same true g = g
      if-Same false g = h

-- Whatever its system calls answer, an event of a known client that the server handles to its end
-- leaves the record of every other player as it was.
pub handle_player_event-others :
    (net : ℕ → UpdateWrites) (rand : ℕ → ℕ) (board : ℕ → Cell) (io : Io) (fd i : ℕ) (code : ℤ)
    (e e' : Session)
    → get_player_index fd e.server ≡ some i
    → handle_player_event net rand board io fd e ≡ returned code e'
    → (j : ℕ) → i ≢ j
    → e'.server.players_info j ≡ e.server.players_info j
unfolding handle_player_event
handle_player_event-others net rand board io fd i code e e' known ends =
    Others-Same net rand board io i e.server.players_info code e' (
      subst (Others i e.server.players_info) (rw (handle_player_event, known) at ends)
        (ask_stage-Others net rand board io i e.server.players_info e (λ j ne. refl)))
