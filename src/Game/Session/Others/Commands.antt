-- ===== src/Game/Session/Others/Commands.antt =====
-- The choices and the commands of a known client, in C-Multiplayer-game/src/server/main.c, leave the
-- records of the other players as they are.
use software_development_pla.Common.{
  atoi, ℕ, zero, suc, ◌∙◌, update-ne, ap, refl, ◌≡◌, Option, none, some, List, [], ◌∷◌, ℤ, pos,
  negsuc,
}
use software_development_pla.Game.Types.{Player, Cell, waiting_for_choice}
use software_development_pla.Game.State.{Server}
use software_development_pla.Game.Setup.{new_game}
use software_development_pla.Game.Updates.{UpdateWrites}
use software_development_pla.Game.Session.Types.{
  ReadResult, bytes, not_yet, failed, Io, Session, Ended, returned, stopped, fault, set_state,
  try_again_later, minus_one, updater_thread_exited,
}
use software_development_pla.Game.Session.Choices.{
  read_choice, wait_for_others, start_new_game, with_game, handle_user_choice,
}
use software_development_pla.Game.Session.Commands.{
  handle_player_command, handle_disconnected_player, handle_known_player, join_updater,
  exit_when_over,
}
use software_development_pla.Game.Session.Events.{and_then, equals, unless_later, only_exit, finish}
use software_development_pla.Game.Session.Others.Servers.{new_game-players, disconnect-others}
use software_development_pla.Game.Session.Others.Stages.{notify-Others, ignore_result-Others}
use software_development_pla.Game.Session.Others.{
  Same, Others, returned-Others, stopped-Others, fault-Others, if-Others, set_state-Same,
}

module _ (net : ℕ → UpdateWrites) (rand : ℕ → ℕ) (board : ℕ → Cell) (io : Io) (i : ℕ)
    (players : ℕ → Player) where
  -- A stage that only changes what is returned, or goes on.
  pub and_then-Others :
      (o : Ended) (next : Session → Ended)
      → Others i players o
      → ((e : Session) → Same i players e → Others i players (next e))
      → Others i players (and_then o next)
  unfolding Others
  and_then-Others (returned c e) next h k = k e h
  and_then-Others stopped next h k = tt
  and_then-Others fault next h k = tt

  pub unless_later-Others :
      (o : Ended) (next : Session → Ended)
      → Others i players o
      → ((e : Session) → Same i players e → Others i players (next e))
      → Others i players (unless_later net rand board io o next)
  unfolding Others
  unless_later-Others (returned c e) next h k =
      if-Others i players (equals c try_again_later) (returned c e) (next e) h (k e h)
  unless_later-Others stopped next h k = h
  unless_later-Others fault next h k = h

  pub only_exit-Others : (o : Ended) → Others i players o → Others i players (only_exit o)
  unfolding Others
  only_exit-Others (returned c e) h =
      if-Others i players (equals c updater_thread_exited) (returned c e) (returned (pos 0) e) h h
  only_exit-Others stopped h = h
  only_exit-Others fault h = h

  pub finish-Others : (o : Ended) → Others i players o → Others i players (finish o)
  unfolding Others
  finish-Others (returned c e) h = h
  finish-Others stopped h = h
  finish-Others fault h = h

  pub read_choice-Others :
      (e : Session) → Same i players e → Others i players (read_choice io (some i) e)
  unfolding read_choice
  read_choice-Others e h = go io.choice_read
    where
      go :
          (r : ReadResult)
          → Others i players (elim r [
            | bytes read ↦ elim read [
              | [] ↦ returned minus_one e
              | c ∷ _ ↦ returned (atoi (c ∷ io.after_choice)) e
            ]
            | not_yet ↦ returned try_again_later (set_state (some i) waiting_for_choice e)
            | failed ↦ returned minus_one e
          ])
      go (bytes []) = returned-Others i players _ e h
      go (bytes (c ∷ cs)) = returned-Others i players _ e h
      go not_yet = returned-Others i players _ _ (set_state-Same i players _ e h)
      go failed = returned-Others i players _ e h

  with_game-Others :
      (e : Session) (o : Option Server)
      → ((s' : Server) → o ≡ some s' → Same i players (record e { server = s' }))
      → Others i players (with_game rand board io e o)
  unfolding with_game
  with_game-Others e none h = fault-Others i players
  with_game-Others e (some s') h =
      ignore_result-Others io i players _ (notify-Others io i players _ (h s' refl))

  pub handle_user_choice-Others :
      (choice : ℤ) (e : Session)
      → Same i players e
      → Others i players (handle_user_choice rand board io choice (some i) e)
  unfolding handle_user_choice start_new_game wait_for_others
  handle_user_choice-Others choice e h =
      if-Others i players _ _ _
        (if-Others i players _ _ _ (returned-Others i players _ e h) (
          with_game-Others _ (new_game rand board _) (λ s' made j ne.
            ap (λ f. f j) (new_game-players rand board _ s' made)
            ∙ set_state-Same i players _ e h j ne)))
        (if-Others i players _ _ _
          (ignore_result-Others io i players _
            (notify-Others io i players _ (set_state-Same i players _ e h)))
          (if-Others i players _ _ _
            (returned-Others i players _ _
              (set_state-Same i players _ _ (set_state-Same i players _ e h)))
            (stopped-Others i players)))

  pub handle_disconnected_player-Others :
      (e : Session)
      → Same i players e
      → Others i players (handle_disconnected_player net io (some i) e)
  unfolding handle_disconnected_player
  handle_disconnected_player-Others e h = if-Others i players _ _ _ (stopped-Others i players) (
      if-Others i players _ _ _ (fault-Others i players)
        (returned-Others i players _ _ (λ j ne. disconnect-others net io i e.server j ne ∙ h j ne)))

  command-Others :
      (command : List ℕ) (e : Session)
      → Same i players e
      → Others i players (handle_player_command i command e)
  unfolding handle_player_command
  command-Others [] e h = returned-Others i players _ e h
  command-Others (c ∷ []) e h = returned-Others i players _ _ h
  command-Others (c ∷ d ∷ cs) e h =
      if-Others i players _ _ _
        (returned-Others i players _ _ (λ j ne. update-ne e.server.players_info i _ j ne ∙ h j ne))
        (fault-Others i players)

  join-Others : (o : Ended) → Others i players o → Others i players (join_updater net io o)
  unfolding Others
  join-Others (returned c e) h = h
  join-Others stopped h = h
  join-Others fault h = h

  exit-Others : (o : Ended) → Others i players o → Others i players (exit_when_over net io o)
  unfolding Others
  exit-Others (returned (pos zero) e) h = h
  exit-Others (returned (pos (suc n)) e) h = tt
  exit-Others (returned (negsuc n) e) h = tt
  exit-Others stopped h = h
  exit-Others fault h = h

  pub handle_known_player-Others :
      (e : Session) → Same i players e → Others i players (handle_known_player net io (some i) e)
  unfolding handle_known_player
  handle_known_player-Others e h = go io.command_read
    where
      gone : Ended
      gone = handle_disconnected_player net io (some i) e

      go :
          (r : ReadResult)
          → Others i players (elim r [
            | bytes read ↦ elim read [
              | [] ↦ join_updater net io gone
              | c ∷ cs ↦ handle_player_command i (c ∷ cs) e
            ]
            | not_yet ↦ returned try_again_later e
            | failed ↦ exit_when_over net io gone
          ])
      go (bytes []) = join-Others gone (handle_disconnected_player-Others e h)
      go (bytes (c ∷ cs)) = command-Others (c ∷ cs) e h
      go not_yet = returned-Others i players _ e h
      go failed = exit-Others gone (handle_disconnected_player-Others e h)
