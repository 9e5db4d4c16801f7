-- ===== src/Game/Session/Others/Stages.antt =====
-- The stages of `handle_player_event` of C-Multiplayer-game/src/server/main.c, for a known client,
-- leave the records of the other players as they are.
use software_development_pla.Common.{ℕ, if◌then◌else◌, some, List, [], ◌∷◌}
use software_development_pla.Game.Types.{Player, waiting_for_name}
use software_development_pla.Game.Updates.{WriteResult, sent, would_block, broken}
use software_development_pla.Game.Session.Types.{
  ReadResult, bytes, not_yet, failed, Io, Session, Ended, returned, stopped, fault, set_state,
  try_again_later,
}
use software_development_pla.Game.Session.Names.{read_name, store_name}
use software_development_pla.Game.Session.Choices.{notify_player_on_game, ignore_result}
use software_development_pla.Game.Session.Others.{
  Same, Others, returned-Others, stopped-Others, fault-Others, if-Others, put_player-Same,
  set_state-Same,
}

module _ (io : Io) (i : ℕ) (players : ℕ → Player) where
  pub write-Others :
      (r : WriteResult) (x y z : Ended)
      → Others i players x
      → Others i players y
      → Others i players z
      → Others i players (elim r [ sent ↦ x | would_block ↦ y | broken ↦ z ])
  write-Others sent x y z h g k = h
  write-Others would_block x y z h g k = g
  write-Others broken x y z h g k = k

  store_name-Others :
      (read : List ℕ) (e : Session)
      → Same i players e
      → Others i players (store_name (some i) read e)
  unfolding store_name
  store_name-Others read e h =
      if-Others i players _ _ _
        (if-Others i players _ _ _
          (returned-Others i players _ _
            (set_state-Same i players _ _ (put_player-Same i players _ e h)))
          (fault-Others i players))
        (fault-Others i players)

  pub read_name-Others :
      (e : Session) → Same i players e → Others i players (read_name io (some i) e)
  unfolding read_name
  read_name-Others e h = go io.name_read
    where
      later : Others i players (returned try_again_later (set_state (some i) waiting_for_name e))
      later = returned-Others i players _ _ (set_state-Same i players _ e h)

      go :
          (r : ReadResult)
          → Others i players (elim r [
            | bytes read ↦ elim read [
              | [] ↦
                  if io.errno_again
                  then returned try_again_later (set_state (some i) waiting_for_name e)
                  else stopped
              | c ∷ cs ↦ store_name (some i) (c ∷ cs) e
            ]
            | not_yet ↦ returned try_again_later (set_state (some i) waiting_for_name e)
            | failed ↦ stopped
          ])
      go (bytes []) = if-Others i players io.errno_again _ _ later (stopped-Others i players)
      go (bytes (c ∷ cs)) = store_name-Others (c ∷ cs) e h
      go not_yet = later
      go failed = stopped-Others i players

  pub ignore_result-Others : (o : Ended) → Others i players o → Others i players (ignore_result o)
  unfolding Others
  ignore_result-Others (returned c e) h = h
  ignore_result-Others stopped h = tt
  ignore_result-Others fault h = tt

  pub notify-Others :
      (e : Session) → Same i players e → Others i players (notify_player_on_game io e)
  unfolding notify_player_on_game
  notify-Others e h =
      write-Others io.start_write _ _ _
        (write-Others io.height_write _ _ _ (returned-Others i players _ e h)
          (returned-Others i players _ e h) (stopped-Others i players))
        (stopped-Others i players) (stopped-Others i players)
