-- ===== src/Game/Session/Others.antt =====
-- An event of one client leaves the records of the other players as they are, in
-- C-Multiplayer-game/src/server/main.c.
pub mod Servers
pub mod Stages
pub mod Commands
pub mod Events
use software_development_pla.Common.{
  ℕ, ◌≡◌, ◌≢◌, ◌∙◌, refl, if◌then◌else◌, Bool, true, false, Option, none, some, List, [], ◌∷◌, ltb,
  length, ◌==◌, update-ne, inl, inr, Bool-cases, ℤ, pos, is_number, ◌||◌,
}
use software_development_pla.Game.Types.{
  Player, PlayerState, Cell, was_asked_for_name, waiting_for_name, received_name,
  waiting_for_options, waiting_for_choice, waiting_for_game_to_start,
  waiting_for_client_to_ack_game, inside_a_game, just_logged_in, was_shown_options,
}
use software_development_pla.Game.Updates.{UpdateWrites, WriteResult, sent, would_block, broken}
use software_development_pla.Game.Session.Types.{
  ReadResult, bytes, not_yet, failed, Io, Session, Ended, returned, stopped, fault, player_at,
  put_player, set_state, is_in_state,
}

-- Player `j` is as in `players`, for each `j` but `i`.
abbrev pub Same : ℕ → (ℕ → Player) → Session → Type 0
Same i players e = (j : ℕ) → i ≢ j → e.server.players_info j ≡ players j

-- If the event is handled, that is so at its end.
unfoldable pub Others : ℕ → (ℕ → Player) → Ended → Type 0
Others i players (returned code e) = Same i players e
Others i players stopped = Unit
Others i players fault = Unit

module _ (i : ℕ) (players : ℕ → Player) where
  pub returned-Others :
      (code : ℤ) (e : Session) → Same i players e → Others i players (returned code e)
  unfolding Others
  returned-Others code e h = h

  pub stopped-Others : Others i players stopped
  unfolding Others
  stopped-Others = tt

  pub fault-Others : Others i players fault
  unfolding Others
  fault-Others = tt

  pub if-Others :
      (b : Bool) (x y : Ended)
      → Others i players x
      → Others i players y
      → Others i players (if b then x else y)
  if-Others true x y h g = h
  if-Others false x y h g = g

  pub put_player-Same :
      (q : Player) (e : Session) → Same i players e → Same i players (put_player (some i) q e)
  unfolding put_player
  put_player-Same q e h j ne = update-ne e.server.players_info i q j ne ∙ h j ne

  pub set_state-Same :
      (state : PlayerState) (e : Session)
      → Same i players e
      → Same i players (set_state (some i) state e)
  unfolding set_state
  set_state-Same state e h = put_player-Same _ e h
