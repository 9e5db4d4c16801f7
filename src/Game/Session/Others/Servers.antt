-- ===== src/Game/Session/Others/Servers.antt =====
-- What setting up a board, placing a player, and ending a game leave of the records of the players.
use software_development_pla.Common.{
  ℕ, zero, suc, ◌+◌, ◌%◌, ◌≡◌, ◌≢◌, ◌∙◌, refl, if◌then◌else◌, Bool, true, false, ◌==◌, update, leb,
  some, update-ne, inl, inr, Bool-cases, ap,
}
use software_development_pla.Game.Types.{Player, Cell, board_height, board_width}
use software_development_pla.Game.State.{Server, at}
use software_development_pla.Game.Updates.{UpdateWrites, send_updates, send_game_updates_handler}
use software_development_pla.Game.Life.{check_game_over, stop_updates, mark_as_dead}
use software_development_pla.Game.Setup.{
  init_cell, init_row, init_rows, fill_board, max_monsters, init_board, new_game,
  put_player_on_board, new_monster, new_coin, is_boundary, place, num_of_monsters_divider,
  num_of_monsters_modulo,
}
use software_development_pla.Game.Session.Types.{Io}
use software_development_pla.Game.Session.Commands.{disconnect}

if-players :
    (b : Bool) (x y : Server × ℕ) (players : ℕ → Player)
    → x.0.players_info ≡ players
    → y.0.players_info ≡ players
    → (if b then x else y).0.players_info ≡ players
if-players true x y players h g = h
if-players false x y players h g = g

module _ (rand : ℕ → ℕ) where
  init_cell-players :
      (i j : ℕ) (t : Server × ℕ) → (init_cell rand i j t).0.players_info ≡ t.0.players_info
  unfolding init_cell new_monster new_coin
  init_cell-players i j t =
      if-players (is_boundary i j board_height board_width) _ _ t.0.players_info refl (
        if-players (rand t.1 % num_of_monsters_divider == num_of_monsters_modulo) _ _
          t.0.players_info refl
          (if-players (rand (t.1 + 1) % 5 == 2) _ _ t.0.players_info refl refl))

  init_row-players :
      (i j n : ℕ) (t : Server × ℕ) → (init_row rand i j n t).0.players_info ≡ t.0.players_info
  unfolding init_row
  init_row-players i j zero t = refl
  init_row-players i j (suc n) t =
      init_row-players i (j + 1) n (init_cell rand i j t) ∙ init_cell-players i j t

  init_rows-players :
      (i n : ℕ) (t : Server × ℕ) → (init_rows rand i n t).0.players_info ≡ t.0.players_info
  unfolding init_rows
  init_rows-players i zero t = refl
  init_rows-players i (suc n) t =
      init_rows-players (i + 1) n (init_row rand i 0 board_width t)
      ∙ init_row-players i 0 board_width t

  pub new_game-players :
      (board : ℕ → Cell) (s s' : Server)
      → new_game rand board s ≡ some s'
      → s'.players_info ≡ s.players_info
  unfolding new_game init_board fill_board
  new_game-players board s s' made =
      elim (Bool-cases (leb (fill_board rand board s).num_of_monsters max_monsters)) [
        | inl room ↦
            ap (λ t. t.players_info) (the_same (rw (new_game, init_board, room) at made))
            ∙ init_rows-players 0 board_height (record s { cells = board }, 0)
        | inr over ↦ absurd (cc (rw (new_game, init_board, over) at made))
      ]
    where
      the_same : {g : Server} → some g ≡ some s' → s' ≡ g
      the_same e = cc e

  pub put_player_on_board-others :
      (tries k i : ℕ) (s : Server) (j : ℕ)
      → i ≢ j
      → (put_player_on_board rand tries k i s).0.players_info j ≡ s.players_info j
  unfolding put_player_on_board
  put_player_on_board-others zero k i s j ne = refl
  put_player_on_board-others (suc tries) k i s j ne =
      elim (Bool-cases (s.cells (at (place rand k))).is_empty) [
        | inl free ↦ rw (put_player_on_board, free) (update-ne s.players_info i _ j ne)
        | inr taken ↦
            rw (put_player_on_board, taken) (put_player_on_board-others tries (k + 2) i s j ne)
      ]

module _ (net : ℕ → UpdateWrites) (io : Io) where
  send_updates-players :
      (n : ℕ) (s : Server) → (send_updates net n s).0.players_info ≡ s.players_info
  unfolding send_updates
  send_updates-players zero s = refl
  send_updates-players (suc n) s = send_updates-players n s

  check_game_over-players : (s : Server) → (check_game_over net s).0.players_info ≡ s.players_info
  unfolding check_game_over stop_updates send_game_updates_handler
  check_game_over-players s = elim (Bool-cases (s.num_of_alive_players == 0)) [
    | inl over ↦ rw (check_game_over, over) (send_updates-players s.num_of_known_players s)
    | inr more ↦ rw (check_game_over, more) refl
  ]

  pub disconnect-others :
      (i : ℕ) (s : Server) (j : ℕ)
      → i ≢ j
      → (disconnect net io i s).0.players_info j ≡ s.players_info j
  unfolding disconnect mark_as_dead
  disconnect-others i s j ne =
      ap (λ f. f j) (check_game_over-players _)
      ∙ update-ne (update s.players_info i _) i _ j ne
      ∙ update-ne s.players_info i _ j ne
