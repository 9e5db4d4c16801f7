-- ===== src/Game/Invariant/Coins.antt =====
-- The coins on the board and their counter under a move of a player.
use software_development_pla.Common.{
  ℕ, zero, suc, ◌+◌, ◌*◌, ◌≤◌, ◌≡◌, ◌≢◌, refl, sym, ap, inl, inr, Bool, true, false, Option, arith,
  if◌then◌else◌, ◌==◌, update, update-ne, weigh, weigh-update, Bool-cases,
}
use software_development_pla.Game.Types.{
  Location, Player, Monster, Cell, GameObj, null, obj_m, obj_p, board_width, board_height,
  empty_cell,
}
use software_development_pla.Game.Location.{InBounds}
use software_development_pla.Game.Location.Laws.{at-lt}
use software_development_pla.Game.State.{Server, Run, running, exited, fault, at}
use software_development_pla.Game.Updates.{UpdateWrites, send_updates, send_game_updates_handler}
use software_development_pla.Game.Life.{
  check_game_over, stop_updates, exit_if_game_over, won_game, should_get_superpower, toupper,
}
use software_development_pla.Game.Players.{
  move_player_to_empty_cell, take_coin, grant_superpower, check_for_coin_in_target_after_move,
}
use software_development_pla.Game.Setup.Fill.{coin_bit, coins}
use software_development_pla.Game.Invariant.{Fits}

-- The counter is the number of the coins that lie on the board.
abbrev pub IsTallied : Server → Type 0
IsTallied s = coins (board_height * board_width) s ≡ s.num_of_coins_on_screen

-- So it is where the handler ends.
unfoldable pub Tallied : Run → Type 0
Tallied (running s) = IsTallied s
Tallied (exited s) = IsTallied s
Tallied fault = Unit

coin_bit-le_one : (c : Cell) → coin_bit c ≤ 1
coin_bit-le_one c = ground arith

pub few_coins : (cells : ℕ → Cell) (n : ℕ) → weigh coin_bit cells n ≤ n
unfolding weigh
few_coins cells zero = omega arith
few_coins cells (suc n) = omega (arith, coin_bit-le_one (cells n), few_coins cells n)

pub if-Tallied :
    (b : Bool) (x y : Run)
    → (b ≡ true → Tallied x)
    → (b ≡ false → Tallied y)
    → Tallied (if b then x else y)
if-Tallied true x y h g = h refl
if-Tallied false x y h g = g refl

pub running-Tallied : (s : Server) → IsTallied s → Tallied (running s)
unfolding Tallied
running-Tallied s h = h

pub fault-Tallied : Tallied fault
unfolding Tallied
fault-Tallied = tt

-- A cell that is empty has no coin.
pub no_coin_of_empty :
    (players : ℕ → Player) (monsters : ℕ → Option Monster) (n : ℕ) (c : Cell) (o : GameObj)
    → Fits players monsters n c o
    → c.is_empty ≡ true
    → c.contains_coin ≡ false
no_coin_of_empty players monsters n c null (inl e) h = ap (λ (x : Cell). x.contains_coin) e
no_coin_of_empty players monsters n c null (inr (inl e)) h = ap (λ (x : Cell). x.contains_coin) e
no_coin_of_empty players monsters n c null (inr (inr e)) h =
    absurd (cc (ap (λ (x : Cell). x.is_empty) e, h))
no_coin_of_empty players monsters n c (obj_p j) f h = absurd (cc (f.0, h))
no_coin_of_empty players monsters n c (obj_m k) f h = absurd (cc (f.0, h))

take_coin-IsTallied :
    (i : ℕ) (s : Server)
    → 1 + coins (board_height * board_width) s ≡ s.num_of_coins_on_screen
    → s.num_of_coins_on_screen ≤ board_height * board_width
    → IsTallied (take_coin i s)
unfolding take_coin
take_coin-IsTallied i s count few = omega (arith, count, few)

grant-IsTallied :
    (i : ℕ) (new_loc : Location) (s : Server)
    → InBounds new_loc
    → IsTallied s
    → IsTallied (grant_superpower i new_loc s)
unfolding grant_superpower
grant-IsTallied i new_loc s b h =
    let cell : Cell = s.cells (at new_loc) in
    let shown : Cell = record cell { symbol = toupper cell.symbol } in
    let same : coin_bit cell
          + weigh coin_bit (update s.cells (at new_loc) shown) (board_height * board_width)
        ≡ coin_bit cell + coins (board_height * board_width) s =
      weigh-update coin_bit s.cells (board_height * board_width) (at new_loc) shown
        (at-lt new_loc b) in
    omega (arith, h, same)

-- A player without a coin moves from a cell to another: what lay there is gone from the board.
pub move-coins :
    (old_loc new_loc : Location) (s : Server)
    → InBounds old_loc
    → InBounds new_loc
    → at old_loc ≢ at new_loc
    → (s.cells (at old_loc)).contains_coin ≡ false
    → coin_bit (s.cells (at new_loc))
        + coins (board_height * board_width) (move_player_to_empty_cell old_loc new_loc s)
      ≡ coins (board_height * board_width) s
unfolding move_player_to_empty_cell
move-coins old_loc new_loc s bo bn apart plain =
    let moved : ℕ → Cell = update s.cells (at new_loc) (s.cells (at old_loc)) in
    omega (
      arith,
      weigh-update coin_bit s.cells (board_height * board_width) (at new_loc) (s.cells (at old_loc))
          (at-lt new_loc bn),
      weigh-update coin_bit moved (board_height * board_width) (at old_loc) empty_cell
          (at-lt old_loc bo),
      ap coin_bit
          (update-ne s.cells (at new_loc) (s.cells (at old_loc)) (at old_loc) (λ e. apart (sym e))),
      plain_bit,
    )
  where
    plain_bit : coin_bit (s.cells (at old_loc)) ≡ 0
    plain_bit = rw (plain) refl

module _ (net : ℕ → UpdateWrites) where
  send_updates-IsTallied : (n : ℕ) (s : Server) → IsTallied s → IsTallied (send_updates net n s).0
  unfolding send_updates
  send_updates-IsTallied zero s h = h
  send_updates-IsTallied (suc n) s h = send_updates-IsTallied n s h

  won_game-Tallied : (s : Server) → IsTallied s → Tallied (won_game net s)
  unfolding won_game stop_updates send_game_updates_handler Tallied
  won_game-Tallied s h = send_updates-IsTallied s.num_of_known_players s h

  pub exit_if_game_over-Tallied : (s : Server) → IsTallied s → Tallied (exit_if_game_over net s)
  unfolding exit_if_game_over check_game_over stop_updates send_game_updates_handler Tallied
  exit_if_game_over-Tallied s h = elim (Bool-cases (s.num_of_alive_players == 0)) [
    | inl over ↦ rw (over, check_game_over) (send_updates-IsTallied s.num_of_known_players s h)
    | inr more ↦ rw (more, check_game_over) h
  ]

  -- The counter goes down by one for the coin that is gone from the board.
  pub coin-Tallied :
      (i : ℕ) (new_loc : Location) (s : Server)
      → InBounds new_loc
      → 1 + coins (board_height * board_width) s ≡ s.num_of_coins_on_screen
      → s.num_of_coins_on_screen ≤ board_height * board_width
      → Tallied (check_for_coin_in_target_after_move net i new_loc s)
  unfolding check_for_coin_in_target_after_move
  coin-Tallied i new_loc s b count few =
      if-Tallied (after.num_of_coins_on_screen == 0) _ _ (λ _. won_game-Tallied after tallied)
        (λ _.
          if-Tallied (should_get_superpower (after.players_info i).points) _ _
            (λ _.
              running-Tallied (grant_superpower i new_loc after)
                (grant-IsTallied i new_loc after b tallied))
            (λ _. running-Tallied after tallied))
    where
      after : Server
      after = take_coin i s

      tallied : IsTallied after
      tallied = take_coin-IsTallied i s count few
