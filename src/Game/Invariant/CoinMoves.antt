-- ===== src/Game/Invariant/CoinMoves.antt =====
-- A move of a player and the counter of the coins on the board.
use software_development_pla.Common.{
  ℕ, ◌+◌, ◌*◌, ◌≡◌, ◌≢◌, ◌∙◌, refl, sym, subst, inl, inr, true, false, arith, ◌==◌, update, weigh,
  weigh-update, Option-cases,
}
use software_development_pla.Game.Protocol.{Direction}
use software_development_pla.Game.Types.{
  Location, inside_a_game, GameObj, null, obj_m, obj_p, board_width, board_height, empty_cell,
  monster_sym,
}
use software_development_pla.Game.Location.{InBounds, is_move}
use software_development_pla.Game.Location.Laws.{at-lt, next-opposite}
use software_development_pla.Game.State.{Server, running, at, put_cell}
use software_development_pla.Game.Updates.{UpdateWrites}
use software_development_pla.Game.Life.{mark_as_dead, exit_if_game_over}
use software_development_pla.Game.Players.{
  destroy_monster, move_player_to_empty_cell, set_location, check_for_coin_in_target_after_move,
  kill_monster, enter_cell, handle_player_move,
}
use software_development_pla.Game.Setup.Fill.{coin_bit, coins}
use software_development_pla.Game.Invariant.{Fits, IsConsistent}
use software_development_pla.Game.Invariant.Coins.{
  IsTallied, Tallied, few_coins, if-Tallied, running-Tallied, fault-Tallied, no_coin_of_empty,
  exit_if_game_over-Tallied, coin-Tallied, move-coins,
}

module _ (net : ℕ → UpdateWrites) (i : ℕ) (new_loc : Location) (s : Server) (b : InBounds new_loc)
    (inside : (s.players_info i).state ≡ inside_a_game) (inv : IsConsistent s)
    (tallied : IsTallied s) where
  -- The player stands on no coin.
  plain : (s.cells (at (s.players_info i).location)).contains_coin ≡ false
  plain =
      let (bo, _, o) = inv.player_cell i inside in
      let fits = inv.fits (at (s.players_info i).location) (at-lt _ bo) (λ q. cc) in
      (subst
        (Fits s.players_info s.monsters (at (s.players_info i).location)
          (s.cells (at (s.players_info i).location)))
        o fits).1

  module _ (apart : at (s.players_info i).location ≢ at new_loc) where
    abbrev old_loc : Location
    old_loc = (s.players_info i).location

    -- After the step from a server with the same board and counter.
    moved_coins :
        coin_bit (s.cells (at new_loc))
          + coins (board_height * board_width) (move_player_to_empty_cell old_loc new_loc s)
        ≡ s.num_of_coins_on_screen
    moved_coins = move-coins old_loc new_loc s (inv.player_cell i inside).0 b apart plain ∙ tallied

    with_coin :
        (t : Server)
        → t.cells ≡ (move_player_to_empty_cell old_loc new_loc s).cells
        → t.num_of_coins_on_screen ≡ s.num_of_coins_on_screen
        → (s.cells (at new_loc)).contains_coin ≡ true
        → Tallied (check_for_coin_in_target_after_move net i new_loc t)
    with_coin t cells number coin =
        coin-Tallied net i new_loc t b
          (subst (λ f. 1 + weigh coin_bit f (board_height * board_width) ≡ t.num_of_coins_on_screen)
            (sym cells) (omega (arith, moved_coins, number, one)))
          (omega (arith, number, tallied, few_coins s.cells (board_height * board_width)))
      where
        one : coin_bit (s.cells (at new_loc)) ≡ 1
        one = rw (coin) refl

    without_coin :
        (t : Server)
        → t.cells ≡ (move_player_to_empty_cell old_loc new_loc s).cells
        → t.num_of_coins_on_screen ≡ s.num_of_coins_on_screen
        → (s.cells (at new_loc)).contains_coin ≡ false
        → Tallied (running t)
    without_coin t cells number no_coin = running-Tallied t (
        subst (λ f. weigh coin_bit f (board_height * board_width) ≡ t.num_of_coins_on_screen)
          (sym cells) (omega (arith, moved_coins, number, none_there)))
      where
        none_there : coin_bit (s.cells (at new_loc)) ≡ 0
        none_there = rw (no_coin) refl

    -- The player dies, and only its cell is emptied.
    death-Tallied :
        (t : Server)
        → t.cells ≡ update s.cells (at old_loc) empty_cell
        → t.num_of_coins_on_screen ≡ s.num_of_coins_on_screen
        → Tallied (exit_if_game_over net t)
    death-Tallied t cells number = exit_if_game_over-Tallied net t (
        subst (λ f. weigh coin_bit f (board_height * board_width) ≡ t.num_of_coins_on_screen)
          (sym cells)
          (omega (
            arith,
            tallied,
            number,
            plain_bit,
            weigh-update coin_bit s.cells (board_height * board_width) (at old_loc) empty_cell
                (at-lt old_loc (inv.player_cell i inside).0),
          )))
      where
        plain_bit : coin_bit (s.cells (at old_loc)) ≡ 0
        plain_bit = rw (plain) refl

    kill_monster-Tallied :
        (o : GameObj)
        → Tallied
            (kill_monster net i old_loc new_loc (s.cells (at new_loc)) o (set_location i new_loc s))
    unfolding kill_monster destroy_monster move_player_to_empty_cell
    kill_monster-Tallied null = fault-Tallied
    kill_monster-Tallied (obj_p j) = fault-Tallied
    kill_monster-Tallied (obj_m k) = elim (Option-cases (s.monsters k)) [
      | inl gone ↦ rw (kill_monster, gone) fault-Tallied
      | inr (monster, here) ↦
          rw (kill_monster, here)
            (if-Tallied (s.cells (at new_loc)).contains_coin _ _
              (λ coin. with_coin _ refl refl coin) (λ no_coin. without_coin _ refl refl no_coin))
    ]

    enter_cell-Tallied :
        Tallied (enter_cell net i (s.players_info i).location new_loc (set_location i new_loc s))
    unfolding enter_cell move_player_to_empty_cell mark_as_dead
    enter_cell-Tallied =
        if-Tallied (s.cells (at new_loc)).is_empty _ _
          (λ empty. without_coin _ refl refl (
            no_coin_of_empty s.players_info s.monsters (at new_loc) (s.cells (at new_loc))
              (s.cells (at new_loc)).obj (inv.fits (at new_loc) (at-lt new_loc b) (λ q. cc)) empty))
          (λ _.
            if-Tallied ((s.cells (at new_loc)).symbol == monster_sym) _ _
              (λ _.
                if-Tallied ((set_location i new_loc s).players_info i).has_superpower _ _
                  (λ _. kill_monster-Tallied (s.cells (at new_loc)).obj)
                  (λ _. death-Tallied buried refl refl))
              (λ _.
                if-Tallied (s.cells (at new_loc)).contains_coin _ _
                  (λ coin. with_coin _ refl refl coin)
                  (λ _.
                    running-Tallied (set_location i old_loc (set_location i new_loc s)) tallied)))
      where
        buried : Server
        buried = put_cell old_loc empty_cell (
            mark_as_dead ((set_location i new_loc s).players_info i).index
              (set_location i new_loc s))

-- At a consistent server, where in particular each player in play has its slot as its index, as only that
-- of slot 0 has in the source, and whose counter is the number of the coins on the board, a move of a player in
-- play in one of the four directions ends, whatever it meets, with the counter at the number of the
-- coins that are left.
pub handle_player_move-Tallied :
    (net : ℕ → UpdateWrites) (i : ℕ) (d : Direction) (s : Server)
    → is_move d ≡ true
    → (s.players_info i).state ≡ inside_a_game
    → IsConsistent s
    → IsTallied s
    → Tallied (handle_player_move net i d s)
unfolding handle_player_move
handle_player_move-Tallied net i d s h inside inv tallied =
    let (new_loc, e, b, apart, _) =
      next-opposite (s.players_info i).location d h (inv.player_cell i inside).0 in
    rw (e, handle_player_move) (enter_cell-Tallied net i new_loc s b inside inv tallied apart)
