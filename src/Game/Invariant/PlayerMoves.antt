-- ===== src/Game/Invariant/PlayerMoves.antt =====
-- A move of a player meets no fault and keeps the board consistent.
use software_development_pla.Common.{
  ℕ, ◌≡◌, ◌∙◌, subst, ◌≢◌, sym, true, none, some, ◌==◌, update, update_self, update-ne,
}
use software_development_pla.Game.Protocol.{Direction}
use software_development_pla.Game.Types.{
  Location, inside_a_game, Monster, Cell, null, obj_m, monster_sym,
}
use software_development_pla.Game.Location.{InBounds, is_move}
use software_development_pla.Game.Location.Laws.{at-lt, next-opposite}
use software_development_pla.Game.State.{Server, at}
use software_development_pla.Game.Updates.{UpdateWrites}
use software_development_pla.Game.Players.{
  destroy_monster, move_player_to_empty_cell, set_location, kill_monster, enter_cell,
  handle_player_move,
}
use software_development_pla.Game.Invariant.{Fits, Consistent, IsConsistent, Safe, Safe-if}
use software_development_pla.Game.Invariant.Frame.{null_of_empty, null_of_coin, monster_of_symbol}
use software_development_pla.Game.Invariant.Holes.{open_plain, destroy-open}
use software_development_pla.Game.Invariant.Ends.{exit_if_game_over-Safe}
use software_development_pla.Game.Invariant.Arrivals.{
  arrive, coin-Safe, die-IsConsistent, stay-IsConsistent,
}

module _ (net : ℕ → UpdateWrites) (i : ℕ) (new_loc : Location) (s : Server) (b : InBounds new_loc)
    (inside : (s.players_info i).state ≡ inside_a_game) (inv : IsConsistent s) where
  kill_monster-Safe :
      (k : ℕ) (monster : Monster)
      → s.monsters k ≡ some monster
      → at monster.location ≡ at new_loc
      → Safe (
          kill_monster net i
            (s.players_info i).location
            new_loc
            (s.cells (at new_loc))
            (obj_m k)
            (set_location i new_loc s))
  unfolding kill_monster destroy_monster
  kill_monster-Safe k monster here there =
      rw (here, kill_monster)
        (Safe-if (s.cells (at new_loc)).contains_coin _ _
          (λ _. coin-Safe net i new_loc (destroy_monster monster s) inside arrived) (λ _. arrived))
    where
      own : monster.index ≡ k
      own = (inv.monster_cell k monster here).0

      arrived : IsConsistent (
          move_player_to_empty_cell
            (s.players_info i).location
            new_loc
            (destroy_monster monster (set_location i new_loc s)))
      arrived = arrive i new_loc (destroy_monster monster s) b inside (
          subst
            (λ n.
              Consistent (some n) s.cells s.players_info (destroy_monster monster s).monsters
                s.superpower_timers)
            there
            (destroy-open k monster _
              (λ j ne. update-ne s.monsters monster.index none j (λ q. ne (sym own ∙ q)))
              (subst (λ m. update s.monsters m none k ≡ none) (sym own)
                (update_self s.monsters k none))
              here inv))

  enter_cell-Safe :
      at (s.players_info i).location ≢ at new_loc
      → Safe (enter_cell net i (s.players_info i).location new_loc (set_location i new_loc s))
  unfolding enter_cell
  enter_cell-Safe apart =
      Safe-if new_cell.is_empty _ _
        (λ e.
          enters
            (null_of_empty s.players_info s.monsters (at new_loc) new_cell new_cell.obj shown e))
        (λ _.
          Safe-if (new_cell.symbol == monster_sym) _ _
            (λ e.
              Safe-if ((set_location i new_loc s).players_info i).has_superpower _ _
                (λ _. kills (
                  monster_of_symbol s.players_info s.monsters (at new_loc) new_cell new_cell.obj
                    shown e))
                (λ _.
                  exit_if_game_over-Safe net _
                    (die-IsConsistent net i new_loc s b apart inside inv)))
            (λ ne.
              Safe-if new_cell.contains_coin _ _
                (λ e. coin-Safe net i new_loc s inside (
                  enters (
                    null_of_coin s.players_info s.monsters (at new_loc) new_cell new_cell.obj shown
                      e ne)))
                (λ _. stay-IsConsistent net i new_loc s b apart inside inv)))
    where
      new_cell : Cell
      new_cell = s.cells (at new_loc)

      shown :
          Fits s.players_info s.monsters
            (at new_loc)
            (s.cells (at new_loc))
            (s.cells (at new_loc)).obj
      shown = inv.fits (at new_loc) (at-lt new_loc b) (λ q. cc)

      enters :
          (s.cells (at new_loc)).obj ≡ null
          → IsConsistent (
              move_player_to_empty_cell
                (s.players_info i).location
                new_loc
                (set_location i new_loc s))
      enters e = arrive i new_loc s b inside (open_plain (at new_loc) e inv)

      kills :
          (k : ℕ) × (monster : Monster) × ((s.cells (at new_loc)).obj ≡ obj_m k)
            × (s.monsters k ≡ some monster)
            × (at monster.location ≡ at new_loc)
          → Safe (
              kill_monster net i
                (s.players_info i).location
                new_loc
                (s.cells (at new_loc))
                (s.cells (at new_loc)).obj
                (set_location i new_loc s))
      kills (k, monster, e, here, there) =
          subst
            (λ o. Safe (
              kill_monster net i (s.players_info i).location new_loc (s.cells (at new_loc)) o
                (set_location i new_loc s)))
            (sym e) (kill_monster-Safe k monster here there)

-- At a consistent server, where in particular each player in play has its slot as its index, as only that
-- of slot 0 has in the source, a move of a player in play in one of the four directions meets no fault:
-- no pointer is read as another kind than it has, and the server is consistent afterwards.
pub handle_player_move-Safe :
    (net : ℕ → UpdateWrites) (i : ℕ) (d : Direction) (s : Server)
    → is_move d ≡ true
    → (s.players_info i).state ≡ inside_a_game
    → IsConsistent s
    → Safe (handle_player_move net i d s)
unfolding handle_player_move
handle_player_move-Safe net i d s h inside inv =
    let (new_loc, e, b, apart, _) =
      next-opposite (s.players_info i).location d h (inv.player_cell i inside).0 in
    rw (e, handle_player_move) (enter_cell-Safe net i new_loc s b inside inv apart)
