-- ===== src/Game/Invariant/Arrivals.antt =====
-- How a move of a player ends: in an empty cell, on a coin, in death, or where it began.
use software_development_pla.Common.{
  ℕ, ◌≤◌, ◌≡◌, ◌∙◌, ap, subst, ◌≢◌, refl, sym, inl, some, arith, ◌==◌, update, update_elim,
  update_self, update-ne,
}
use software_development_pla.Game.Types.{Location, inside_a_game, Player, obj_p, empty_cell}
use software_development_pla.Game.Location.{InBounds}
use software_development_pla.Game.Location.Laws.{at-lt}
use software_development_pla.Game.State.{Server, at, put_cell}
use software_development_pla.Game.Updates.{UpdateWrites}
use software_development_pla.Game.Life.{mark_as_dead, toupper, should_get_superpower}
use software_development_pla.Game.Players.{
  move_player_to_empty_cell, set_location, take_coin, grant_superpower,
  check_for_coin_in_target_after_move,
}
use software_development_pla.Game.Invariant.{Fits, Consistent, IsConsistent, Safe, Safe-if}
use software_development_pla.Game.Invariant.Holes.{close_plain}
use software_development_pla.Game.Invariant.Movement.{
  SameFacts, SameFacts-update, move_player, restyle, revalue,
}
use software_development_pla.Game.Invariant.Ends.{mark_as_dead-open, won_game-Safe}

letter-toupper : (c : ℕ) → b'A' ≤ c → b'A' ≤ toupper c
unfolding toupper
letter-toupper c h = ground arith

module _ (i : ℕ) (new_loc : Location) (s : Server) where
  -- The player arrives in the hole at `new_loc`.
  pub arrive :
      InBounds new_loc
      → (s.players_info i).state ≡ inside_a_game
      → Consistent (some (at new_loc)) s.cells s.players_info s.monsters s.superpower_timers
      → IsConsistent
          (move_player_to_empty_cell (s.players_info i).location new_loc (set_location i new_loc s))
  unfolding move_player_to_empty_cell
  arrive b inside inv = close_plain _ empty_cell (inl refl) (
      move_player i (at new_loc) new_loc _ (λ j ne. update-ne s.players_info i moved j ne)
        (ap (λ q. q.state) here ∙ inside) (ap (λ q. q.index) here ∙ inv.own_index i inside)
        (ap (λ q. q.location) here) b refl inside inv)
    where
      moved : Player
      moved = record (s.players_info i) { location = new_loc }

      here : update s.players_info i moved i ≡ moved
      here = update_self s.players_info i moved

module _ (i : ℕ) (s : Server) (inside : (s.players_info i).state ≡ inside_a_game)
    (inv : IsConsistent s) where
  take_coin-IsConsistent : IsConsistent (take_coin i s)
  unfolding take_coin
  take_coin-IsConsistent = revalue _ (SameFacts-update s.players_info i _ (refl, refl, refl)) inv

  take_coin-SameFacts : SameFacts ((take_coin i s).players_info i) (s.players_info i)
  unfolding take_coin
  take_coin-SameFacts = SameFacts-update s.players_info i _ (refl, refl, refl) i

  grant_superpower-IsConsistent :
      (l : Location) → (s.players_info i).location ≡ l → IsConsistent (grant_superpower i l s)
  unfolding grant_superpower
  grant_superpower-IsConsistent l e =
      subst (λ l. IsConsistent (grant_superpower i l s)) e
        (restyle i _ _ _ (SameFacts-update s.players_info i _ (refl, refl, refl))
          (λ j.
            update_elim (λ t. t ≢ 0 → (s.players_info j).state ≡ inside_a_game) s.superpower_timers
              _ _ j (λ q _. ground (arith, inv.own_index i inside)) (λ _ h. inv.timer_inside j h))
          (ground
            (arith, seen, shown, letter-toupper (s.cells (at (s.players_info i).location)).symbol))
          inside inv)
    where
      seen : (s.cells (at (s.players_info i).location)).obj ≡ obj_p i
      seen = (inv.player_cell i inside).2

      shown :
          Fits s.players_info s.monsters
            (at (s.players_info i).location)
            (s.cells (at (s.players_info i).location))
            (obj_p i)
      shown = rw seen at (
          inv.fits (at (s.players_info i).location) (at-lt _ (inv.player_cell i inside).0)
            (λ q. cc))

module _ (net : ℕ → UpdateWrites) (i : ℕ) where
  check_for_coin-Safe :
      (l : Location) (s : Server)
      → (s.players_info i).location ≡ l
      → (s.players_info i).state ≡ inside_a_game
      → IsConsistent s
      → Safe (check_for_coin_in_target_after_move net i l s)
  unfolding check_for_coin_in_target_after_move
  check_for_coin-Safe l s e inside inv =
      Safe-if ((take_coin i s).num_of_coins_on_screen == 0) _ _ (λ _. won_game-Safe net _ taken)
        (λ _.
          Safe-if (should_get_superpower ((take_coin i s).players_info i).points) _ _
            (λ _.
              grant_superpower-IsConsistent i (take_coin i s) (same.0 ∙ inside) taken l
                (same.1 ∙ e))
            (λ _. taken))
    where
      taken : IsConsistent (take_coin i s)
      taken = take_coin-IsConsistent i s inside inv

      same : SameFacts ((take_coin i s).players_info i) (s.players_info i)
      same = take_coin-SameFacts i s inside inv

module _ (net : ℕ → UpdateWrites) (i : ℕ) (new_loc : Location) (s : Server) (b : InBounds new_loc)
    (apart : at (s.players_info i).location ≢ at new_loc)
    (inside : (s.players_info i).state ≡ inside_a_game) (inv : IsConsistent s) where
  abbrev pub old_loc : Location
  old_loc = (s.players_info i).location

  abbrev pub moved : Server
  moved = set_location i new_loc s

  pub die-IsConsistent :
      IsConsistent (put_cell old_loc empty_cell (mark_as_dead (moved.players_info i).index moved))
  unfolding mark_as_dead
  die-IsConsistent =
      subst (λ j. IsConsistent (put_cell old_loc empty_cell (mark_as_dead j moved))) (sym own)
        (close_plain _ empty_cell (inl refl) (
          mark_as_dead-open s i moved.players_info (λ j ne. update-ne s.players_info i _ j ne)
            inside inv))
    where
      own : (moved.players_info i).index ≡ i
      own = ap (λ q. q.index) (update_self s.players_info i _) ∙ inv.own_index i inside

  pub stay-IsConsistent : IsConsistent (set_location i old_loc moved)
  stay-IsConsistent = revalue _ (λ j. ground arith) inv

-- A coin is taken at the new place of the player.
pub coin-Safe :
    (net : ℕ → UpdateWrites) (i : ℕ) (new_loc : Location) (s : Server)
    → (s.players_info i).state ≡ inside_a_game
    → IsConsistent
        (move_player_to_empty_cell (s.players_info i).location new_loc (set_location i new_loc s))
    → Safe (
        check_for_coin_in_target_after_move net i new_loc (
          move_player_to_empty_cell (s.players_info i).location new_loc (set_location i new_loc s)))
unfolding move_player_to_empty_cell
coin-Safe net i new_loc s inside inv =
    check_for_coin-Safe net i new_loc _ (ap (λ q. q.location) (update_self s.players_info i _))
      (ap (λ q. q.state) (update_self s.players_info i _) ∙ inside) inv
