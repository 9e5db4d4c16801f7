-- ===== src/Game/Invariant/Movement.antt =====
-- Moving a record into a hole of a consistent board, and changing how a player looks.
use software_development_pla.Common.{
  ℕ, ◌≤◌, ◌≡◌, ◌∙◌, ◌≢◌, refl, subst, sym, ap, false, Bool, Option, none, some, arith, update,
  update_elim, update_self, ℕ_discrete,
}
use software_development_pla.Game.Types.{
  Location, inside_a_game, Player, Monster, Cell, obj_m, obj_p,
}
use software_development_pla.Game.Location.{InBounds}
use software_development_pla.Game.Location.Laws.{at-lt}
use software_development_pla.Game.State.{at}
use software_development_pla.Game.Invariant.{Fits, Consistent}
use software_development_pla.Game.Invariant.Frame.{Fits-players, Fits-monsters}

-- Two records of a player that the board does not tell apart.
abbrev pub SameFacts : Player → Player → Type 0
SameFacts q' q = (q'.state ≡ q.state) × (q'.location ≡ q.location) × (q'.index ≡ q.index)

pub SameFacts-update :
    (players : ℕ → Player) (i : ℕ) (q : Player)
    → SameFacts q (players i)
    → (j : ℕ) → SameFacts (update players i q j) (players j)
SameFacts-update players i q same j =
    update_elim (λ x. SameFacts x (players j)) players i q j
      (λ e. subst (λ k. SameFacts q (players k)) e same) (λ _. (refl, refl, refl))

module _ {cells : ℕ → Cell} {players : ℕ → Player} {monsters : ℕ → Option Monster}
    {timers : ℕ → ℕ} where
  -- A player moves into the hole, and leaves one behind.
  pub move_player :
      (i n : ℕ) (new_loc : Location) (players' : ℕ → Player)
      → ((j : ℕ) → i ≢ j → players' j ≡ players j)
      → (players' i).state ≡ inside_a_game
      → (players' i).index ≡ i
      → (players' i).location ≡ new_loc
      → InBounds new_loc
      → at new_loc ≡ n
      → (players i).state ≡ inside_a_game
      → Consistent (some n) cells players monsters timers
      → Consistent
          (some (at (players i).location))
          (update cells n (cells (at (players i).location)))
          players'
          monsters
          timers
  move_player i n new_loc players' same inside' own there bounds target inside inv = record {
    fits = λ n' lt h.
        update_elim (λ x. Fits players' monsters n' x x.obj) cells n (cells old) n'
          (λ e. rw seen (shown.0, shown.1, shown.2, inside', rw (there, target) e))
          (λ ne.
            Fits-players players monsters players' n' (cells n') (cells n').obj
              (λ j _ e.
                let q = same j (λ q. h (rw q (ap some e))) in
                (ap (λ x. x.state) q, ap (λ x. x.location) q))
              (inv.fits n' lt (λ q. ground arith)));
    player_cell = λ j h. elim (ℕ_discrete i j) [
      | yes e ↦ rw (← e) arrived
      | no ne ↦
          rw (same j ne)
            (ground (arith, inv.player_cell i, inv.player_cell j (rw (same j ne) at h)))
    ];
    monster_cell = λ k monster h. ground (arith, inv.monster_cell k monster h, inv.player_cell i);
    own_index = λ j. elim (ℕ_discrete i j) [
      | yes e ↦ rw (← e) (λ _. own)
      | no ne ↦ rw (same j ne) (inv.own_index j)
    ];
    timer_inside = λ j h. elim (ℕ_discrete i j) [
      | yes e ↦ rw (← e) inside'
      | no ne ↦ rw (same j ne) (inv.timer_inside j h)
    ];
  }
    where
      old : ℕ
      old = at (players i).location

      seen : (cells old).obj ≡ obj_p i
      seen = (inv.player_cell i inside).2

      shown : Fits players monsters old (cells old) (obj_p i)
      shown =
          rw seen at
            (inv.fits old (at-lt _ (inv.player_cell i inside).0) (inv.player_cell i inside).1)

      arrived :
          InBounds (players' i).location
          × (some old ≢ some (at (players' i).location))
          × ((update cells n (cells old) (at (players' i).location)).obj ≡ obj_p i)
      arrived =
          rw (there, target)
            (
              bounds,
              λ q. (inv.player_cell i inside).1 (sym q),
              rw (update_self cells n (cells old)) seen,
            )

  -- So does a monster, which may change whether its cell has a coin.
  pub move_monster :
      (k n : ℕ) (b : Bool) (new_loc : Location) (monster : Monster)
      → InBounds new_loc
      → at new_loc ≡ n
      → monsters k ≡ some monster
      → Consistent (some n) cells players monsters timers
      → Consistent
          (some (at monster.location))
          (update cells n (record (cells (at monster.location)) { contains_coin = b }))
          players
          (update monsters k (some (record monster { location = new_loc })))
          timers
  move_monster k n b new_loc monster bounds target here inv = record {
    fits = λ n' lt h.
        update_elim (λ x. Fits players monsters' n' x x.obj) cells n _ n'
          (λ e.
            rw seen (shown.0, shown.1, (moved, update_self monsters k (some moved), target ∙ e)))
          (λ ne.
            Fits-monsters players monsters monsters' n' (cells n') (cells n').obj
              (λ j other q l.
                update_elim (λ x. x ≡ monsters j) monsters k _ j
                  (λ r. absurd (h (ground (arith, ap monsters r)))) (λ _. refl))
              (inv.fits n' lt (λ q. ground arith)));
    player_cell = λ i h. ground (arith, inv.monster_cell k monster, inv.player_cell i);
    monster_cell = λ j other.
        update_elim (λ x. x ≡ some other → Claim j other) monsters k _ j
          (λ e h. ground (arith, inv.monster_cell k monster))
          (λ ne h. ground (arith, inv.monster_cell k monster, inv.monster_cell j other));
    own_index = inv.own_index;
    timer_inside = inv.timer_inside;
  }
    where
      old : ℕ
      old = at monster.location

      moved : Monster
      moved = record monster { location = new_loc }

      monsters' : ℕ → Option Monster
      monsters' = update monsters k (some moved)

      cells' : ℕ → Cell
      cells' = update cells n (record (cells old) { contains_coin = b })

      Claim : ℕ → Monster → Type 0
      Claim j other =
          (other.index ≡ j)
          × InBounds other.location
          × (some old ≢ some (at other.location))
          × ((cells' (at other.location)).obj ≡ obj_m j)

      seen : (cells old).obj ≡ obj_m k
      seen = (inv.monster_cell k monster here).3

      shown : Fits players monsters old (cells old) (obj_m k)
      shown = rw seen at (
          inv.fits old (at-lt _ (inv.monster_cell k monster here).1)
            (inv.monster_cell k monster here).2)

  -- A player in play may look otherwise, and gain or lose points and superpower.
  pub restyle :
      (i : ℕ) (c : Cell) (players' : ℕ → Player) (timers' : ℕ → ℕ)
      → ((j : ℕ) → SameFacts (players' j) (players j))
      → ((j : ℕ) → timers' j ≢ 0 → (players j).state ≡ inside_a_game)
      → (c.is_empty ≡ false) × (c.contains_coin ≡ false) × (b'A' ≤ c.symbol) × (c.obj ≡ obj_p i)
      → (players i).state ≡ inside_a_game
      → Consistent none cells players monsters timers
      → Consistent none (update cells (at (players i).location) c) players' monsters timers'
  restyle i c players' timers' same timed look inside inv = record {
    fits = λ n lt h.
        update_elim (λ x. Fits players' monsters n x x.obj) cells (at (players i).location) c n
          (λ e. rw look.3 (look.0, look.1, look.2, (same i).0 ∙ inside, ap at (same i).1 ∙ e))
          (λ ne.
            Fits-players players monsters players' n (cells n) (cells n).obj
              (λ j _ _. ((same j).0, (same j).1)) (inv.fits n lt h));
    player_cell = λ j h. ground (arith, same j, inv.player_cell j, inv.player_cell i);
    monster_cell = λ k other h. ground (arith, inv.monster_cell k other, inv.player_cell i);
    own_index = λ j h. (same j).2 ∙ inv.own_index j (sym (same j).0 ∙ h);
    timer_inside = λ j h. (same j).0 ∙ timed j h;
  }

  -- A change that the board does not show.
  pub revalue :
      (players' : ℕ → Player)
      → ((j : ℕ) → SameFacts (players' j) (players j))
      → Consistent none cells players monsters timers
      → Consistent none cells players' monsters timers
  revalue players' same inv = record {
    fits = λ n lt h.
        Fits-players players monsters players' n (cells n) (cells n).obj
          (λ j _ _. ((same j).0, (same j).1)) (inv.fits n lt h);
    player_cell = λ j h. ground (arith, same j, inv.player_cell j);
    monster_cell = inv.monster_cell;
    own_index = λ j h. (same j).2 ∙ inv.own_index j (sym (same j).0 ∙ h);
    timer_inside = λ j h. (same j).0 ∙ inv.timer_inside j h;
  }
