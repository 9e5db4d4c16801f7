-- ===== src/Game/Invariant/Holes.antt =====
-- Opening, filling and moving a hole in a consistent board.
use software_development_pla.Common.{
  ℕ, ◌≡◌, ◌≢◌, ◌⊎◌, refl, ap, inl, inr, Option, none, some, arith, update, update_elim, ℕ_discrete,
}
use software_development_pla.Game.Types.{
  inside_a_game, dead, Player, Monster, Cell, null, empty_cell, coin_cell,
}
use software_development_pla.Game.State.{at}
use software_development_pla.Game.Invariant.{Fits, Consistent}
use software_development_pla.Game.Invariant.Frame.{Fits-players, Fits-monsters}

module _ {cells : ℕ → Cell} {players : ℕ → Player} {monsters : ℕ → Option Monster}
    {timers : ℕ → ℕ} where
  -- A cell that points to nothing is claimed by no record.
  pub open_plain :
      (n : ℕ)
      → (cells n).obj ≡ null
      → Consistent none cells players monsters timers
      → Consistent (some n) cells players monsters timers
  open_plain n e inv = record {
    fits = λ n' lt h. inv.fits n' lt (λ q. cc);
    player_cell = λ i h. ground (arith, inv.player_cell i);
    monster_cell = λ k monster h. ground (arith, inv.monster_cell k monster h);
    own_index = inv.own_index;
    timer_inside = inv.timer_inside;
  }

  -- A hole is closed by an empty cell or a coin.
  pub close_plain :
      (n : ℕ) (c : Cell)
      → (c ≡ empty_cell) ⊎ (c ≡ coin_cell)
      → Consistent (some n) cells players monsters timers
      → Consistent none (update cells n c) players monsters timers
  close_plain n c plain inv = record {
    fits = λ n' lt _.
        update_elim (λ x. Fits players monsters n' x x.obj) cells n c n'
          (λ e. elim plain [ inl p ↦ rw p (inl refl) | inr p ↦ rw p (inr (inr refl)) ])
          (λ ne. inv.fits n' lt (λ q. ground arith));
    player_cell = λ i h. ground (arith, inv.player_cell i h);
    monster_cell = λ k monster h. ground (arith, inv.monster_cell k monster h);
    own_index = inv.own_index;
    timer_inside = inv.timer_inside;
  }

  -- The cell of a player that goes out of play becomes a hole.
  pub kill-open :
      (i : ℕ) (players' : ℕ → Player) (timers' : ℕ → ℕ)
      → ((j : ℕ) → i ≢ j → (players' j ≡ players j) × (timers' j ≡ timers j))
      → (players' i).state ≡ dead
      → timers' i ≡ 0
      → (players i).state ≡ inside_a_game
      → Consistent none cells players monsters timers
      → Consistent (some (at (players i).location)) cells players' monsters timers'
  kill-open i players' timers' same is_dead stopped inside inv = record {
    fits = λ n lt h.
        Fits-players players monsters players' n (cells n) (cells n).obj
          (λ j _ e.
            let q = (same j (λ q. h (rw q (ap some e)))).0 in
            (ap (λ x. x.state) q, ap (λ x. x.location) q))
          (inv.fits n lt (λ q. cc));
    player_cell = λ j h. elim (ℕ_discrete i j) [
      | yes e ↦ absurd (differs j e h)
      | no ne ↦ ground (arith, same j ne, inv.player_cell j, inv.player_cell i)
    ];
    monster_cell = λ k monster h. ground (arith, inv.monster_cell k monster h, inv.player_cell i);
    own_index = λ j. elim (ℕ_discrete i j) [
      | yes e ↦ λ h. absurd (differs j e h)
      | no ne ↦ rw (same j ne).0 (inv.own_index j)
    ];
    timer_inside = λ j h. elim (ℕ_discrete i j) [
      | yes e ↦ absurd (h (rw (← e) stopped))
      | no ne ↦ rw (same j ne).0 (inv.timer_inside j (rw (same j ne).1 at h))
    ];
  }
    where
      differs : (j : ℕ) → i ≡ j → (players' j).state ≢ inside_a_game
      differs j e h = ground arith

  -- The cell of a monster that is freed becomes a hole.
  pub destroy-open :
      (k : ℕ) (monster : Monster) (monsters' : ℕ → Option Monster)
      → ((j : ℕ) → k ≢ j → monsters' j ≡ monsters j)
      → monsters' k ≡ none
      → monsters k ≡ some monster
      → Consistent none cells players monsters timers
      → Consistent (some (at monster.location)) cells players monsters' timers
  destroy-open k monster monsters' same gone here inv = record {
    fits = λ n lt h.
        Fits-monsters players monsters monsters' n (cells n) (cells n).obj
          (λ j other e l. same j (λ q. h (ground (arith, ap monsters q))))
          (inv.fits n lt (λ q. cc));
    player_cell = λ j h. ground (arith, inv.monster_cell k monster, inv.player_cell j);
    monster_cell = λ j other h. elim (ℕ_discrete k j) [
      | yes e ↦ absurd (ground (arith, ap monsters' e))
      | no ne ↦ ground (arith, same j ne, inv.monster_cell j other, inv.monster_cell k monster)
    ];
    own_index = inv.own_index;
    timer_inside = inv.timer_inside;
  }
