-- ===== src/Game/Setup/Join.antt =====
-- A player that comes onto the board.
use software_development_pla.Common.{
  ℕ, zero, suc, ◌+◌, ◌*◌, ◌%◌, ◌≤◌, ◌<◌, ◌≡◌, ◌∙◌, ◌≢◌, ◌⊎◌, refl, sym, ap, subst, inl, inr, true,
  false, Option, none, some, arith, update, update_elim, update_self, update-ne, Bool-cases,
  ℕ_discrete,
}
use software_development_pla.Game.Types.{
  Location, inside_a_game, Player, Monster, Cell, null, obj_p, wall_cell, coin_cell, board_width,
  board_height, empty_cell,
}
use software_development_pla.Game.Location.{InBounds}
use software_development_pla.Game.Location.Laws.{at-lt}
use software_development_pla.Game.State.{Server, at, set_player}
use software_development_pla.Game.Invariant.{Fits, Consistent, IsConsistent}
use software_development_pla.Game.Invariant.Frame.{Fits-players, null_of_empty}
use software_development_pla.Game.Invariant.Holes.{open_plain}
use software_development_pla.Game.Setup.{place, put_player_on_board}

module _ {cells : ℕ → Cell} {players : ℕ → Player} {monsters : ℕ → Option Monster}
    {timers : ℕ → ℕ} where
  -- A player that was not in play fills a hole.
  settle_player :
      (i n : ℕ) (c : Cell) (players' : ℕ → Player)
      → ((j : ℕ) → i ≢ j → players' j ≡ players j)
      → (players' i).state ≡ inside_a_game
      → (players' i).index ≡ i
      → InBounds (players' i).location
      → at (players' i).location ≡ n
      → (players i).state ≢ inside_a_game
      → (c.is_empty ≡ false) × (c.contains_coin ≡ false) × (b'A' ≤ c.symbol) × (c.obj ≡ obj_p i)
      → Consistent (some n) cells players monsters timers
      → Consistent none (update cells n c) players' monsters timers
  settle_player i n c players' same inside own b target outside look inv = record {
    fits = λ n' lt _.
        update_elim (λ x. Fits players' monsters n' x x.obj) cells n c n'
          (λ e. rw look.3 (look.0, look.1, look.2, inside, target ∙ e))
          (λ ne.
            Fits-players players monsters players' n' (cells n') (cells n').obj
              (λ j h _.
                let q = same j (λ q. outside (rw q h)) in
                (ap (λ x. x.state) q, ap (λ x. x.location) q))
              (inv.fits n' lt (λ q. ground arith)));
    player_cell = λ j h. elim (ℕ_discrete i j) [
      | yes e ↦ rw (← e) (b, (λ q. cc), rw target (rw (update_self cells n c) look.3))
      | no ne ↦ ground (arith, same j ne, inv.player_cell j)
    ];
    monster_cell = λ k monster h. ground (arith, inv.monster_cell k monster h);
    own_index = λ j. elim (ℕ_discrete i j) [
      | yes e ↦ rw (← e) (λ _. own)
      | no ne ↦ rw (same j ne) (inv.own_index j)
    ];
    timer_inside = λ j h. elim (ℕ_discrete i j) [
      | yes e ↦ rw (← e) inside
      | no ne ↦ rw (same j ne) (inv.timer_inside j h)
    ];
  }

empty_of_null :
    (c : Cell)
    → (c ≡ empty_cell) ⊎ (c ≡ wall_cell) ⊎ (c ≡ coin_cell)
    → c.is_empty ≡ true
    → c.contains_coin ≡ false
empty_of_null c h free = ground arith

-- When, at a consistent server, `put_player_on_board` reports success for a player that was not in play,
-- whose index is its slot, as only that of slot 0 is in the source, and with a letter from A on as the next symbol, and its caller marks the
-- player as in play, the server is consistent again.
pub put_player_on_board-IsConsistent :
    (rand : ℕ → ℕ) (tries k i : ℕ) (s : Server)
    → IsConsistent s
    → (s.players_info i).index ≡ i
    → (s.players_info i).state ≢ inside_a_game
    → b'A' ≤ s.current_player_symbol
    → (put_player_on_board rand tries k i s).1 ≡ true
    → let s' = (put_player_on_board rand tries k i s).0 in
      IsConsistent (set_player i (record (s'.players_info i) { state = inside_a_game }) s')
unfolding put_player_on_board
put_player_on_board-IsConsistent rand zero k i s inv own outside symbol = λ h. cc
put_player_on_board-IsConsistent rand (suc tries) k i s inv own outside symbol =
    elim (Bool-cases cell.is_empty) [
      | inl free ↦
          rw (free, put_player_on_board)
            (λ _.
              settle_player i (at loc) shown _
                (λ j ne. update-ne moved i _ j ne ∙ update-ne s.players_info i _ j ne)
                (ap (λ q. q.state) here) (ap (λ q. q.index) here ∙ own)
                (subst InBounds (sym (ap (λ q. q.location) here)) b) (ap (λ q. at q.location) here)
                outside (refl, no_coin free, symbol, refl) (open_plain (at loc) (plain free) inv))
      | inr full ↦
          rw (full, put_player_on_board)
            (put_player_on_board-IsConsistent rand tries (k + 2) i s inv own outside symbol)
    ]
  where
    loc : Location
    loc = record { row = rand k % board_height; col = rand (k + 1) % board_width }

    cell : Cell
    cell = s.cells (at loc)

    b : InBounds loc
    b = omega arith

    shown : Cell
    shown = record cell { obj = obj_p i; is_empty = false; symbol = s.current_player_symbol }

    moved : ℕ → Player
    moved = update s.players_info i (record (s.players_info i) { location = loc })

    here :
        update moved i (record (moved i) { state = inside_a_game }) i
        ≡ record (s.players_info i) { location = loc; state = inside_a_game }
    here =
        update_self moved i _
        ∙ ap (λ (q : Player). record q { state = inside_a_game })
            (update_self s.players_info i (record (s.players_info i) { location = loc }))

    fits : Fits s.players_info s.monsters (at loc) cell cell.obj
    fits = inv.fits (at loc) (at-lt loc b) (λ q. cc)

    plain : cell.is_empty ≡ true → cell.obj ≡ null
    plain free = null_of_empty s.players_info s.monsters (at loc) cell cell.obj fits free

    no_coin : cell.is_empty ≡ true → cell.contains_coin ≡ false
    no_coin free = empty_of_null cell (rw (plain free) at fits) free

-- No place was found only if every one of the places that were tried was taken, and then nothing has
-- changed.
pub put_player_on_board-eq-false :
    (rand : ℕ → ℕ) (tries k i : ℕ) (s : Server)
    → (put_player_on_board rand tries k i s).1 ≡ false
    → ((put_player_on_board rand tries k i s).0 ≡ s)
      × ((t : ℕ) → t < tries → (s.cells (at (place rand (k + 2 * t)))).is_empty ≡ false)
unfolding put_player_on_board
put_player_on_board-eq-false rand zero k i s h = (refl, λ t lt. absurd (omega arith))
put_player_on_board-eq-false rand (suc tries) k i s h = elim (Bool-cases cell.is_empty) [
  | inl free ↦ cc (rw (free, put_player_on_board) at h)
  | inr full ↦
      let (same, rest) =
        put_player_on_board-eq-false rand tries (k + 2) i s (rw (full, put_player_on_board) at h) in
      (rw (full, put_player_on_board) same, later full rest)
]
  where
    cell : Cell
    cell = s.cells (at (place rand k))

    later :
        cell.is_empty ≡ false
        → ((t : ℕ) → t < tries → (s.cells (at (place rand (k + 2 + 2 * t)))).is_empty ≡ false)
        → (t : ℕ) → t < suc tries
        → (s.cells (at (place rand (k + 2 * t)))).is_empty ≡ false
    later full rest zero lt =
        subst (λ x. (s.cells (at (place rand x))).is_empty ≡ false) (omega arith) full
    later full rest (suc t) lt =
        subst (λ x. (s.cells (at (place rand x))).is_empty ≡ false) (omega arith)
          (rest t (omega arith))
