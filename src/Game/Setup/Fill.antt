-- ===== src/Game/Setup/Fill.antt =====
-- The board that `init_board` fills, cell by cell.
use software_development_pla.Common.{
  ℕ, zero, suc, ◌+◌, ◌*◌, ◌%◌, ◌≤◌, ◌<◌, ◌≡◌, ◌∙◌, ◌≢◌, refl, sym, subst, inl, inr, none, some,
  arith, ◌==◌, update_elim, update_self, update-ne, weigh, weigh-write_next, true, false,
  Bool-cases, leb, ◌⊎◌, if◌then◌else◌,
}
use software_development_pla.Game.Types.{
  Location, inside_a_game, Monster, Cell, null, obj_m, board_width, board_height, empty_cell,
  wall_cell, coin_cell, monster_sym,
}
use software_development_pla.Game.Location.{InBounds}
use software_development_pla.Game.State.{Server, at, put_cell}
use software_development_pla.Game.Invariant.{Fits, IsConsistent}
use software_development_pla.Game.Invariant.Frame.{Fits-monsters}
use software_development_pla.Game.Setup.{
  is_boundary, new_monster, new_coin, init_cell, init_row, init_rows, fill_board, init_board,
  max_monsters,
}

abbrev pub coin_bit : Cell → ℕ
coin_bit c = if c.contains_coin then 1 else 0

-- The coins that lie on the first `n` cells, under a monster or not.
abbrev pub coins : ℕ → Server → ℕ
coins n s = weigh coin_bit s.cells n

-- The first `n` cells are filled, and nobody is in play yet.
pub record Filled (n : ℕ) (s : Server) : Type 0 where
  pub fits : (n' : ℕ) → n' < n → Fits s.players_info s.monsters n' (s.cells n') (s.cells n').obj
  pub monster_cell :
      (k : ℕ) (monster : Monster)
      → s.monsters k ≡ some monster
      → (monster.index ≡ k)
        × InBounds monster.location
        × (at monster.location < n)
        × ((s.cells (at monster.location)).obj ≡ obj_m k)
  pub unused : (k : ℕ) → s.num_of_monsters ≤ k → s.monsters k ≡ none
  pub nobody : (i : ℕ) → (s.players_info i).state ≢ inside_a_game
  pub no_timer : (i : ℕ) → s.superpower_timers i ≡ 0
  pub counted : coins n s ≡ s.num_of_coins_on_screen
  pub few : s.num_of_coins_on_screen ≤ n

Filled-IsConsistent : (s : Server) → Filled (board_height * board_width) s → IsConsistent s
Filled-IsConsistent s h = record {
  fits = λ n lt _. h.fits n lt;
  player_cell = λ i inside. absurd (h.nobody i inside);
  monster_cell =
      λ k monster e. let (a, b, _, d) = h.monster_cell k monster e in (a, b, (λ q. cc), d);
  own_index = λ i inside. absurd (h.nobody i inside);
  timer_inside = λ i ne. absurd (ne (h.no_timer i));
}

-- A cell that points to nothing is put on the next place.
put-Filled :
    (l : Location) (c : Cell) (s : Server) (num : ℕ)
    → c.obj ≡ null
    → Fits s.players_info s.monsters (at l) c null
    → num ≡ s.num_of_coins_on_screen + coin_bit c
    → Filled (at l) s
    → Filled (suc (at l)) (record (put_cell l c s) { num_of_coins_on_screen = num })
put-Filled l c s num o shape count h = record {
  fits = λ n' lt.
      update_elim (λ x. Fits s.players_info s.monsters n' x x.obj) s.cells (at l) c n'
        (λ e. subst (λ x. Fits s.players_info s.monsters n' c x) (sym o) shape)
        (λ ne. h.fits n' (omega arith));
  monster_cell = λ k monster e. ground (arith, h.monster_cell k monster e);
  unused = h.unused;
  nobody = h.nobody;
  no_timer = h.no_timer;
  counted = omega (arith, weigh-write_next coin_bit s.cells (at l) c, h.counted);
  few = ground (arith, h.few);
}

new_monster-Filled :
    (i j : ℕ) (s : Server)
    → i < board_height
    → j < board_width
    → Filled (i * board_width + j) s
    → Filled (suc (i * board_width + j)) (new_monster i j s)
unfolding new_monster
new_monster-Filled i j s hi hj h = record {
  fits = λ n' lt.
      update_elim (λ x. Fits s.players_info (new_monster i j s).monsters n' x x.obj) s.cells n _ n'
        (λ e. (
          refl,
          refl,
          (
            record { location = record { row = i; col = j }; index = m },
            update_self s.monsters m _,
            e,
          ),
        ))
        (λ ne.
          Fits-monsters s.players_info s.monsters _ n' (s.cells n') (s.cells n').obj
            (λ k other e l. update-ne s.monsters m _ k (λ q. ground (arith, h.unused k)))
            (h.fits n' (omega arith)));
  monster_cell = λ k other.
      update_elim (λ x. x ≡ some other → Claim k other) s.monsters m _ k (λ e q. ground (arith))
        (λ ne q. ground (arith, h.monster_cell k other));
  unused = λ k le. update-ne s.monsters m _ k (omega arith) ∙ h.unused k (omega arith);
  nobody = h.nobody;
  no_timer = h.no_timer;
  counted = omega (
    arith,
    weigh-write_next coin_bit s.cells n
        (record { is_empty = false; contains_coin = false; symbol = monster_sym; obj = obj_m m }),
    h.counted,
  );
  few = omega (arith, h.few);
}
  where
    n : ℕ
    n = i * board_width + j

    m : ℕ
    m = s.num_of_monsters

    Claim : ℕ → Monster → Type 0
    Claim k other =
        (other.index ≡ k)
        × InBounds other.location
        × (at other.location < suc n)
        × (((new_monster i j s).cells (at other.location)).obj ≡ obj_m k)

new_coin-Filled :
    (l : Location) (s : Server)
    → at l < board_height * board_width
    → Filled (at l) s
    → Filled (suc (at l)) (new_coin l s)
unfolding new_coin
new_coin-Filled l s lt h = put-Filled l coin_cell s _ refl (inr (inr refl)) (omega (arith, h.few)) h

module _ (rand : ℕ → ℕ) where
  init_cell-Filled :
      (i j k : ℕ) (s : Server)
      → i < board_height
      → j < board_width
      → Filled (i * board_width + j) s
      → Filled (suc (i * board_width + j)) (init_cell rand i j (s, k)).0
  unfolding init_cell
  init_cell-Filled i j k s hi hj h = elim (Bool-cases (is_boundary i j board_height board_width)) [
    | inl wall ↦
        rw (wall, init_cell) (put-Filled l wall_cell s _ refl (inr (inl refl)) (omega arith) h)
    | inr inner ↦ elim (Bool-cases (rand k % 100 == 4)) [
      | inl monster ↦ rw (inner, init_cell) (rw monster (new_monster-Filled i j s hi hj h))
      | inr other ↦ elim (Bool-cases (rand (k + 1) % 5 == 2)) [
        | inl coin ↦ rw (inner, init_cell) (rw (other, coin) (new_coin-Filled l s (omega arith) h))
        | inr empty ↦
            rw (inner, init_cell)
              (rw (other, empty) (put-Filled l empty_cell s _ refl (inl refl) (omega arith) h))
      ]
    ]
  ]
    where
      l : Location
      l = record { row = i; col = j }

  init_row-Filled :
      (i j n : ℕ) (t : Server × ℕ)
      → i < board_height
      → j + n ≡ board_width
      → Filled (i * board_width + j) t.0
      → Filled ((i + 1) * board_width) (init_row rand i j n t).0
  unfolding init_row
  init_row-Filled i j zero t hi hj h = subst (λ m. Filled m t.0) (omega arith) h
  init_row-Filled i j (suc n) t hi hj h =
      init_row-Filled i (j + 1) n (init_cell rand i j t) hi (omega arith) (
        subst (λ m. Filled m (init_cell rand i j t).0) (omega arith)
          (init_cell-Filled i j t.1 t.0 hi (omega arith) h))

  init_rows-Filled :
      (i n : ℕ) (t : Server × ℕ)
      → i + n ≡ board_height
      → Filled (i * board_width) t.0
      → Filled (board_height * board_width) (init_rows rand i n t).0
  unfolding init_rows
  init_rows-Filled i zero t hi h = subst (λ m. Filled m t.0) (omega arith) h
  init_rows-Filled i (suc n) t hi h =
      init_rows-Filled (i + 1) n (init_row rand i 0 board_width t) (omega arith) (
        init_row-Filled i 0 board_width t (omega arith) (omega arith)
          (subst (λ m. Filled m t.0) (omega arith) h))

-- What the server has to be before its first game: nobody in play, no monster, no coin counted.
pub record IsFresh (s : Server) : Type 0 where
  pub no_monsters : (k : ℕ) → s.monsters k ≡ none
  pub nobody : (i : ℕ) → (s.players_info i).state ≢ inside_a_game
  pub no_timer : (i : ℕ) → s.superpower_timers i ≡ 0
  pub no_coins : s.num_of_coins_on_screen ≡ 0

-- Whatever `rand` returns and whatever the memory of the board held: if `init_board` does not store a
-- monster behind the end of `monsters`, it turns a fresh server into a consistent one whose coin counter
-- is the number of cells with a coin.
pub init_board-IsConsistent :
    (rand : ℕ → ℕ) (board : ℕ → Cell) (s s' : Server)
    → IsFresh s
    → init_board rand board s ≡ some s'
    → IsConsistent s' × (coins (board_height * board_width) s' ≡ s'.num_of_coins_on_screen)
unfolding init_board fill_board weigh
init_board-IsConsistent rand board s s' f ends =
    subst (λ t. IsConsistent t × (coins (board_height * board_width) t ≡ t.num_of_coins_on_screen))
      filled_board (Filled-IsConsistent _ filled, filled.counted)
  where
    fit :
        (leb (fill_board rand board s).num_of_monsters max_monsters ≡ true)
        ⊎ (leb (fill_board rand board s).num_of_monsters max_monsters ≡ false)
    fit = Bool-cases (leb (fill_board rand board s).num_of_monsters max_monsters)

    filled_board : fill_board rand board s ≡ s'
    filled_board = elim fit [
      | inl room ↦ cc (rw (init_board, room) at ends)
      | inr over ↦ absurd (cc (rw (init_board, over) at ends))
    ]

    filled : Filled (board_height * board_width) (fill_board rand board s)
    filled =
        init_rows-Filled rand 0 board_height (record s { cells = board }, 0) (omega arith)
          (record {
            fits = λ n lt. absurd (omega arith);
            monster_cell = λ k monster e. ground (arith, f.no_monsters k);
            unused = λ k _. f.no_monsters k;
            nobody = f.nobody;
            no_timer = f.no_timer;
            counted = omega (arith, f.no_coins);
            few = omega (arith, f.no_coins);
          })
