-- ===== src/Game/Invariant.antt =====
-- What the board and the records of the server say of one another, between two moves of
-- C-Multiplayer-game/src/server/main.c.
pub mod Frame
pub mod Holes
pub mod Movement
pub mod Ends
pub mod Arrivals
pub mod PlayerMoves
pub mod MonsterMoves
pub mod Tick
pub mod Games
pub mod Coins
pub mod CoinMoves
use software_development_pla.Common.{
  ℕ, ◌≤◌, ◌<◌, ◌*◌, ◌≡◌, refl, Bool, if◌then◌else◌, ◌≢◌, ◌⊎◌, true, false, Option, none, some,
}
use software_development_pla.Game.Types.{
  board_width, board_height, Location, PlayerState, inside_a_game, Player, Monster, Cell, GameObj,
  null, obj_m, obj_p, board_width, board_height, empty_cell, wall_cell, coin_cell, monster_sym,
}
use software_development_pla.Game.Location.{InBounds}
use software_development_pla.Game.State.{Server, Run, running, exited, fault, at}

-- A cell that points to no record is empty, a wall or a coin. A cell that points to a player or a
-- monster shows it, and that record is in play and recorded to stand at this place, `n`.
abbrev pub Fits : (ℕ → Player) → (ℕ → Option Monster) → ℕ → Cell → GameObj → Type 0
Fits players monsters n c null = (c ≡ empty_cell) ⊎ (c ≡ wall_cell) ⊎ (c ≡ coin_cell)
Fits players monsters n c (obj_p j) =
    (c.is_empty ≡ false)
    × (c.contains_coin ≡ false)
    × (b'A' ≤ c.symbol)
    × ((players j).state ≡ inside_a_game)
    × (at (players j).location ≡ n)
Fits players monsters n c (obj_m k) =
    (c.is_empty ≡ false)
    × (c.symbol ≡ monster_sym)
    × ((monster : Monster) × (monsters k ≡ some monster) × (at monster.location ≡ n))

-- `hole` is a cell that no record claims and of which nothing is known; `none` if there is none.
pub record Consistent (hole : Option ℕ) (cells : ℕ → Cell) (players : ℕ → Player)
    (monsters : ℕ → Option Monster) (timers : ℕ → ℕ) : Type 0 where
  pub fits :
      (n : ℕ)
      → n < board_height * board_width
      → hole ≢ some n
      → Fits players monsters n (cells n) (cells n).obj
  pub player_cell :
      (i : ℕ)
      → (players i).state ≡ inside_a_game
      → InBounds (players i).location
        × (hole ≢ some (at (players i).location))
        × ((cells (at (players i).location)).obj ≡ obj_p i)
  pub monster_cell :
      (k : ℕ) (monster : Monster)
      → monsters k ≡ some monster
      → (monster.index ≡ k)
        × InBounds monster.location
        × (hole ≢ some (at monster.location))
        × ((cells (at monster.location)).obj ≡ obj_m k)
  -- The source never writes the index of a slot, which stays 0: of its servers, those are consistent where
  -- nobody but the player of slot 0 is in play.
  pub own_index : (i : ℕ) → (players i).state ≡ inside_a_game → (players i).index ≡ i
  pub timer_inside : (i : ℕ) → timers i ≢ 0 → (players i).state ≡ inside_a_game

abbrev pub IsConsistent : Server → Type 0
IsConsistent s = Consistent none s.cells s.players_info s.monsters s.superpower_timers

-- The handler stops at no fault, and leaves a consistent server behind.
abbrev pub Safe : Run → Type 0
Safe (running s) = IsConsistent s
Safe (exited s) = IsConsistent s
Safe fault = ⊥

pub Safe-if :
    (b : Bool) (x y : Run) → (b ≡ true → Safe x) → (b ≡ false → Safe y) → Safe (if b then x else y)
Safe-if true x y hx hy = hx refl
Safe-if false x y hx hy = hy refl
