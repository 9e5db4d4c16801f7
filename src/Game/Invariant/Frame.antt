-- ===== src/Game/Invariant/Frame.antt =====
-- What a cell shows depends only on the records that are recorded to stand there.
use software_development_pla.Common.{
  ◌||◌, refl, true, false, arith, ◌==◌, ℕ, ◌≡◌, ◌∙◌, Option, some,
}
use software_development_pla.Game.Types.{
  wall_sym, coin_sym, inside_a_game, monster_sym, Player, Monster, Cell, GameObj, null, obj_m,
  obj_p,
}
use software_development_pla.Game.State.{at}
use software_development_pla.Game.Invariant.{Fits}

module _ (players : ℕ → Player) (monsters : ℕ → Option Monster) where
  pub Fits-players :
      (players' : ℕ → Player) (n : ℕ) (c : Cell) (o : GameObj)
      → ((j : ℕ)
          → (players j).state ≡ inside_a_game
          → at (players j).location ≡ n
          → ((players' j).state ≡ (players j).state)
            × ((players' j).location ≡ (players j).location))
      → Fits players monsters n c o
      → Fits players' monsters n c o
  Fits-players players' n c null same h = h
  Fits-players players' n c (obj_p j) same h = rw ((same j h.3 h.4).0, (same j h.3 h.4).1) h
  Fits-players players' n c (obj_m k) same h = h

  pub Fits-monsters :
      (monsters' : ℕ → Option Monster) (n : ℕ) (c : Cell) (o : GameObj)
      → ((k : ℕ) (monster : Monster)
          → monsters k ≡ some monster
          → at monster.location ≡ n
          → monsters' k ≡ monsters k)
      → Fits players monsters n c o
      → Fits players monsters' n c o
  Fits-monsters monsters' n c null same h = h
  Fits-monsters monsters' n c (obj_p j) same h = h
  Fits-monsters monsters' n c (obj_m k) same (a, b, (monster, e, l)) =
      (a, b, (monster, same k monster e l ∙ e, l))

  -- What the tests of the code on a cell say of its pointer.
  pub null_of_empty :
      (n : ℕ) (c : Cell) (o : GameObj) → Fits players monsters n c o → c.is_empty ≡ true → o ≡ null
  null_of_empty n c null h e = refl
  null_of_empty n c (obj_p j) h e = cc
  null_of_empty n c (obj_m k) h e = cc

  pub null_of_coin :
      (n : ℕ) (c : Cell) (o : GameObj)
      → Fits players monsters n c o
      → c.contains_coin ≡ true
      → (c.symbol == monster_sym) ≡ false
      → o ≡ null
  null_of_coin n c null h e ne = refl
  null_of_coin n c (obj_p j) h e ne = cc
  null_of_coin n c (obj_m k) h e ne = ground arith

  pub monster_of_symbol :
      (n : ℕ) (c : Cell) (o : GameObj)
      → Fits players monsters n c o
      → (c.symbol == monster_sym) ≡ true
      → (k : ℕ) × (monster : Monster) × (o ≡ obj_m k)
        × (monsters k ≡ some monster)
        × (at monster.location ≡ n)
  monster_of_symbol n c null h e = absurd (ground arith)
  monster_of_symbol n c (obj_p j) h e = absurd (ground arith)
  monster_of_symbol n c (obj_m k) h e = (k, h.2.0, refl, h.2.1, h.2.2)

  pub player_of_free :
      (n : ℕ) (c : Cell) (o : GameObj)
      → Fits players monsters n c o
      → (c.symbol == wall_sym || c.symbol == monster_sym) ≡ false
      → (c.is_empty || c.symbol == coin_sym) ≡ false
      → (j : ℕ) × (o ≡ obj_p j)
        × ((players j).state ≡ inside_a_game)
        × (at (players j).location ≡ n)
  player_of_free n c null h free full = absurd (ground arith)
  player_of_free n c (obj_p j) h free full = (j, refl, h.3, h.4)
  player_of_free n c (obj_m k) h free full = absurd (ground arith)

  pub null_of_target :
      (n : ℕ) (c : Cell) (o : GameObj)
      → Fits players monsters n c o
      → (c.is_empty || c.symbol == coin_sym) ≡ true
      → o ≡ null
  null_of_target n c null h e = refl
  null_of_target n c (obj_p j) h e = absurd (ground arith)
  null_of_target n c (obj_m k) h e = absurd (ground arith)
