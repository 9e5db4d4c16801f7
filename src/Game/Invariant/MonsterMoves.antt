-- ===== src/Game/Invariant/MonsterMoves.antt =====
-- A move of a monster meets no fault and keeps the board consistent.
use software_development_pla.Common.{
  ℕ, zero, suc, ◌≡◌, ◌≢◌, ◌⊎◌, refl, sym, inl, inr, true, false, some, arith, ◌==◌, ◌||◌,
  if◌then◌else◌, Bool, update, subst, Bool-cases, Option-cases,
}
use software_development_pla.Game.Types.{
  Location, inside_a_game, Monster, null, obj_p, empty_cell, coin_cell, coin_sym,
}
use software_development_pla.Game.Location.{InBounds}
use software_development_pla.Game.Location.Laws.{at-lt, next-opposite}
use software_development_pla.Game.State.{RandState, Server, at, put_cell}
use software_development_pla.Game.Updates.{UpdateWrites}
use software_development_pla.Game.Life.{mark_as_dead}
use software_development_pla.Game.Players.{destroy_monster}
use software_development_pla.Game.Random.{random_direction_generator}
use software_development_pla.Game.Random.Laws.{random-is_move}
use software_development_pla.Game.Monsters.{
  monster_tries_threshold, update_source_cell, Target, to_location, no_luck, bad_direction,
  is_blocked, find_target, meet_player, step_onto, move_monster, handle_monster_move,
}
use software_development_pla.Game.Invariant.{Fits, Consistent, IsConsistent, Safe, Safe-if}
use software_development_pla.Game.Invariant.Frame.{player_of_free, null_of_target}
use software_development_pla.Game.Invariant.Holes.{open_plain, close_plain, destroy-open}
use software_development_pla.Game.Invariant.Movement
use software_development_pla.Game.Invariant.Ends.{mark_as_dead-open, exit_if_game_over-Safe}

plain_source :
    (b : Bool) → let c = if b then coin_cell else empty_cell in (c ≡ empty_cell) ⊎ (c ≡ coin_cell)
plain_source true = inr refl
plain_source false = inl refl

-- The cell that a monster leaves becomes a coin or empty.
close_source :
    (l : Location) (s : Server)
    → Consistent (some (at l)) s.cells s.players_info s.monsters s.superpower_timers
    → IsConsistent (update_source_cell l s)
unfolding update_source_cell
close_source l s inv = close_plain (at l) _ (plain_source (s.cells (at l)).contains_coin) inv

module _ (net : ℕ → UpdateWrites) (k : ℕ) (monster : Monster) (new_loc : Location) (s : Server)
    (here : s.monsters k ≡ some monster) (b : InBounds new_loc) (inv : IsConsistent s) where
  abbrev moved : Monster
  moved = record monster { location = new_loc }

  abbrev after : Server
  after = record s { monsters = update s.monsters k (some moved) }

  take_cell :
      (coin : Bool)
      → (s.cells (at new_loc)).obj ≡ null
      → IsConsistent (
          update_source_cell monster.location (
            put_cell new_loc
              (record (s.cells (at monster.location)) { contains_coin = coin })
              after))
  take_cell coin e =
      close_source monster.location
        (put_cell new_loc (record (s.cells (at monster.location)) { contains_coin = coin }) after)
        (Movement.move_monster k (at new_loc) coin new_loc monster b refl here
          (open_plain (at new_loc) e inv))

  meet_player-Safe :
      (j : ℕ)
      → (s.players_info j).state ≡ inside_a_game
      → at (s.players_info j).location ≡ at new_loc
      → Safe (meet_player net moved monster.location new_loc (obj_p j) after)
  unfolding meet_player destroy_monster mark_as_dead
  meet_player-Safe j inside there =
      Safe-if (s.players_info j).has_superpower _ _
        (λ _.
          close_source monster.location _
            (destroy-open k monster _ (λ i ne. ground (arith, own)) (ground (arith, own)) here inv))
        (λ _. exit_if_game_over-Safe net _ (
          close_source monster.location
            (put_cell new_loc (s.cells (at monster.location))
              (mark_as_dead (s.players_info j).index after))
            (subst (λ i. Eaten i) (sym (inv.own_index j inside)) eaten)))
    where
      own : monster.index ≡ k
      own = (inv.monster_cell k monster here).0

      Eaten : ℕ → Type 0
      Eaten i =
          let t = put_cell new_loc (s.cells (at monster.location)) (mark_as_dead i after) in
          Consistent (some (at monster.location)) t.cells t.players_info t.monsters
            t.superpower_timers

      eaten : Eaten j
      eaten = Movement.move_monster k (at new_loc) _ new_loc monster b refl here (
          subst
            (λ n.
              Consistent (some n) s.cells (mark_as_dead j s).players_info s.monsters
                (mark_as_dead j s).superpower_timers)
            there (mark_as_dead-open s j s.players_info (λ i _. refl) inside inv))

  step_onto-Safe :
      is_blocked s new_loc ≡ false → Safe (step_onto net moved monster.location new_loc after)
  unfolding step_onto is_blocked
  step_onto-Safe free =
      Safe-if ((s.cells (at new_loc)).is_empty || (s.cells (at new_loc)).symbol == coin_sym) _ _
        (λ e. take_cell _ (
          null_of_target s.players_info s.monsters (at new_loc) (s.cells (at new_loc))
            (s.cells (at new_loc)).obj shown e))
        (λ e. meets (
          player_of_free s.players_info s.monsters (at new_loc) (s.cells (at new_loc))
            (s.cells (at new_loc)).obj shown free e))
    where
      shown :
          Fits s.players_info s.monsters
            (at new_loc)
            (s.cells (at new_loc))
            (s.cells (at new_loc)).obj
      shown = inv.fits (at new_loc) (at-lt new_loc b) (λ q. cc)

      meets :
          (j : ℕ) × ((s.cells (at new_loc)).obj ≡ obj_p j)
            × ((s.players_info j).state ≡ inside_a_game)
            × (at (s.players_info j).location ≡ at new_loc)
          → Safe (meet_player net moved monster.location new_loc (s.cells (at new_loc)).obj after)
      meets (j, e, inside, there) =
          subst (λ o. Safe (meet_player net moved monster.location new_loc o after)) (sym e)
            (meet_player-Safe j inside there)

-- A target that is a place lies on the board, is not where the search began, and is not blocked.
abbrev Free : Server → Location → Target → Type 0
Free s old_loc (to_location loc) = InBounds loc × (at old_loc ≢ at loc) × (is_blocked s loc ≡ false)
Free s old_loc no_luck = Unit
Free s old_loc bad_direction = ⊥

move_monster-Safe :
    (net : ℕ → UpdateWrites) (k : ℕ) (monster : Monster) (s : Server) (r : RandState)
    (target : Target)
    → s.monsters k ≡ some monster
    → IsConsistent s
    → Free s monster.location target
    → Safe (move_monster net k monster target (record s { rand = r }))
unfolding move_monster is_blocked
move_monster-Safe net k monster s r (to_location loc) here inv free =
    step_onto-Safe net k monster loc (record s { rand = r }) here free.0 inv free.2
move_monster-Safe net k monster s r no_luck here inv free = inv
move_monster-Safe net k monster s r bad_direction here inv free = free

module _ (getrandom : ℕ → ℕ → ℕ) where
  find_target-Free :
      (tries : ℕ) (old_loc : Location) (s : Server) (r : RandState)
      → InBounds old_loc
      → Free s old_loc (find_target getrandom tries old_loc s r).0
  unfolding find_target
  find_target-Free zero old_loc s r b = tt
  find_target-Free (suc tries) old_loc s r b =
      let (d, r') = random_direction_generator getrandom r in
      let (loc, e, b', apart, _) = next-opposite old_loc d (random-is_move getrandom r) b in
      rw (e, find_target)
        (elim (Bool-cases (is_blocked s loc)) [
          | inl blocked ↦ rw blocked (find_target-Free tries old_loc s r' b)
          | inr free ↦ rw free (b', apart, free)
        ])

  -- At a consistent server, where in particular each player in play has its slot as its index, as only
  -- that of slot 0 has in the source, a move of the monster of any slot, whatever random bytes it draws,
  -- meets no fault, and leaves a consistent server behind.
  pub handle_monster_move-Safe :
      (net : ℕ → UpdateWrites) (k : ℕ) (s : Server)
      → IsConsistent s
      → Safe (handle_monster_move getrandom net k s)
  unfolding handle_monster_move
  handle_monster_move-Safe net k s inv = elim (Option-cases (s.monsters k)) [
    | inl e ↦ rw (e, handle_monster_move) inv
    | inr (monster, e) ↦
        rw (e, handle_monster_move)
          (move_monster-Safe net k monster s _ _ e inv (
            find_target-Free monster_tries_threshold monster.location s s.rand
              (inv.monster_cell k monster e).1))
  ]
