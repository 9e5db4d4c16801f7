-- ===== src/Game/Setup.antt =====
-- How a board comes to be and how a player comes onto it: `isBoundary`, `newMonster`, `init_board`,
-- `new_game` and `put_player_on_board` of C-Multiplayer-game/src/server/main.c. `rand k` is the
-- result of call `k` of rand(3), and malloc(3) succeeds.
pub mod Fill
pub mod Join
use software_development_pla.Common.{
  ℕ, zero, suc, ◌+◌, ◌-◌, ◌*◌, ◌%◌, ◌==◌, if◌then◌else◌, Bool, true, false, ◌||◌, leb, Option, none,
  some, update,
}
use software_development_pla.Game.Types.{
  Location, Monster, Cell, obj_m, obj_p, board_width, board_height, empty_cell, wall_cell,
  coin_cell, monster_sym,
}
use software_development_pla.Game.State.{Server, u32, at, put_cell, set_player}

abbrev pub num_of_monsters_divider : ℕ
num_of_monsters_divider = 100

-- The entries of `monsters`
abbrev pub max_monsters : ℕ
max_monsters = 150

abbrev pub num_of_monsters_modulo : ℕ
num_of_monsters_modulo = 4

unfoldable pub is_boundary : ℕ → ℕ → ℕ → ℕ → Bool
is_boundary r c num_of_rows num_of_cols =
    r == 0 || r == num_of_rows - 1 || c == num_of_cols - 1 || c == 0

-- The test that there is room in `monsters` is missing, see `init_board`.
unfoldable pub new_monster : ℕ → ℕ → Server → Server
new_monster i j s =
    let loc : Location = record { row = i; col = j } in
    let cell : Cell = record {
      is_empty = false;
      contains_coin = false;
      symbol = monster_sym;
      obj = obj_m s.num_of_monsters;
    } in
    let monster : Monster = record { location = loc; index = s.num_of_monsters } in
    record (put_cell loc cell s) {
      monsters = update s.monsters s.num_of_monsters (some monster);
      num_of_monsters = s.num_of_monsters + 1;
    }

-- `cells[i][j] = coinCell; num_of_coins_on_screen++;`
unfoldable pub new_coin : Location → Server → Server
new_coin loc s = record (put_cell loc coin_cell s) {
  num_of_coins_on_screen = u32 (s.num_of_coins_on_screen + 1);
}

module _ (rand : ℕ → ℕ) where
  -- The body of both loops; the number is how many calls of `rand` were made before.
  unfoldable pub init_cell : ℕ → ℕ → Server × ℕ → Server × ℕ
  init_cell i j (s, k) =
      let loc : Location = record { row = i; col = j } in
      if is_boundary i j board_height board_width
      then (put_cell loc wall_cell s, k)
      else if rand k % num_of_monsters_divider == num_of_monsters_modulo
      then (new_monster i j s, k + 1)
      else if rand (k + 1) % 5 == 2
      then (new_coin loc s, k + 2)
      else (put_cell loc empty_cell s, k + 2)

  -- The inner loop, with `n` columns left from `j` on.
  unfoldable pub init_row : ℕ → ℕ → ℕ → Server × ℕ → Server × ℕ
  init_row i j zero t = t
  init_row i j (suc n) t = init_row i (j + 1) n (init_cell i j t)

  -- The outer loop, with `n` rows left from `i` on.
  unfoldable pub init_rows : ℕ → ℕ → Server × ℕ → Server × ℕ
  init_rows i zero t = t
  init_rows i (suc n) t = init_rows (i + 1) n (init_row i 0 board_width t)

  -- `board` is what the memory of the new board held.
  unfoldable pub fill_board : (ℕ → Cell) → Server → Server
  fill_board board s = (init_rows 0 board_height (record s { cells = board }, 0)).0

  -- `none` where a monster is stored behind the end of `monsters`: every monster is stored at the number
  -- of those before it, so that the last number tells.
  unfoldable pub init_board : (ℕ → Cell) → Server → Option Server
  init_board board s =
      let s' = fill_board board s in if leb s'.num_of_monsters max_monsters then some s' else none

  unfoldable pub new_game : (ℕ → Cell) → Server → Option Server
  new_game board s = elim (init_board board s) [
    | some s' ↦ some (record s' { has_someone_started_a_game = true })
    | none ↦ none
  ]

  -- The place that the calls `k` and `k + 1` of `rand` give.
  abbrev pub place : ℕ → Location
  place k = record { row = rand k % board_height; col = rand (k + 1) % board_width }

  -- With `tries` failures left before the loop gives up, and `k` calls of `rand` made. `false` is
  -- EXIT_FAILURE.
  unfoldable pub put_player_on_board : ℕ → ℕ → ℕ → Server → Server × Bool
  put_player_on_board zero k i s = (s, false)
  put_player_on_board (suc tries) k i s =
      let loc = place k in
      let cell = s.cells (at loc) in
      let retry = put_player_on_board tries (k + 2) i s in
      let shown : Cell = record cell {
        obj = obj_p i;
        is_empty = false;
        symbol = s.current_player_symbol;
      } in
      let placed =
        set_player i (record (s.players_info i) { location = loc }) (put_cell loc shown s) in
      if cell.is_empty
      then (record placed { current_player_symbol = (s.current_player_symbol + 1) % 256 }, true)
      else retry

abbrev pub board_cells : ℕ
board_cells = board_height * board_width
