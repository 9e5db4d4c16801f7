-- ===== src/Game/Types.antt =====
-- C-Multiplayer-game/src/server/types.h and the symbols of common.h.
use software_development_pla.Common.{ℕ, Bool, true, false, List}

-- `struct Location`; both fields are uint32_t.
pub record Location : Type 0 where
  pub row : ℕ
  pub col : ℕ

-- `enum ClientState`
pub data PlayerState : Type 0 where
  disconnected just_logged_in was_asked_for_name waiting_for_name received_name : PlayerState
  waiting_for_options was_shown_options waiting_for_choice waiting_for_others : PlayerState
  waiting_for_game_to_start waiting_for_client_to_ack_game inside_a_game : PlayerState
  spectator dead : PlayerState

pub record Player : Type 0 where
  pub location : Location
  pub state : PlayerState
  pub points : ℕ  -- unsigned int
  pub name : List ℕ
  pub has_superpower : Bool
  pub index : ℕ

pub record Monster : Type 0 where
  pub location : Location
  pub index : ℕ

-- `union GameObjectType`. A pointer to a player is its slot in `players_info`; a pointer to a monster
-- is the slot of `monsters` that `newMonster` stored the allocation in. The other members are unused.
pub data GameObj : Type 0 where
  null : GameObj
  obj_m : ℕ → GameObj
  obj_p : ℕ → GameObj

pub record Cell : Type 0 where
  pub is_empty : Bool
  pub contains_coin : Bool
  pub symbol : ℕ  -- char
  pub obj : GameObj

abbrev pub board_width : ℕ
board_width = 20

abbrev pub board_height : ℕ
board_height = 15

abbrev pub max_num_of_players : ℕ
max_num_of_players = 26

abbrev pub coin_worth : ℕ
coin_worth = 10

abbrev pub empty_sym : ℕ
empty_sym = b' '

abbrev pub monster_sym : ℕ
monster_sym = b'#'

abbrev pub wall_sym : ℕ
wall_sym = b'='

abbrev pub coin_sym : ℕ
coin_sym = b'$'

abbrev pub empty_cell : Cell
empty_cell = record { is_empty = true; contains_coin = false; symbol = empty_sym; obj = null }

abbrev pub wall_cell : Cell
wall_cell = record { is_empty = false; contains_coin = false; symbol = wall_sym; obj = null }

abbrev pub coin_cell : Cell
coin_cell = record { is_empty = false; contains_coin = true; symbol = coin_sym; obj = null }
