-- ===== src/Game/Protocol.antt =====
-- C-Multiplayer-game/src/common: the directions of common.h and their one-byte codes of protocol.c.
use software_development_pla.Common.{ℕ, ◌==◌, if◌then◌else◌}

-- `enum Move`
pub data Direction : Type 0 where
  up down left right invalid_move stopped : Direction

unfoldable pub encode_direction : Direction → ℕ
encode_direction up = 0x00
encode_direction down = 0x0F
encode_direction left = 0xF0
encode_direction right = 0xFF
encode_direction _ = 0xAA

-- The byte that `command` points to.
unfoldable pub decode_direction : ℕ → Direction
decode_direction b =
    if b == 0x00
    then up
    else if b == 0x0F
    then down
    else if b == 0xF0
    then left
    else if b == 0xFF
    then right
    else invalid_move

-- The control bytes of protocol.h.
abbrev pub i_need_your_name_msg : ℕ
i_need_your_name_msg = 0x88

abbrev pub enter_your_choice_msg : ℕ
enter_your_choice_msg = 0x99

abbrev pub game_started : ℕ
game_started = 0xFE

abbrev pub game_over : ℕ
game_over = 0xEF

abbrev pub update_start : ℕ
update_start = 0xF9

abbrev pub update_end : ℕ
update_end = 0x9F

abbrev pub client_ack_game_started : ℕ
client_ack_game_started = 0xCC
