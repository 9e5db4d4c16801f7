-- ===== src/Game/Random.antt =====
-- `random_direction_generator` of C-Multiplayer-game/src/server/main.c. `getrandom n j` is byte `j`
-- of the buffer that the call `n` of getrandom(2) fills; a short read ends the process there.
pub mod Laws
use software_development_pla.Common.{ℕ, ◌+◌, ◌%◌, ◌==◌, if◌then◌else◌}
use software_development_pla.Game.Protocol.{Direction, up, down, left, right}
use software_development_pla.Game.State.{RandState}

abbrev pub rand_bytes_buf_len : ℕ
rand_bytes_buf_len = 25

abbrev pub num_of_directions : ℕ
num_of_directions = 4

-- The cast of a number below 4 to `Direction`.
unfoldable pub to_direction : ℕ → Direction
to_direction n = if n == 0 then up else if n == 1 then down else if n == 2 then left else right

module _ (getrandom : ℕ → ℕ → ℕ) where
  unfoldable pub refill : RandState → RandState
  refill r =
      if r.index == 0 then record r { rand_bytes = getrandom r.calls; calls = r.calls + 1 } else r

  unfoldable pub random_direction_generator : RandState → Direction × RandState
  random_direction_generator r =
      let r' = refill r in
      (
        to_direction (r'.rand_bytes r'.index % num_of_directions),
        record r' { index = (r'.index + 1) % rand_bytes_buf_len },
      )
