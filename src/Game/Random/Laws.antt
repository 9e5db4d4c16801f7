-- ===== src/Game/Random/Laws.antt =====
-- What `random_direction_generator` draws.
use software_development_pla.Common.{
  ℕ, ◌+◌, ◌%◌, ◌/◌, ◌<◌, ◌≡◌, ◌∙◌, ap, refl, inl, inr, Bool-cases, ◌==◌, true, arith,
}
use software_development_pla.Game.Location.{is_move}
use software_development_pla.Game.State.{RandState}
use software_development_pla.Game.Random.{
  to_direction, refill, random_direction_generator, num_of_directions, rand_bytes_buf_len,
}

to_direction-is_move : (n : ℕ) → is_move (to_direction n) ≡ true
unfolding to_direction
to_direction-is_move n = ground arith

module _ (getrandom : ℕ → ℕ → ℕ) where
  -- A drawn direction is one of the four moves.
  pub random-is_move : (r : RandState) → is_move (random_direction_generator getrandom r).0 ≡ true
  unfolding random_direction_generator
  random-is_move r = to_direction-is_move _

  -- The state before draw `n`: the buffer in use, if any byte of it is left, is number `n / 25`.
  pub record IsAt (n : ℕ) (r : RandState) : Type 0 where
    pub index_eq : r.index ≡ n % rand_bytes_buf_len
    pub calls_eq : r.calls ≡ (n + 24) / rand_bytes_buf_len
    pub buffer_eq : (j : ℕ) → 0 < r.index → r.rand_bytes j ≡ getrandom (n / rand_bytes_buf_len) j

  refill_lem :
      (n : ℕ) (r : RandState)
      → IsAt n r
      → ((refill getrandom r).index ≡ n % rand_bytes_buf_len)
        × ((j : ℕ) → (refill getrandom r).rand_bytes j ≡ getrandom (n / rand_bytes_buf_len) j)
        × ((refill getrandom r).calls ≡ n / rand_bytes_buf_len + 1)
  unfolding refill
  refill_lem n r h = elim (Bool-cases (r.index == 0)) [
    | inl e ↦
        let last : r.calls ≡ n / rand_bytes_buf_len = ground (arith, h.calls_eq, h.index_eq) in
        rw (e, refill) (h.index_eq, λ j. ap (λ c. getrandom c j) last, rw last)
    | inr e ↦
        rw (e, refill)
          (h.index_eq, λ j. h.buffer_eq j (ground arith), ground (arith, h.calls_eq, h.index_eq))
  ]

  -- In the state that `n` draws lead to, the next draw is the direction of the next byte, and leads to
  -- the state of `n + 1` draws: each byte of each buffer is used once, in order.
  pub random-IsAt :
      (n : ℕ) (r : RandState)
      → IsAt n r
      → ((random_direction_generator getrandom r).0
          ≡ to_direction
              (getrandom (n / rand_bytes_buf_len) (n % rand_bytes_buf_len) % num_of_directions))
        × IsAt (n + 1) (random_direction_generator getrandom r).1
  unfolding random_direction_generator
  random-IsAt n r h =
      let (at_index, bytes, calls) = refill_lem n r h in
      (
        rw (bytes _, at_index) refl,
        record {
          index_eq = rw at_index (omega arith);
          calls_eq = rw calls (omega arith);
          buffer_eq = λ j more. bytes j ∙ ap (λ b. getrandom b j) (ground (arith, at_index));
        },
      )
