-- ===== src/Port/Numbers.antt =====
-- `isPrime` and `generateNumberOfCranes` of EilatPort.c.
pub mod Primes
pub mod Cranes
use software_development_pla.Common.{
  ℕ, zero, suc, ◌+◌, ◌-◌, ◌*◌, ◌/◌, ◌%◌, leb, ◌==◌, if◌then◌else◌, Bool, true, false,
}

-- `(int)sqrt(n)`, which is exact for an int
unfoldable pub int_sqrt : ℕ → ℕ
int_sqrt zero = 0
int_sqrt (suc n) =
    let root = int_sqrt n in if leb ((root + 1) * (root + 1)) (suc n) then root + 1 else root

-- The loop, with `m` values left from `i` on.
unfoldable pub prime_from : ℕ → ℕ → ℕ → Bool
prime_from n i zero = true
prime_from n i (suc m) = let rest = prime_from n (i + 1) m in if n % i == 0 then false else rest

-- The values of `i` from 2 to the root.
unfoldable pub is_prime : ℕ → Bool
is_prime n = prime_from n 2 (int_sqrt n - 1)

-- A number of cranes; a division by zero; the loop goes on.
pub data Draws : Type 0 where
  cranes : ℕ → Draws
  divides_by_zero goes_on : Draws

-- `rand k` is the result of call `k` of rand(3); the loop is cut after `fuel` rounds. For fewer than four
-- vessels the divisor is zero; where `n / 2` is 0 it is -1, but there are at least two vessels. The caller
-- has refused the primes before, and 2 and 3 with them.
unfoldable pub number_of_cranes_from : (ℕ → ℕ) → ℕ → ℕ → ℕ → Draws
number_of_cranes_from rand n k zero = goes_on
number_of_cranes_from rand n k (suc fuel) =
    let num_of_cranes = rand k % ((n / 2) - 1) + 2 in
    let rest = number_of_cranes_from rand n (k + 1) fuel in
    if (n / 2) - 1 == 0
    then divides_by_zero
    else if n % num_of_cranes == 0
    then cranes num_of_cranes
    else rest

unfoldable pub generate_number_of_cranes : (ℕ → ℕ) → ℕ → ℕ → Draws
generate_number_of_cranes rand n fuel = number_of_cranes_from rand n 0 fuel
