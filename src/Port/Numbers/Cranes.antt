-- ===== src/Port/Numbers/Cranes.antt =====
-- `generateNumberOfCranes` of EilatPort.c.
use software_development_pla.Common.{
  ℕ, zero, suc, ◌+◌, ◌-◌, ◌/◌, ◌%◌, ◌≤◌, ◌<◌, ◌≡◌, inl, inr, subst, false, arith, Bool-cases, ◌==◌,
  ==_iff,
}
use native.Mathlib.Nat.{mod-lt}
use software_development_pla.Port.Numbers.{cranes, number_of_cranes_from, generate_number_of_cranes}

-- Where the loop has an answer, it divides the number of vessels and is in the range of the draws.
cranes_from_lem :
    (rand : ℕ → ℕ) (n k fuel c : ℕ)
    → 4 ≤ n
    → number_of_cranes_from rand n k fuel ≡ cranes c
    → (2 ≤ c) × (c ≤ n / 2) × (n % c ≡ 0)
unfolding number_of_cranes_from
cranes_from_lem rand n k zero c h e = absurd cc
cranes_from_lem rand n k (suc fuel) c h e = elim (Bool-cases (n % drawn == 0)) [
  | inl divides ↦
      let same : drawn ≡ c = cc (rw (number_of_cranes_from, many, divides) at e) in
      let low : 2 ≤ drawn = omega arith in
      let half : drawn ≤ n / 2 = omega (arith, mod-lt (rand k) {m = n / 2 - 1} (omega arith)) in
      subst (λ x. (2 ≤ x) × (x ≤ n / 2) × (n % x ≡ 0)) same
        (low, half, (==_iff (n % drawn) 0).0 divides)
  | inr other ↦
      cranes_from_lem rand n (k + 1) fuel c h (rw (number_of_cranes_from, many, other) at e)
]
  where
    drawn : ℕ
    drawn = rand k % ((n / 2) - 1) + 2

    many : ((n / 2) - 1 == 0) ≡ false
    many = ground arith

-- For at least four vessels, a number of cranes that the loop returns is more than one, less than the
-- number of vessels, at most half of it, and divides it.
pub generate_number_of_cranes-divides :
    (rand : ℕ → ℕ) (n fuel c : ℕ)
    → 4 ≤ n
    → generate_number_of_cranes rand n fuel ≡ cranes c
    → (1 < c) × (c < n) × (c ≤ n / 2) × (n % c ≡ 0)
unfolding generate_number_of_cranes
generate_number_of_cranes-divides rand n fuel c h e =
    let (low, half, divides) = cranes_from_lem rand n 0 fuel c h e in
    (low, omega arith, half, divides)
