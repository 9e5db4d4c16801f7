-- ===== src/Port/Numbers/Primes.antt =====
-- `isPrime` of EilatPort.c decides primality, though it only tries divisors up to the root.
use software_development_pla.Common.{
  ℕ, zero, suc, ◌+◌, ◌-◌, ◌*◌, ◌/◌, ◌%◌, ◌≤◌, ◌<◌, ◌≡◌, ◌≢◌, ◌↔◌, inl, inr, refl, sym, subst, true,
  false, arith, Bool-cases, ◌==◌, ==_iff, dec_lt, if◌then◌else◌, ℕ_discrete,
}
use native.Mathlib.Nat.{div-add-mod, mul-mod_left, mul-le-mul_right}
use software_development_pla.Port.Numbers.{int_sqrt, prime_from, is_prime}

int_sqrt-bounds :
    (n : ℕ) → (int_sqrt n * int_sqrt n ≤ n) × (n < (int_sqrt n + 1) * (int_sqrt n + 1))
unfolding int_sqrt
int_sqrt-bounds zero = (omega arith, omega arith)
int_sqrt-bounds (suc n) = let (low, high) = int_sqrt-bounds n in grind (arith, low, high)

-- No value of the loop divides `n`.
prime_from_iff : (n i m : ℕ) → (prime_from n i m ≡ true) ↔ ((d : ℕ) → i ≤ d → d < i + m → n % d ≢ 0)
unfolding prime_from
prime_from_iff n i zero = (λ _ d a b. absurd (omega arith), λ _. refl)
prime_from_iff n i (suc m) = elim (Bool-cases (n % i == 0)) [
  | inl divides ↦ (
    λ e. absurd (cc (e, divides)),
    λ h. absurd (h i (omega arith) (omega arith) ((==_iff (n % i) 0).0 divides)),
  )
  | inr other ↦ (
    λ e d a b. elim (ℕ_discrete i d) [
      | yes same ↦
          λ q. absurd (cc (other, (==_iff (n % i) 0).1 (subst (λ x. n % x ≡ 0) (sym same) q)))
      | no ne ↦ (prime_from_iff n (i + 1) m).0 (rest other e) d (omega arith) (omega arith)
    ],
    λ h. rw (other) ((prime_from_iff n (i + 1) m).1 (λ d a b. h d (omega arith) (omega arith))),
  )
]
  where
    rest : (n % i == 0) ≡ false → prime_from n i (suc m) ≡ true → prime_from n (i + 1) m ≡ true
    rest other e = subst (λ b. (if b then false else prime_from n (i + 1) m) ≡ true) other e

-- A divisor above the root leaves one below it.
small_divisor :
    (n d r : ℕ)
    → n < (r + 1) * (r + 1)
    → r < d
    → d < n
    → n % d ≡ 0
    → (q : ℕ) × (2 ≤ q) × (q ≤ r) × (n % q ≡ 0)
small_divisor n d r h above below e = (
  n / d,
  two_le (n / d) product,
  grind (arith, product),
  subst (λ x. x % (n / d) ≡ 0) product (mul-mod_left d (n / d)),
)
  where
    product : d * (n / d) ≡ n
    product = omega (arith, div-add-mod n d, e)

    two_le : (q : ℕ) → d * q ≡ n → 2 ≤ q
    two_le zero p = absurd (omega (arith))
    two_le (suc zero) p = absurd (omega (arith))
    two_le (suc (suc q)) p = omega arith

-- For `n` from 2 on, `isPrime` returns true exactly when no number from 2 to `n - 1` divides `n`.
pub is_prime_iff : (n : ℕ) → 2 ≤ n → (is_prime n ≡ true) ↔ ((d : ℕ) → 2 ≤ d → d < n → n % d ≢ 0)
unfolding is_prime
is_prime_iff n h = (
  λ e d a b q. elim (dec_lt (int_sqrt n) d) [
    | yes above ↦
        let (c, two, low, divides) = small_divisor n d (int_sqrt n) high above b q in
        (loop.0 e) c two (omega arith) divides
    | no below ↦ (loop.0 e) d a (omega arith) q
  ],
  λ none_divides. loop.1 (λ d a b. none_divides d a (omega (arith, root_below))),
)
  where
    high : n < (int_sqrt n + 1) * (int_sqrt n + 1)
    high = (int_sqrt-bounds n).1

    root_below : int_sqrt n < n
    root_below = elim (dec_lt (int_sqrt n) 2) [
      | yes small ↦ omega arith
      | no large ↦
          let two : 2 ≤ int_sqrt n = omega arith in
          omega (arith, mul-le-mul_right (int_sqrt n) two, (int_sqrt-bounds n).0)
    ]

    loop : (is_prime n ≡ true) ↔ ((d : ℕ) → 2 ≤ d → d < 2 + (int_sqrt n - 1) → n % d ≢ 0)
    loop = prime_from_iff n 2 (int_sqrt n - 1)

prime_from-eq-false :
    (n i m : ℕ) → prime_from n i m ≡ false → (d : ℕ) × (i ≤ d) × (d < i + m) × (n % d ≡ 0)
unfolding prime_from
prime_from-eq-false n i zero e = absurd (cc e)
prime_from-eq-false n i (suc m) e = elim (Bool-cases (n % i == 0)) [
  | inl divides ↦ (i, omega arith, omega arith, (==_iff (n % i) 0).0 divides)
  | inr other ↦
      let (d, above, below, divides) =
        prime_from-eq-false n (i + 1) m (rw (prime_from, other) at e) in
      (d, omega arith, omega arith, divides)
]

-- A number that does not pass has a divisor.
pub is_prime-eq-false : (n : ℕ) → is_prime n ≡ false → (d : ℕ) × (2 ≤ d) × (d < n) × (n % d ≡ 0)
unfolding is_prime
is_prime-eq-false n e =
    let (d, above, below, divides) = prime_from-eq-false n 2 (int_sqrt n - 1) e in
    let (low, high) = int_sqrt-bounds n in
    (d, above, smaller (int_sqrt n) d low above (omega arith), divides)
  where
    smaller : (r d : ℕ) → r * r ≤ n → 2 ≤ d → d ≤ r → d < n
    smaller r d low above below =
        omega (arith, low, mul-le-mul_right {m = 2} {n = r} r (omega arith))
