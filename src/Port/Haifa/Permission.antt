-- ===== src/Port/Haifa/Permission.antt =====
-- Haifa and Eilat agree on the number of vessels.
use software_development_pla.Common.{
  ℕ, ◌%◌, ◌≤◌, ◌<◌, ◌≡◌, ◌≢◌, ◌↔◌, ◌⊎◌, refl, sym, ◌∙◌, inl, inr, Bool, true, false, some, List, [],
  ◌∷◌, ◌++◌, arith, leb, Bool-cases, atoi-decimal, decimal,
}
use software_development_pla.Port.Numbers.{is_prime}
use software_development_pla.Port.Numbers.Primes.{is_prime_iff, is_prime-eq-false}
use software_development_pla.Port.Haifa.{
  Program, eilat_port, eilat, eilat_src, create_eilat, create_eilat_from, goes_on, exits,
  min_vessels, max_vessels, num_vessels_error, read_arguments, read_answer, ask_eilat, is_text,
  check_num_of_vessels, answer_request, ask_permission,
}

read_arguments-decimal :
    (n : ℕ) (rest : List ℕ)
    → 2 ≤ n
    → n ≤ 50
    → read_arguments ((decimal n ++ (0 ∷ rest)) ∷ []) ≡ goes_on n
unfolding read_arguments
read_arguments-decimal n rest low high =
    let above : leb min_vessels n ≡ true = ground arith in
    let below : leb n max_vessels ≡ true = ground arith in
    rw (read_arguments, atoi-decimal n rest, above, below) refl

read_answer-check :
    (n : ℕ) (garbage : List ℕ)
    → read_answer (some ((check_num_of_vessels n).0 ++ (0 ∷ garbage))) ≡ (check_num_of_vessels n).1
unfolding read_answer check_num_of_vessels is_text
read_answer-check n garbage = elim (Bool-cases (is_prime n)) [
  | inl prime ↦ rw (prime) refl
  | inr composite ↦ rw (composite) refl
]

create_eilat-goes_on :
    (starts : Program → Bool) (name : Program)
    → starts name ≡ true
    → (q : Program) × (create_eilat starts ≡ goes_on q)
unfolding create_eilat create_eilat_from
create_eilat-goes_on starts name e = elim (Bool-cases (starts eilat_port)) [
  | inl first ↦ (eilat_port, rw (create_eilat, create_eilat_from, first) refl)
  | inr no_first ↦ elim (Bool-cases (starts eilat)) [
    | inl second ↦ (eilat, rw (create_eilat, create_eilat_from, no_first, second) refl)
    | inr no_second ↦ (
      eilat_src,
      rw (create_eilat, create_eilat_from, no_first, no_second, third name e no_first no_second)
          refl,
    )
  ]
]
  where
    third :
        (name : Program)
        → starts name ≡ true
        → starts eilat_port ≡ false
        → starts eilat ≡ false
        → starts eilat_src ≡ true
    third eilat_port e f g = absurd (cc (e, f))
    third eilat e f g = absurd (cc (e, g))
    third eilat_src e f g = e

check-cases :
    (n : ℕ)
    → ((check_num_of_vessels n).1 ≡ goes_on tt)
      ⊎ ((check_num_of_vessels n).1 ≡ exits num_vessels_error)
unfolding check_num_of_vessels
check-cases n = elim (Bool-cases (is_prime n)) [
  | inl prime ↦ inr (rw (prime) refl)
  | inr composite ↦ inl (rw (composite) refl)
]

goes_on-composite : (n : ℕ) → (check_num_of_vessels n).1 ≡ goes_on tt → is_prime n ≡ false
unfolding check_num_of_vessels
goes_on-composite n e = elim (Bool-cases (is_prime n)) [
  | inl prime ↦ absurd (cc (rw (prime) at e))
  | inr composite ↦ composite
]

check-composite : (n : ℕ) → is_prime n ≢ true → (check_num_of_vessels n).1 ≡ goes_on tt
unfolding check_num_of_vessels
check-composite n ne = elim (Bool-cases (is_prime n)) [
  | inl prime ↦ absurd (ne prime)
  | inr composite ↦ rw (composite) refl
]

-- From 2 to 50 vessels, where one of the three names of Eilat can be started and every other call
-- succeeds, both processes decide alike: Haifa lets its vessels
-- sail exactly if Eilat goes on, and both do exactly if a number from 2 on and below the number of vessels
-- divides it; otherwise both exit with the same code.
pub ask_permission-agrees :
    (n : ℕ) (rest garbage : List ℕ) (starts : Program → Bool) (name : Program)
    → 2 ≤ n
    → n ≤ 50
    → starts name ≡ true
    → (ask_permission starts (decimal n ++ (0 ∷ rest)) garbage ≡ (check_num_of_vessels n).1)
      × ((ask_permission starts (decimal n ++ (0 ∷ rest)) garbage ≡ goes_on tt)
          ↔ ((d : ℕ) × (2 ≤ d) × (d < n) × (n % d ≡ 0)))
      × (((check_num_of_vessels n).1 ≡ goes_on tt)
          ⊎ ((check_num_of_vessels n).1 ≡ exits num_vessels_error))
unfolding ask_permission ask_eilat answer_request
ask_permission-agrees n rest garbage starts name low high startable =
    (same, (λ e. divisor (sym same ∙ e), λ h. same ∙ allowed h), decided)
  where
    same : ask_permission starts (decimal n ++ (0 ∷ rest)) garbage ≡ (check_num_of_vessels n).1
    same =
        let (q, created) = create_eilat-goes_on starts name startable in
        rw
          (
            ask_permission,
            read_arguments-decimal n rest low high,
            created,
            answer_request,
            atoi-decimal n rest,
          )
          (read_answer-check n garbage)

    divisor : (check_num_of_vessels n).1 ≡ goes_on tt → (d : ℕ) × (2 ≤ d) × (d < n) × (n % d ≡ 0)
    divisor e = is_prime-eq-false n (goes_on-composite n e)

    allowed : (d : ℕ) × (2 ≤ d) × (d < n) × (n % d ≡ 0) → (check_num_of_vessels n).1 ≡ goes_on tt
    allowed (d, two, below, divides) =
        check-composite n (λ e. (is_prime_iff n low).0 e d two below divides)

    decided :
        ((check_num_of_vessels n).1 ≡ goes_on tt)
        ⊎ ((check_num_of_vessels n).1 ≡ exits num_vessels_error)
    decided = check-cases n
