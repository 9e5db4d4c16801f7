-- ===== src/Port/Tests.antt =====
-- Runs of the port, and the theorems about it at them.
use software_development_pla.Common.{
  weigh, ℕ, ℕ_discrete, ◌/◌, ◌%◌, ◌≤◌, ◌<◌, ◌≡◌, ◌≢◌, ◌↔◌, refl, true, false, none, some, List, [],
  ◌∷◌, arith,
}
use software_development_pla.Port.Numbers.{
  is_prime, prime_from, int_sqrt, cranes, divides_by_zero, number_of_cranes_from,
  generate_number_of_cranes,
}
use software_development_pla.Port.Numbers.Primes.{is_prime_iff}
use software_development_pla.Port.Numbers.Cranes.{generate_number_of_cranes-divides}
use software_development_pla.Port.Quay.{
  Port, Section, done, fault, and_then, init_static_vars, release_vessels, release_from_barrier,
  enter_to_barrier, pass_barrier, find_crane, settle, enter_unloading_quay, wait_for_vessel,
  finish_unloading, wait_for_crane, leave_quay,
}
use software_development_pla.Port.Quay.Barrier.{Released, release_from_barrier-Released}
use software_development_pla.Port.Quay.Cranes.{
  IsCounted, enter_unloading_quay-done, leave_quay-IsCounted, enter_unloading_quay-fault_iff,
}

is_prime_runs : (is_prime 49 ≡ false) × (is_prime 47 ≡ true) × (is_prime 2 ≡ true)
unfolding is_prime prime_from int_sqrt
is_prime_runs = (refl, refl, refl)

is_prime_iff_example : (is_prime 49 ≡ true) ↔ ((d : ℕ) → 2 ≤ d → d < 49 → 49 % d ≢ 0)
is_prime_iff_example = is_prime_iff 49 (omega arith)

-- The draws 0, 1, 2, … try 2, 3, 4, …
thirty_five : generate_number_of_cranes (λ k. k) 35 20 ≡ cranes 5
unfolding generate_number_of_cranes number_of_cranes_from
thirty_five = refl

generate_number_of_cranes-divides_example : (1 < 5) × (5 < 35) × (5 ≤ 35 / 2) × (35 % 5 ≡ 0)
generate_number_of_cranes-divides_example =
    generate_number_of_cranes-divides (λ k. k) 35 20 5 (omega arith) thirty_five

-- Six vessels and three cranes.
abbrev empty_port : Port
empty_port = init_static_vars 6 3

release_from_barrier-Released_example :
    (s' : Port) × (release_from_barrier empty_port ≡ done (record s' { is_quay_adt_free = false }))
    × Released empty_port.num_of_cranes empty_port s'
unfolding init_static_vars
release_from_barrier-Released_example =
    release_from_barrier-Released empty_port (omega arith) (λ j _. refl)

enter_unloading_quay-done_example :
    (c : ℕ) × (s' : Port) × (enter_unloading_quay 4 77 empty_port ≡ done s')
    × (c < empty_port.num_of_cranes)
    × (empty_port.cranes_vessel_ids c ≡ none)
    × ((j : ℕ) → j < c → empty_port.cranes_vessel_ids j ≢ none)
    × (s'.cranes_vessel_ids c ≡ some 4)
    × IsCounted s'
    × (5 ≤ s'.cargo_weights c)
    × (s'.cargo_weights c < 50)
unfolding init_static_vars weigh
enter_unloading_quay-done_example =
    enter_unloading_quay-done 4 77 empty_port refl (omega arith) (λ c _. refl)

abbrev one_vessel : Port
one_vessel = settle 4 77 0 empty_port

abbrev after : Section → Port
after (done s) = s
after _ = empty_port

leave_quay-IsCounted_example :
    let s' = after (leave_quay 0 one_vessel) in IsCounted s' × (s'.cranes_vessel_ids 0 ≡ none)
unfolding init_static_vars leave_quay weigh ℕ_discrete
leave_quay-IsCounted_example =
    leave_quay-IsCounted 0 4 one_vessel (after (leave_quay 0 one_vessel)) refl (omega arith) refl
      refl

-- Four vessels and two cranes. The first vessel leaves before the second has passed the barrier, which
-- frees the quay: the barrier then lets through the third and the fourth, and the fourth finds the
-- second and the third at the cranes.
abbrev in_order : List (Port → Section) → Section → Section
in_order [] s = s
in_order (f ∷ fs) s = in_order fs (and_then s f)

abbrev crowded : Section
crowded =
    in_order
      (enter_to_barrier
        ∷ enter_to_barrier
        ∷ enter_to_barrier
        ∷ pass_barrier 0
        ∷ enter_unloading_quay 1 0
        ∷ wait_for_vessel 0
        ∷ finish_unloading 0
        ∷ wait_for_crane 0
        ∷ leave_quay 0
        ∷ pass_barrier 1
        ∷ pass_barrier 2
        ∷ enter_unloading_quay 2 0
        ∷ enter_unloading_quay 3 0
        ∷ enter_to_barrier
        ∷ pass_barrier 3
        ∷ [])
      (done (init_static_vars 4 2))

overrun : and_then crowded (enter_unloading_quay 4 0) ≡ fault
unfolding init_static_vars enter_to_barrier pass_barrier release_from_barrier release_vessels
    find_crane enter_unloading_quay wait_for_vessel finish_unloading wait_for_crane leave_quay
    ℕ_discrete
overrun = refl

enter_unloading_quay-fault_iff_example :
    (enter_unloading_quay 4 0 (after crowded) ≡ fault)
    ↔ ((c : ℕ) → c < (after crowded).num_of_cranes → (after crowded).cranes_vessel_ids c ≢ none)
enter_unloading_quay-fault_iff_example = enter_unloading_quay-fault_iff 4 0 (after crowded)

-- Two vessels leave no range for the draws.
two_vessels : generate_number_of_cranes (λ k. k) 2 1 ≡ divides_by_zero
unfolding generate_number_of_cranes number_of_cranes_from
two_vessels = refl
