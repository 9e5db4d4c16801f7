-- ===== src/Port/Quay/Cranes.antt =====
-- The cranes of EilatPort.c and the count of those that hold a vessel.
use software_development_pla.Common.{
  ℕ, zero, suc, ◌+◌, ◌-◌, ◌<◌, ◌≤◌, ◌≡◌, ◌≢◌, inl, inr, refl, sym, ap, subst, ◌==◌, if◌then◌else◌,
  Bool, true, false, Option, none, some, arith, update, Bool-cases, Option-cases, weigh,
  weigh-update, leb, update_self, ℕ_discrete, ==_iff, ◌%◌, ◌↔◌, ◌⊎◌,
}
use software_development_pla.Port.Quay.Barrier.{release_from_barrier-kept}
use software_development_pla.Port.Quay.{
  Port, done, failed, fault, find_crane, settle, enter_unloading_quay, leave_quay,
  release_from_barrier,
}

abbrev pub occupied : Option ℕ → ℕ
occupied none = 0
occupied (some _) = 1

-- `cranesWithVessels` counts the cranes that hold a vessel.
abbrev pub IsCounted : Port → Type 0
IsCounted s = s.cranes_with_vessels ≡ weigh occupied s.cranes_vessel_ids s.num_of_cranes

pub find_crane_lem :
    (ids : ℕ → Option ℕ) (c n : ℕ)
    → ((find_crane ids c n ≡ none) × ((j : ℕ) → c ≤ j → j < c + n → ids j ≢ none))
      ⊎ ((k : ℕ) × (find_crane ids c n ≡ some k)
          × (c ≤ k)
          × (k < c + n)
          × (ids k ≡ none)
          × ((j : ℕ) → c ≤ j → j < k → ids j ≢ none))
unfolding find_crane
find_crane_lem ids c zero = inl (refl, λ j a b. absurd (omega arith))
find_crane_lem ids c (suc n) = elim (Option-cases (ids c)) [
  | inl free ↦
      inr (
        c,
        rw (find_crane, free) refl,
        omega arith,
        omega arith,
        free,
        λ j a b. absurd (omega arith),
      )
  | inr taken ↦ elim (find_crane_lem ids (c + 1) n) [
    | inl q ↦
        inl (rw (find_crane, taken.1) q.0, λ j a b. later taken j a (λ h. q.1 j h (omega arith)))
    | inr q ↦
        let (k, found, above, below, free, first) = q in
        inr (
          k,
          rw (find_crane, taken.1) found,
          omega arith,
          omega arith,
          free,
          λ j a b. later taken j a (λ h. first j h b),
        )
  ]
]
  where
    later : (v : ℕ) × (ids c ≡ some v) → (j : ℕ) → c ≤ j → (c + 1 ≤ j → ids j ≢ none) → ids j ≢ none
    later taken j a rest e = elim (ℕ_discrete c j) [
      | yes same ↦ absurd (cc (same, taken.1, e))
      | no ne ↦ rest (omega arith) e
    ]

-- Where all cranes hold a vessel, their count is the number of cranes.
all_occupied :
    (ids : ℕ → Option ℕ) (n : ℕ) → ((j : ℕ) → j < n → ids j ≢ none) → weigh occupied ids n ≡ n
unfolding weigh
all_occupied ids zero full = refl
all_occupied ids (suc n) full =
    omega
      (arith, last (ids n) (full n (omega arith)), all_occupied ids n (λ j b. full j (omega arith)))
  where
    last : (o : Option ℕ) → o ≢ none → occupied o ≡ 1
    last none ne = absurd (ne refl)
    last (some v) ne = refl

-- Where the count of the vessels is the number of cranes with a vessel and below the number of cranes,
-- and the semaphore of no free crane is up, a vessel that enters gets the first free crane: that crane
-- holds the vessel, the count is again the number of cranes with a vessel, and the cargo weighs from 5
-- to 49 tons.
pub enter_unloading_quay-done :
    (vessel draw : ℕ) (s : Port)
    → IsCounted s
    → s.cranes_with_vessels < s.num_of_cranes
    → ((c : ℕ) → s.cranes_vessel_ids c ≡ none → s.cranes_in_semaphores c ≡ 0)
    → (c : ℕ) × (s' : Port) × (enter_unloading_quay vessel draw s ≡ done s')
      × (c < s.num_of_cranes)
      × (s.cranes_vessel_ids c ≡ none)
      × ((j : ℕ) → j < c → s.cranes_vessel_ids j ≢ none)
      × (s'.cranes_vessel_ids c ≡ some vessel)
      × IsCounted s'
      × (5 ≤ s'.cargo_weights c)
      × (s'.cargo_weights c < 50)
unfolding enter_unloading_quay
enter_unloading_quay-done vessel draw s counted room idle =
    elim (find_crane_lem s.cranes_vessel_ids 0 s.num_of_cranes) [
      | inl q ↦ absurd (
          omega (
            arith,
            counted,
            all_occupied s.cranes_vessel_ids s.num_of_cranes
                (λ j b. q.1 j (omega arith) (omega arith)),
          ))
      | inr q ↦
          let (c, found, _, below, free, first) = q in
          let down : (s.cranes_in_semaphores c == 0) ≡ true = (==_iff _ 0).1 (idle c free) in
          (
            c,
            settle vessel draw c s,
            rw (enter_unloading_quay, found, down) refl,
            omega arith,
            free,
            (λ j b. first j (omega arith) b),
            update_self s.cranes_vessel_ids c (some vessel),
            omega (
              arith,
              counted,
              ap occupied free,
              weigh-update occupied s.cranes_vessel_ids s.num_of_cranes c (some vessel)
                  (omega arith),
            ),
            rw (update_self s.cargo_weights c (draw % 45 + 5)) (omega arith),
            rw (update_self s.cargo_weights c (draw % 45 + 5)) (omega arith),
          )
    ]

-- Where the count of the vessels is the number of cranes with a vessel, and a vessel leaves its crane
-- without an error, the crane is free and the count is again the number of cranes with a vessel, also
-- where the barrier then releases the next vessels.
pub leave_quay-IsCounted :
    (c vessel : ℕ) (s s' : Port)
    → IsCounted s
    → c < s.num_of_cranes
    → s.cranes_vessel_ids c ≡ some vessel
    → leave_quay c s ≡ done s'
    → IsCounted s' × (s'.cranes_vessel_ids c ≡ none)
unfolding leave_quay
leave_quay-IsCounted c vessel s s' counted below here e =
    elim (Bool-cases (left.cranes_with_vessels == 0)) [
      | inr some_left ↦ let same : left ≡ s' = cc (some_left, e) in subst IsLeft same left_IsLeft
      | inl empty ↦ elim (Bool-cases (leb s.num_of_cranes s.vessels_in_barrier)) [
        | inr few ↦
            let same : (record left { is_quay_adt_free = true }) ≡ s' = cc (empty, few, e) in
            subst IsLeft same left_IsLeft
        | inl many ↦
            let released : release_from_barrier (record left { is_quay_adt_free = true })
                ≡ done s' =
              cc (empty, many, e) in
            subst IsLeft
              (sym
                (release_from_barrier-kept (record left { is_quay_adt_free = true }) s' released))
              left_IsLeft
      ]
    ]
  where
    IsLeft : Port → Type 0
    IsLeft x = IsCounted x × (x.cranes_vessel_ids c ≡ none)

    left : Port
    left = record s {
      cranes_vessel_ids = update s.cranes_vessel_ids c none;
      cranes_with_vessels = s.cranes_with_vessels - 1;
      cargo_weights = update s.cargo_weights c 0;
    }

    left_IsLeft : IsLeft left
    left_IsLeft = (
      omega (
        arith,
        counted,
        ap occupied here,
        weigh-update occupied s.cranes_vessel_ids s.num_of_cranes c none below,
      ),
      update_self s.cranes_vessel_ids c none,
    )

-- A vessel writes behind the end of `cargoWeights` exactly when it comes to a quay where every crane
-- holds a vessel.
pub enter_unloading_quay-fault_iff :
    (vessel draw : ℕ) (s : Port)
    → (enter_unloading_quay vessel draw s ≡ fault)
      ↔ ((c : ℕ) → c < s.num_of_cranes → s.cranes_vessel_ids c ≢ none)
unfolding enter_unloading_quay
enter_unloading_quay-fault_iff vessel draw s =
    elim (find_crane_lem s.cranes_vessel_ids 0 s.num_of_cranes) [
      | inl q ↦
          (λ _ c below. q.1 c (omega arith) (omega arith), λ _. rw (enter_unloading_quay, q.0) refl)
      | inr q ↦
          let (c, found, _, below, free, first) = q in
          (
            λ e. absurd (
                settled (s.cranes_in_semaphores c == 0) (settle vessel draw c s)
                  (rw (enter_unloading_quay, found) at e)),
            λ full. absurd (full c (omega arith) free),
          )
    ]
  where
    settled : (b : Bool) (t : Port) → (if b then done t else failed) ≢ fault
    settled true t e = cc
    settled false t e = cc
