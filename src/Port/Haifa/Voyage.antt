-- ===== src/Port/Haifa/Voyage.antt =====
-- The vessels sail from Haifa to Eilat and back.
use software_development_pla.Common.{
  ℕ, zero, suc, ◌+◌, ◌<◌, ◌≤◌, ◌≡◌, ◌≢◌, refl, sym, ap, subst, ◌∙◌, inl, inr, true, Option, none,
  some, List, arith, ltb, ◌==◌, update, update_self, update-ne, ℕ_discrete, Bool-cases, pos, atoi,
  atoi-decimal,
}
use software_development_pla.Port.Haifa.{
  goes_on, vessel_message, release_semaphore, wake_vessel, wait_for_vessels,
  wait_for_all_vessels_to_return, create_vessel, receive_vessels, receive_vessels_from_haifa,
}

-- Message `k` is that of the vessel `order k + 1`, and there are `n` vessels.
pub record Carries (n : ℕ) (order : ℕ → ℕ) (read : ℕ → Option (List ℕ)) : Type 0 where
  pub garbage : ℕ → List ℕ
  pub message : (k : ℕ) → k < n → read k ≡ some (vessel_message (garbage k) (order k + 1))
  pub in_range : (k : ℕ) → k < n → order k < n
  pub all : (i : ℕ) → i < n → (k : ℕ) × (k < n) × (order k ≡ i)

module _ (n : ℕ) (order : ℕ → ℕ) (read : ℕ → Option (List ℕ)) (carries : Carries n order read) where
  wake_vessel-message :
      (k : ℕ) (semaphores : ℕ → ℕ)
      → k < n
      → (buffer : List ℕ) × (read k ≡ some buffer)
        × (wake_vessel read n buffer semaphores ≡ goes_on (release_semaphore semaphores (order k)))
        × ((threads : ℕ → Option ℕ)
            → create_vessel read n buffer threads
              ≡ goes_on (update threads (order k) (some (order k + 1))))
  unfolding wake_vessel vessel_message create_vessel
  wake_vessel-message k semaphores h =
      let id : atoi (vessel_message (carries.garbage k) (order k + 1)) ≡ pos (suc (order k)) =
        atoi-decimal (order k + 1) (carries.garbage k) ∙ ap pos (omega arith) in
      let known : ltb (order k) n ≡ true = let b = carries.in_range k h in ground arith in
      (
        vessel_message (carries.garbage k) (order k + 1),
        carries.message k h,
        rw (wake_vessel, id, known) refl,
        λ threads.
            rw (create_vessel, id, known)
              (ap (λ j. goes_on (update threads (order k) (some j))) (omega arith)),
      )

  release-up :
      (semaphores : ℕ → ℕ) (i : ℕ) → semaphores i ≤ 1 → release_semaphore semaphores i i ≡ 1
  unfolding release_semaphore
  release-up semaphores i h = elim (Bool-cases (semaphores i == 0)) [
    | inl down ↦ rw (down) (update_self semaphores i 1)
    | inr up ↦ rw (up) (ground arith)
  ]

  release-other :
      (semaphores : ℕ → ℕ) (i j : ℕ) → i ≢ j → release_semaphore semaphores i j ≡ semaphores j
  unfolding release_semaphore
  release-other semaphores i j ne = elim (Bool-cases (semaphores i == 0)) [
    | inl down ↦ rw (down) (update-ne semaphores i 1 j ne)
    | inr up ↦ rw (up) refl
  ]

  release-le :
      (semaphores : ℕ → ℕ) (i j : ℕ) → semaphores j ≤ 1 → release_semaphore semaphores i j ≤ 1
  release-le semaphores i j h = elim (ℕ_discrete i j) [
    | yes same ↦
        subst (λ k. release_semaphore semaphores i k ≤ 1) same
          (omega (arith, release-up semaphores i (subst (λ k. semaphores k ≤ 1) (sym same) h)))
    | no ne ↦ omega (arith, release-other semaphores i j ne)
  ]

  release-keeps :
      (semaphores : ℕ → ℕ) (i j : ℕ) → semaphores j ≡ 1 → release_semaphore semaphores i j ≡ 1
  release-keeps semaphores i j h = elim (ℕ_discrete i j) [
    | yes same ↦
        subst (λ k. release_semaphore semaphores i k ≡ 1) same
          (release-up semaphores i (omega (arith, subst (λ k. semaphores k ≡ 1) (sym same) h)))
    | no ne ↦ release-other semaphores i j ne ∙ h
  ]

  -- With `m` messages left, from message `k` on.
  wait_for_vessels-wakes :
      (m k : ℕ) (semaphores : ℕ → ℕ)
      → k + m ≡ n
      → ((i : ℕ) → semaphores i ≤ 1)
      → (after : ℕ → ℕ) × (wait_for_vessels read n m k semaphores ≡ goes_on after)
        × ((i : ℕ) → semaphores i ≡ 1 → after i ≡ 1)
        × ((j : ℕ) → k ≤ j → j < n → after (order j) ≡ 1)
  unfolding wait_for_vessels
  wait_for_vessels-wakes zero k semaphores e low =
      (semaphores, refl, (λ i h. h), (λ j a b. absurd (omega arith)))
  wait_for_vessels-wakes (suc m) k semaphores e low =
      let (buffer, got, woken, _) = wake_vessel-message k semaphores (omega arith) in
      let next = release_semaphore semaphores (order k) in
      let (after, done, kept, more) =
        wait_for_vessels-wakes m (k + 1) next (omega arith)
          (λ i. release-le semaphores (order k) i (low i)) in
      (
        after,
        rw (wait_for_vessels, got, woken) done,
        (λ i h. kept i (release-keeps semaphores (order k) i h)),
        (λ j a b. elim (ℕ_discrete k j) [
          | yes same ↦
              subst (λ i. after (order i) ≡ 1) same
                (kept (order k) (release-up semaphores (order k) (low (order k))))
          | no ne ↦ more j (omega arith) b
        ]),
      )

  update-keeps :
      (threads : ℕ → Option ℕ) (i j : ℕ)
      → threads j ≡ some (j + 1)
      → update threads i (some (i + 1)) j ≡ some (j + 1)
  update-keeps threads i j h = elim (ℕ_discrete i j) [
    | yes same ↦
        subst (λ k. update threads i (some (i + 1)) k ≡ some (k + 1)) same
          (update_self threads i (some (i + 1)))
    | no ne ↦ update-ne threads i (some (i + 1)) j ne ∙ h
  ]

  receive_vessels-creates :
      (m k : ℕ) (threads : ℕ → Option ℕ)
      → k + m ≡ n
      → (after : ℕ → Option ℕ) × (receive_vessels read n m k threads ≡ goes_on after)
        × ((i : ℕ) → threads i ≡ some (i + 1) → after i ≡ some (i + 1))
        × ((j : ℕ) → k ≤ j → j < n → after (order j) ≡ some (order j + 1))
  unfolding receive_vessels
  receive_vessels-creates zero k threads e =
      (threads, refl, (λ i h. h), (λ j a b. absurd (omega arith)))
  receive_vessels-creates (suc m) k threads e =
      let (buffer, got, _, created) = wake_vessel-message k (λ _. 0) (omega arith) in
      let next = update threads (order k) (some (order k + 1)) in
      let (after, done, kept, more) = receive_vessels-creates m (k + 1) next (omega arith) in
      (
        after,
        rw (receive_vessels, got, created threads) done,
        (λ i h. kept i (update-keeps threads (order k) i h)),
        (λ j a b. elim (ℕ_discrete k j) [
          | yes same ↦
              subst (λ i. after (order i) ≡ some (order i + 1)) same
                (kept (order k) (update_self threads (order k) (some (order k + 1))))
          | no ne ↦ more j (omega arith) b
        ]),
      )

-- The vessels may sail to Eilat in any order and back in any other: if the messages of both ways carry the
-- number of every vessel, and none that is not one, then the loop at Eilat ends with a thread for every
-- vessel, which knows its number, and the loop at Haifa ends with the semaphore of every vessel up.
pub voyage :
    (n : ℕ) (there back : ℕ → ℕ) (read_there read_back : ℕ → Option (List ℕ))
    → Carries n there read_there
    → Carries n back read_back
    → (threads : ℕ → Option ℕ) × (semaphores : ℕ → ℕ) × (receive_vessels_from_haifa read_there n
        ≡ goes_on threads)
      × (wait_for_all_vessels_to_return read_back n ≡ goes_on semaphores)
      × ((i : ℕ) → i < n → (threads i ≡ some (i + 1)) × (semaphores i ≡ 1))
unfolding receive_vessels_from_haifa wait_for_all_vessels_to_return
voyage n there back read_there read_back out home =
    let (threads, arrived, _, created) =
      receive_vessels-creates n there read_there out n 0 (λ _. none) (omega arith) in
    let (semaphores, returned, _, woken) =
      wait_for_vessels-wakes n back read_back home n 0 (λ _. 0) (omega arith) (λ i. omega arith) in
    (
      threads,
      semaphores,
      arrived,
      returned,
      λ i h.
          let (j, below, same) = out.all i h in
          let (k, below_k, same_k) = home.all i h in
          (
            subst (λ x. threads x ≡ some (x + 1)) same (created j (omega arith) below),
            subst (λ x. semaphores x ≡ 1) same_k (woken k (omega arith) below_k),
          ),
    )
