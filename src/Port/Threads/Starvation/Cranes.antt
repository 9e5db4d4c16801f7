-- ===== src/Port/Threads/Starvation/Cranes.antt =====
-- The cranes of the port of Eilat do not help a stuck vessel.
use software_development_pla.Common.{
  ℕ, ◌+◌, ◌≡◌, ◌≢◌, refl, subst, ◌∙◌, inl, inr, Option, none, some, update, update-ne, Bool-cases,
  ◌==◌, if◌then◌else◌, ltb,
}
use software_development_pla.Port.Quay.{Port, wait_for_vessel, finish_unloading}
use software_development_pla.Port.Threads.{
  CraneThread, Yard, waits, moved, after_section, put_crane, crane_step, vessels_per_crane,
}
use software_development_pla.Port.Threads.Starvation.{IsStuck}

module _ (v c : ℕ) (y : Yard) (stuck : IsStuck v c y) where
  -- Another crane moves.
  crane-IsStuck :
      (d : ℕ) (t : CraneThread) (s : Port)
      → d ≢ c
      → s.cranes_out_semaphores c ≡ 0
      → vessels_per_crane s ≡ vessels_per_crane y.port
      → IsStuck v c (put_crane d t y s)
  crane-IsStuck d t s ne still same =
      let unchanged : update y.cranes d t c ≡ y.cranes c = update-ne y.cranes d t c ne in
      record {
        here = stuck.here;
        ended = rw (unchanged, same) stuck.ended;
        idle = rw (unchanged) stuck.idle;
        down = still;
      }

  idle-IsStuck :
      (d : ℕ) (y' : Yard)
      → (if ltb (y.cranes d).served (vessels_per_crane y.port)
          then after_section
              (wait_for_vessel d y.port)
              (put_crane d (record (y.cranes d) { busy = y.port.cranes_vessel_ids d }) y)
          else waits)
        ≡ moved y'
      → IsStuck v c y'
  unfolding wait_for_vessel after_section
  idle-IsStuck d y' e = elim (Bool-cases (ltb (y.cranes d).served (vessels_per_crane y.port))) [
    | inr over ↦ absurd (cc (rw (over) at e))
    | inl more ↦ elim (Bool-cases (y.port.cranes_in_semaphores d == 0)) [
      | inl down ↦ absurd (cc (rw (more, down) at e))
      | inr up ↦
          let next : Yard =
            put_crane d (record (y.cranes d) { busy = y.port.cranes_vessel_ids d }) y
              (record (y.port) { cranes_in_semaphores = update y.port.cranes_in_semaphores d 0 }) in
          let same : next ≡ y' = cc (rw (more, up) at e) in
          let other : d ≢ c = λ f. cc (more, stuck.ended, f) in
          subst (IsStuck v c) same (crane-IsStuck d _ _ other stuck.down refl)
    ]
  ]

  finish-IsStuck :
      (d w : ℕ) (y' : Yard)
      → (y.cranes d).busy ≡ some w
      → after_section
          (finish_unloading d y.port)
          (put_crane d (record { served = (y.cranes d).served + 1; busy = none }) y)
        ≡ moved y'
      → IsStuck v c y'
  unfolding finish_unloading after_section
  finish-IsStuck d w y' works e = elim (Bool-cases (y.port.cranes_out_semaphores d == 0)) [
    | inr up ↦ absurd (cc (rw (up) at e))
    | inl down ↦
        let next : Yard =
          put_crane d (record { served = (y.cranes d).served + 1; busy = none }) y
            (record (y.port) { cranes_out_semaphores = update y.port.cranes_out_semaphores d 1 }) in
        let same : next ≡ y' = cc (rw (down) at e) in
        let other : d ≢ c = λ f. cc (works, stuck.idle, f) in
        subst (IsStuck v c) same (
          crane-IsStuck d _ _ other
            (update-ne y.port.cranes_out_semaphores d 1 c other ∙ stuck.down) refl)
  ]

  pub crane_step-IsStuck : (d : ℕ) (y' : Yard) → crane_step d y ≡ moved y' → IsStuck v c y'
  unfolding crane_step
  crane_step-IsStuck d y' = go (y.cranes d).busy refl
    where
      go :
          (b : Option ℕ)
          → (y.cranes d).busy ≡ b
          → (elim b [
            | none ↦
                if ltb (y.cranes d).served (vessels_per_crane y.port)
                then after_section
                    (wait_for_vessel d y.port)
                    (put_crane d (record (y.cranes d) { busy = y.port.cranes_vessel_ids d }) y)
                else waits
            | some _ ↦
                after_section
                  (finish_unloading d y.port)
                  (put_crane d (record { served = (y.cranes d).served + 1; busy = none }) y)
          ])
            ≡ moved y'
          → IsStuck v c y'
      go none works e = idle-IsStuck d y' e
      go (some w) works e = finish-IsStuck d w y' works e
