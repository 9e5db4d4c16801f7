-- ===== src/Port/Threads/Occupancy/Kept.antt =====
-- Each step of a thread of the port of Eilat keeps the vessels and the cranes in order.
use software_development_pla.Common.{
  ℕ, ◌+◌, ◌<◌, ◌≡◌, ◌≢◌, ◌⊎◌, refl, sym, ap, subst, ◌∙◌, inl, inr, true, Option, none, some, arith,
  update, Bool-cases, ==_iff, ◌==◌, if◌then◌else◌, ltb,
}
use software_development_pla.Port.Quay.{
  done, fault, enter_to_barrier, pass_barrier, find_crane, settle, enter_unloading_quay,
  wait_for_vessel, finish_unloading, wait_for_crane, leave_quay,
}
use software_development_pla.Port.Quay.Cranes.{find_crane_lem}
use software_development_pla.Port.Threads.{
  Place, arriving, at_barrier, released, at_crane, let_go, away, Yard, Moved, waits, moved,
  after_section, put_vessel, put_crane, settled_at, vessel_step, crane_step, vessels_per_crane,
}
use software_development_pla.Port.Threads.Kept.{
  enter_to_barrier-KeepsCranes, pass_barrier-KeepsCranes, leave_quay-KeepsCranes,
}
use software_development_pla.Port.Threads.Occupancy.{
  Phase, free, finished, leaving, waiting_at, in_of, waits_at, leaves_from, Orderly,
}
use software_development_pla.Port.Threads.Occupancy.Steps.{
  after_section-moved, unseen-Orderly, settle-Orderly, id_none, in_up, out_up, is_busy, goes,
}
use software_development_pla.Port.Threads.Occupancy.Service.{
  take_call-Orderly, finish-Orderly, let_go-Orderly, leave-Orderly,
}

-- Wherever the step leads, the vessels and the cranes are in order.
abbrev pub Keeps : Moved → Type 0
Keeps o = (y' : Yard) → o ≡ moved y' → (phase : ℕ → Phase) × Orderly phase y'

module _ (phase : ℕ → Phase) (y : Yard) (ok : Orderly phase y) where
  -- The phase of the crane that tells a vessel to go.
  told :
      (v c : ℕ)
      → y.vessels v ≡ at_crane c
      → y.port.cranes_out_semaphores c ≢ 0
      → phase c ≡ finished v
  told v c here up =
      let (w, was) = out_up (phase c) (λ e. up (ok.outs c ∙ e)) in
      let mine : waiting_at (phase c) ≡ some v = (ok.waiting c v).1 (ap waits_at here) in
      let same : w ≡ v = cc (ap waiting_at was, mine) in was ∙ ap finished same

  arrive-Keeps :
      (v : ℕ)
      → y.vessels v ≡ arriving
      → Keeps (
          after_section (enter_to_barrier y.port) (put_vessel v (at_barrier y.port.barrier_size) y))
  arrive-Keeps v here y' e =
      let (s, d, same) = after_section-moved _ _ y' e in
      subst (λ x. (phase : ℕ → Phase) × Orderly phase x) same
        (
          phase,
          unseen-Orderly phase y v _ s ok (enter_to_barrier-KeepsCranes y.port s d)
              (sym (ap waits_at here)) (sym (ap leaves_from here)),
        )

  pass-Keeps :
      (v ticket : ℕ)
      → y.vessels v ≡ at_barrier ticket
      → Keeps (after_section (pass_barrier ticket y.port) (put_vessel v released y))
  pass-Keeps v ticket here y' e =
      let (s, d, same) = after_section-moved _ _ y' e in
      subst (λ x. (phase : ℕ → Phase) × Orderly phase x) same
        (
          phase,
          unseen-Orderly phase y v released s ok (pass_barrier-KeepsCranes ticket y.port s d)
              (sym (ap waits_at here)) (sym (ap leaves_from here)),
        )

  -- A vessel that enters finds no crane, or takes a free one.
  pub enters :
      (v draw : ℕ)
      → (enter_unloading_quay v draw y.port ≡ fault)
        ⊎ ((c : ℕ) × (find_crane y.port.cranes_vessel_ids 0 y.port.num_of_cranes ≡ some c)
            × (c < y.port.num_of_cranes)
            × (y.port.cranes_vessel_ids c ≡ none)
            × (enter_unloading_quay v draw y.port ≡ done (settle v draw c y.port)))
  unfolding enter_unloading_quay
  enters v draw = elim (find_crane_lem y.port.cranes_vessel_ids 0 y.port.num_of_cranes) [
    | inl q ↦ inl (rw (enter_unloading_quay, q.0) refl)
    | inr q ↦
        let (c, found, _, below, nobody, first) = q in
        let was : phase c ≡ free = id_none (phase c) (sym (ok.ids c) ∙ nobody) in
        let down : (y.port.cranes_in_semaphores c == 0) ≡ true =
          (==_iff _ 0).1 (ok.ins c ∙ ap in_of was) in
        inr (c, found, omega (arith, below), nobody, rw (enter_unloading_quay, found, down) refl)
  ]

  enter-Keeps :
      (v draw : ℕ)
      → y.vessels v ≡ released
      → Keeps (
          after_section (enter_unloading_quay v draw y.port) (
            put_vessel v
              (settled_at (find_crane y.port.cranes_vessel_ids 0 y.port.num_of_cranes))
              y))
  unfolding after_section
  enter-Keeps v draw here y' e = elim (enters v draw) [
    | inl lost ↦ absurd (cc (rw (lost) at e))
    | inr q ↦
        let (c, found, below, nobody, entered) = q in
        let same : put_vessel v (at_crane c) y (settle v draw c y.port) ≡ y' =
          cc (rw (entered, found) at e) in
        subst (λ x. (phase : ℕ → Phase) × Orderly phase x) same
          (_, settle-Orderly phase y v draw c ok here nobody below)
  ]

  told-Keeps :
      (v c : ℕ)
      → y.vessels v ≡ at_crane c
      → Keeps (after_section (wait_for_crane c y.port) (put_vessel v (let_go c) y))
  unfolding wait_for_crane after_section
  told-Keeps v c here y' e = elim (Bool-cases (y.port.cranes_out_semaphores c == 0)) [
    | inl down ↦ absurd (cc (rw (down) at e))
    | inr up ↦
        let was = told v c here (λ z. cc (up, (==_iff _ 0).1 z)) in
        let next : Yard =
          put_vessel v (let_go c) y
            (record (y.port) { cranes_out_semaphores = update y.port.cranes_out_semaphores c 0 }) in
        let same : next ≡ y' = cc (rw (up) at e) in
        subst (λ x. (phase : ℕ → Phase) × Orderly phase x) same
          (_, let_go-Orderly phase y v c ok here was)
  ]

  leave-Keeps :
      (v c : ℕ)
      → y.vessels v ≡ let_go c
      → Keeps (after_section (leave_quay c y.port) (put_vessel v away y))
  leave-Keeps v c here y' e =
      let (s, d, same) = after_section-moved _ _ y' e in
      let was : phase c ≡ leaving v = goes (phase c) v ((ok.going c v).1 (ap leaves_from here)) in
      subst (λ x. (phase : ℕ → Phase) × Orderly phase x) same
        (_, leave-Orderly phase y v c s ok here was (leave_quay-KeepsCranes c y.port s d))

  pub vessel_step-Keeps : (v draw : ℕ) → Keeps (vessel_step v draw y)
  unfolding vessel_step
  vessel_step-Keeps v draw = go (y.vessels v) refl
    where
      go :
          (p : Place)
          → y.vessels v ≡ p
          → Keeps (elim p [
            | arriving ↦
                after_section
                  (enter_to_barrier y.port)
                  (put_vessel v (at_barrier y.port.barrier_size) y)
            | at_barrier ticket ↦
                after_section (pass_barrier ticket y.port) (put_vessel v released y)
            | released ↦ after_section (enter_unloading_quay v draw y.port) (
                put_vessel v
                  (settled_at (find_crane y.port.cranes_vessel_ids 0 y.port.num_of_cranes))
                  y)
            | at_crane c ↦ after_section (wait_for_crane c y.port) (put_vessel v (let_go c) y)
            | let_go c ↦ after_section (leave_quay c y.port) (put_vessel v away y)
            | away ↦ waits
          ])
      go arriving here = arrive-Keeps v here
      go (at_barrier ticket) here = pass-Keeps v ticket here
      go released here = enter-Keeps v draw here
      go (at_crane c) here = told-Keeps v c here
      go (let_go c) here = leave-Keeps v c here
      go away here = λ y' e. absurd (cc e)

  -- The two steps of a crane.
  idle-Keeps :
      (c : ℕ)
      → Keeps (
          if ltb (y.cranes c).served (vessels_per_crane y.port)
          then after_section
              (wait_for_vessel c y.port)
              (put_crane c (record (y.cranes c) { busy = y.port.cranes_vessel_ids c }) y)
          else waits)
  unfolding wait_for_vessel after_section
  idle-Keeps c y' e = elim (Bool-cases (ltb (y.cranes c).served (vessels_per_crane y.port))) [
    | inr over ↦ absurd (cc (rw (over) at e))
    | inl more ↦ elim (Bool-cases (y.port.cranes_in_semaphores c == 0)) [
      | inl down ↦ absurd (cc (rw (more, down) at e))
      | inr up ↦
          let (v, was) = in_up (phase c) (λ z. cc (up, (==_iff _ 0).1 (ok.ins c ∙ z))) in
          let next : Yard =
            put_crane c (record (y.cranes c) { busy = y.port.cranes_vessel_ids c }) y
              (record (y.port) { cranes_in_semaphores = update y.port.cranes_in_semaphores c 0 }) in
          let same : next ≡ y' = cc (rw (more, up) at e) in
          subst (λ x. (phase : ℕ → Phase) × Orderly phase x) same
            (_, take_call-Orderly phase y c v ok was)
    ]
  ]

  finish-Keeps :
      (c v : ℕ)
      → (y.cranes c).busy ≡ some v
      → Keeps (
          after_section
            (finish_unloading c y.port)
            (put_crane c (record { served = (y.cranes c).served + 1; busy = none }) y))
  unfolding finish_unloading after_section
  finish-Keeps c v works y' e = elim (Bool-cases (y.port.cranes_out_semaphores c == 0)) [
    | inr up ↦ absurd (cc (rw (up) at e))
    | inl down ↦
        let was = is_busy (phase c) v (sym (ok.busy c) ∙ works) in
        let next : Yard =
          put_crane c (record { served = (y.cranes c).served + 1; busy = none }) y
            (record (y.port) { cranes_out_semaphores = update y.port.cranes_out_semaphores c 1 }) in
        let same : next ≡ y' = cc (rw (down) at e) in
        subst (λ x. (phase : ℕ → Phase) × Orderly phase x) same
          (_, finish-Orderly phase y c v ok was)
  ]

  pub crane_step-Keeps : (c : ℕ) → Keeps (crane_step c y)
  unfolding crane_step
  crane_step-Keeps c = go (y.cranes c).busy refl
    where
      go :
          (b : Option ℕ)
          → (y.cranes c).busy ≡ b
          → Keeps (elim b [
            | none ↦
                if ltb (y.cranes c).served (vessels_per_crane y.port)
                then after_section
                    (wait_for_vessel c y.port)
                    (put_crane c (record (y.cranes c) { busy = y.port.cranes_vessel_ids c }) y)
                else waits
            | some _ ↦
                after_section
                  (finish_unloading c y.port)
                  (put_crane c (record { served = (y.cranes c).served + 1; busy = none }) y)
          ])
      go none e = idle-Keeps c
      go (some v) e = finish-Keeps c v e
