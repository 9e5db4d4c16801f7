-- ===== src/Port/Threads/Starvation.antt =====
-- A vessel of the port of Eilat that comes to a crane whose thread has ended.
pub mod Cranes
pub mod Forever
use software_development_pla.Common.{
  ℕ, ◌+◌, ◌≡◌, ◌≢◌, refl, sym, ap, ap, subst, ◌∙◌, inl, inr, false, Option, none, some, update,
  update-ne, Bool-cases, ==_iff, ◌==◌, if◌then◌else◌, ltb,
}
use software_development_pla.Port.Quay.{
  Port, done, failed, fault, enter_to_barrier, pass_barrier, find_crane, settle,
  enter_unloading_quay, wait_for_vessel, finish_unloading, wait_for_crane, leave_quay,
}
use software_development_pla.Port.Threads.{
  Place, arriving, at_barrier, released, at_crane, let_go, away, CraneThread, Yard, waits, moved,
  after_section, put_vessel, put_crane, settled_at, vessel_step, crane_step, vessels_per_crane,
}
use software_development_pla.Port.Threads.Kept.{
  KeepsCranes, enter_to_barrier-KeepsCranes, pass_barrier-KeepsCranes, leave_quay-KeepsCranes,
}
use software_development_pla.Port.Threads.Occupancy.Steps.{after_section-moved}

-- The vessel waits at a crane whose thread has served its share and has not let the vessel go.
pub record IsStuck (v c : ℕ) (y : Yard) : Type 0 where
  pub here : y.vessels v ≡ at_crane c
  pub ended : ltb (y.cranes c).served (vessels_per_crane y.port) ≡ false
  pub idle : (y.cranes c).busy ≡ none
  pub down : y.port.cranes_out_semaphores c ≡ 0

-- Any number of steps of any threads.
pub data Later (y : Yard) : Yard → Type 0 where
  now : Later y y
  vessel_moves :
      (w draw : ℕ) (y1 y2 : Yard) → Later y y1 → vessel_step w draw y1 ≡ moved y2 → Later y y2
  crane_moves : (d : ℕ) (y1 y2 : Yard) → Later y y1 → crane_step d y1 ≡ moved y2 → Later y y2

at_crane-injective : {c d : ℕ} → at_crane c ≡ at_crane d → c ≡ d
at_crane-injective e = cc e

module _ (v c : ℕ) (y : Yard) (stuck : IsStuck v c y) where
  -- Another vessel moves, and the crane's semaphore stays down.
  other-IsStuck :
      (w : ℕ) (p : Place) (s : Port)
      → w ≢ v
      → s.cranes_out_semaphores c ≡ 0
      → vessels_per_crane s ≡ vessels_per_crane y.port
      → IsStuck v c (put_vessel w p y s)
  other-IsStuck w p s ne still same = record {
    here = update-ne y.vessels w p v ne ∙ stuck.here;
    ended = rw (same) stuck.ended;
    idle = stuck.idle;
    down = still;
  }

  kept-IsStuck :
      (w : ℕ) (p : Place) (s base : Port)
      → w ≢ v
      → KeepsCranes base s
      → base.cranes_out_semaphores ≡ y.port.cranes_out_semaphores
      → vessels_per_crane base ≡ vessels_per_crane y.port
      → IsStuck v c (put_vessel w p y s)
  kept-IsStuck w p s base ne kept outs same =
      other-IsStuck w p s ne (ap (λ f. f c) (kept.outs ∙ outs) ∙ stuck.down)
        (rw (kept.num_of_vessels, kept.num_of_cranes) same)

  -- The place of the moving vessel is another than that of `v`.
  elsewhere : (w : ℕ) (p : Place) → y.vessels w ≡ p → p ≢ at_crane c → w ≢ v
  elsewhere w p there ne same = ne (sym there ∙ ap y.vessels same ∙ stuck.here)

  enter-IsStuck :
      (w draw : ℕ) (y' : Yard)
      → w ≢ v
      → after_section
          (enter_unloading_quay w draw y.port)
          (put_vessel w (settled_at (find_crane y.port.cranes_vessel_ids 0 y.port.num_of_cranes)) y)
        ≡ moved y'
      → IsStuck v c y'
  unfolding enter_unloading_quay
  enter-IsStuck w draw y' ne e =
      let (s, d, same) = after_section-moved _ _ y' e in
      let (crane, settled) =
        entered (find_crane y.port.cranes_vessel_ids 0 y.port.num_of_cranes) s d in
      subst (IsStuck v c) same (
        subst
          (λ x. IsStuck v c (
            put_vessel w (settled_at (find_crane y.port.cranes_vessel_ids 0 y.port.num_of_cranes)) y
              x))
          settled (other-IsStuck w _ (settle w draw crane y.port) ne stuck.down refl))
    where
      entered :
          (o : Option ℕ) (s : Port)
          → (elim o [
            | none ↦ fault
            | some k ↦
                if y.port.cranes_in_semaphores k == 0 then done (settle w draw k y.port) else failed
          ])
            ≡ done s
          → (k : ℕ) × (settle w draw k y.port ≡ s)
      entered none s d = absurd (cc d)
      entered (some k) s d = elim (Bool-cases (y.port.cranes_in_semaphores k == 0)) [
        | inl down ↦ (k, cc (rw (down) at d))
        | inr up ↦ absurd (cc (rw (up) at d))
      ]

  told-IsStuck :
      (w d : ℕ) (y' : Yard)
      → y.vessels w ≡ at_crane d
      → after_section (wait_for_crane d y.port) (put_vessel w (let_go d) y) ≡ moved y'
      → IsStuck v c y'
  unfolding wait_for_crane after_section
  told-IsStuck w d y' there e = elim (Bool-cases (y.port.cranes_out_semaphores d == 0)) [
    | inl down ↦ absurd (cc (rw (down) at e))
    | inr up ↦
        let next : Yard =
          put_vessel w (let_go d) y
            (record (y.port) { cranes_out_semaphores = update y.port.cranes_out_semaphores d 0 }) in
        let same : next ≡ y' = cc (rw (up) at e) in
        let elsewhere_d : d ≢ c =
          λ f. cc (up, (==_iff _ 0).1 (ap y.port.cranes_out_semaphores f ∙ stuck.down)) in
        let other : w ≢ v =
          λ f. elsewhere_d (at_crane-injective (sym there ∙ ap y.vessels f ∙ stuck.here)) in
        subst (IsStuck v c) same (
          other-IsStuck w (let_go d) _ other
            (update-ne y.port.cranes_out_semaphores d 0 c elsewhere_d ∙ stuck.down) refl)
  ]

  pub vessel_step-IsStuck :
      (w draw : ℕ) (y' : Yard) → vessel_step w draw y ≡ moved y' → IsStuck v c y'
  unfolding vessel_step
  vessel_step-IsStuck w draw y' = go (y.vessels w) refl
    where
      go :
          (p : Place)
          → y.vessels w ≡ p
          → (elim p [
            | arriving ↦
                after_section
                  (enter_to_barrier y.port)
                  (put_vessel w (at_barrier y.port.barrier_size) y)
            | at_barrier ticket ↦
                after_section (pass_barrier ticket y.port) (put_vessel w released y)
            | released ↦ after_section (enter_unloading_quay w draw y.port) (
                put_vessel w
                  (settled_at (find_crane y.port.cranes_vessel_ids 0 y.port.num_of_cranes))
                  y)
            | at_crane d ↦ after_section (wait_for_crane d y.port) (put_vessel w (let_go d) y)
            | let_go d ↦ after_section (leave_quay d y.port) (put_vessel w away y)
            | away ↦ waits
          ])
            ≡ moved y'
          → IsStuck v c y'
      go arriving there e =
          let (s, d, same) = after_section-moved _ _ y' e in
          subst (IsStuck v c) same (
            kept-IsStuck w _ s y.port (elsewhere w arriving there (λ f. cc))
              (enter_to_barrier-KeepsCranes y.port s d) refl refl)
      go (at_barrier ticket) there e =
          let (s, d, same) = after_section-moved _ _ y' e in
          subst (IsStuck v c) same (
            kept-IsStuck w _ s y.port (elsewhere w (at_barrier ticket) there (λ f. cc))
              (pass_barrier-KeepsCranes ticket y.port s d) refl refl)
      go released there e = enter-IsStuck w draw y' (elsewhere w released there (λ f. cc)) e
      go (at_crane d) there e = told-IsStuck w d y' there e
      go (let_go d) there e =
          let (s, f, same) = after_section-moved _ _ y' e in
          subst (IsStuck v c) same (
            kept-IsStuck w _ s _ (elsewhere w (let_go d) there (λ g. cc))
              (leave_quay-KeepsCranes d y.port s f) refl refl)
      go away there e = absurd (cc e)
