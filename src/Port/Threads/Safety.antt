-- ===== src/Port/Threads/Safety.antt =====
-- The quay of the port of Eilat in every run of its threads.
use software_development_pla.Common.{
  ℕ, ◌<◌, ◌≡◌, ◌≢◌, ◌⊎◌, refl, sym, ap, ◌∙◌, inl, inr, Bool, true, false, Option, none, some,
  Bool-cases, ◌==◌, if◌then◌else◌, ltb, ◌+◌,
}
use software_development_pla.Port.Quay.{
  Port, Section, blocked, done, failed, fault, wait_for_vessel, finish_unloading,
}
use software_development_pla.Port.Quay.Cranes.{IsCounted}
use software_development_pla.Port.Threads.{
  Place, released, at_crane, let_go, Yard, Moved, waits, gave_up, out_of_bounds, after_section,
  put_crane, vessel_step, crane_step, vessels_per_crane, Reached,
}
use software_development_pla.Port.Threads.Occupancy.{
  Phase, working, out_of, id_of, waiting_at, leaving_from, waits_at, leaves_from, Orderly,
}
use software_development_pla.Port.Threads.Occupancy.Steps.{is_busy}
use software_development_pla.Port.Threads.Runs.{reached-Orderly}
use software_development_pla.Port.Threads.Occupancy.Kept.{enters}

-- The vessel has settled down at the crane and has not left it.
abbrev pub IsAt : ℕ → ℕ → Yard → Type 0
IsAt v c y = (y.vessels v ≡ at_crane c) ⊎ (y.vessels v ≡ let_go c)

waiting-id : (p : Phase) (v : ℕ) → waiting_at p ≡ some v → id_of p ≡ some v
waiting-id Phase.free v e = absurd (cc e)
waiting-id (Phase.called w) v e = e
waiting-id (working w) v e = e
waiting-id (Phase.finished w) v e = e
waiting-id (Phase.leaving w) v e = absurd (cc e)

leaving-id : (p : Phase) (v : ℕ) → leaving_from p ≡ some v → id_of p ≡ some v
leaving-id Phase.free v e = absurd (cc e)
leaving-id (Phase.called w) v e = absurd (cc e)
leaving-id (working w) v e = absurd (cc e)
leaving-id (Phase.finished w) v e = absurd (cc e)
leaving-id (Phase.leaving w) v e = e

IsAt-id :
    (phase : ℕ → Phase) (y : Yard) (v c : ℕ)
    → Orderly phase y
    → IsAt v c y
    → id_of (phase c) ≡ some v
IsAt-id phase y v c ok (inl here) = waiting-id (phase c) v ((ok.waiting c v).1 (ap waits_at here))
IsAt-id phase y v c ok (inr here) = leaving-id (phase c) v ((ok.going c v).1 (ap leaves_from here))

-- In every run, a vessel that is at a crane is at one of the cranes, which lists it in `cranesVessleIDs`;
-- no other vessel is there, and `cranesWithVessels` counts the cranes that list a vessel.
pub crane-exclusion :
    (vessels cranes : ℕ) (y : Yard) (v w c : ℕ)
    → Reached vessels cranes y
    → IsAt v c y
    → IsAt w c y
    → (v ≡ w)
      × (c < y.port.num_of_cranes)
      × (y.port.cranes_vessel_ids c ≡ some v)
      × IsCounted y.port
crane-exclusion vessels cranes y v w c r here there =
    let (phase, ok) = reached-Orderly vessels cranes y r in
    let mine = IsAt-id phase y v c ok here in
    let other = IsAt-id phase y w c ok there in
    (cc (mine, other), ok.within c v mine, ok.ids c ∙ mine, ok.counted)

-- A section that neither fails nor writes out of bounds.
abbrev IsSafe : Section → Type 0
IsSafe o = (o ≢ failed) × (o ≢ fault)

abbrev IsSafeStep : Moved → Type 0
IsSafeStep o = (o ≢ gave_up) × (o ≢ out_of_bounds)

after_section-IsSafeStep :
    (o : Section) (next : Port → Yard) → IsSafe o → IsSafeStep (after_section o next)
unfolding after_section
after_section-IsSafeStep blocked next safe = (λ e. cc, λ e. cc)
after_section-IsSafeStep (done s) next safe = (λ e. cc, λ e. cc)
after_section-IsSafeStep failed next safe = absurd (safe.0 refl)
after_section-IsSafeStep fault next safe = absurd (safe.1 refl)

if-IsSafeStep : (b : Bool) (o : Moved) → IsSafeStep o → IsSafeStep (if b then o else waits)
if-IsSafeStep true o safe = safe
if-IsSafeStep false o safe = (λ e. cc, λ e. cc)

wait_for_vessel-IsSafe : (c : ℕ) (s : Port) → IsSafe (wait_for_vessel c s)
unfolding wait_for_vessel
wait_for_vessel-IsSafe c s = elim (Bool-cases (s.cranes_in_semaphores c == 0)) [
  | inl e ↦ rw (e) ((λ f. cc), (λ f. cc))
  | inr e ↦ rw (e) ((λ f. cc), (λ f. cc))
]

finish_unloading-IsSafe :
    (c : ℕ) (s : Port) → s.cranes_out_semaphores c ≡ 0 → IsSafe (finish_unloading c s)
unfolding finish_unloading
finish_unloading-IsSafe c s down = rw (down) ((λ f. cc), (λ f. cc))

crane_step-IsSafeStep :
    (phase : ℕ → Phase) (y : Yard) (c : ℕ) → Orderly phase y → IsSafeStep (crane_step c y)
unfolding crane_step
crane_step-IsSafeStep phase y c ok = go (y.cranes c).busy refl
  where
    go :
        (b : Option ℕ)
        → (y.cranes c).busy ≡ b
        → IsSafeStep (elim b [
          | none ↦
              if ltb (y.cranes c).served (vessels_per_crane y.port)
              then after_section
                  (wait_for_vessel c y.port)
                  (put_crane c (record (y.cranes c) { busy = y.port.cranes_vessel_ids c }) y)
              else waits
          | some _ ↦
              after_section
                (finish_unloading c y.port)
                (put_crane c (record { served = (y.cranes c).served + 1; busy = none }) y)
        ])
    go none e = if-IsSafeStep _ _ (after_section-IsSafeStep _ _ (wait_for_vessel-IsSafe c y.port))
    go (some v) e =
        let was = is_busy (phase c) v (sym (ok.busy c) ∙ e) in
        after_section-IsSafeStep _ _ (finish_unloading-IsSafe c y.port (ok.outs c ∙ ap out_of was))

after_section-ne : (o : Section) (next : Port → Yard) → o ≢ failed → after_section o next ≢ gave_up
unfolding after_section
after_section-ne blocked next safe e = cc
after_section-ne (done s) next safe e = cc
after_section-ne failed next safe e = absurd (safe refl)
after_section-ne fault next safe e = cc

waits_at-some : (p : Place) (c : ℕ) → waits_at p ≡ some c → p ≡ at_crane c
waits_at-some (at_crane d) c e = ap at_crane (cc e)
waits_at-some Place.arriving c e = absurd (cc e)
waits_at-some (Place.at_barrier t) c e = absurd (cc e)
waits_at-some released c e = absurd (cc e)
waits_at-some (let_go d) c e = absurd (cc e)
waits_at-some Place.away c e = absurd (cc e)

at_its_crane :
    (phase : ℕ → Phase) (y : Yard) (v c : ℕ)
    → Orderly phase y
    → (y.cranes c).busy ≡ some v
    → y.vessels v ≡ at_crane c
at_its_crane phase y v c ok works =
    let was = is_busy (phase c) v (sym (ok.busy c) ∙ works) in
    waits_at-some (y.vessels v) c ((ok.waiting c v).0 (ap waiting_at was))

-- In every run in which no crane comes to its first wait before its semaphores are created, no crane ends
-- in an error: it takes its next step, or waits for a vessel, and the vessel that it unloads is the one
-- that waits there. Nor does a vessel give up that comes to the quay: the
-- semaphore of the crane that it gets was not up.
pub quay_threads-safe :
    (vessels cranes : ℕ) (y : Yard)
    → Reached vessels cranes y
    → ((c : ℕ)
        → (crane_step c y ≢ gave_up)
          × (crane_step c y ≢ out_of_bounds)
          × ((v : ℕ) → (y.cranes c).busy ≡ some v → y.vessels v ≡ at_crane c))
      × ((v draw : ℕ) → y.vessels v ≡ released → vessel_step v draw y ≢ gave_up)
unfolding vessel_step
quay_threads-safe vessels cranes y r =
    let (phase, ok) = reached-Orderly vessels cranes y r in
    (
      (λ c.
          let safe = crane_step-IsSafeStep phase y c ok in
          (safe.0, safe.1, λ v works. at_its_crane phase y v c ok works)),
      (λ v draw here. elim (enters phase y ok v draw) [
        | inl lost ↦ rw (vessel_step, here, lost) (after_section-ne fault _ (λ e. cc))
        | inr q ↦ rw (vessel_step, here, q.4) (after_section-ne _ _ (λ e. cc))
      ]),
    )
