-- ===== src/Port/Threads/Occupancy/Service.antt =====
-- The service of a vessel at a crane of the port of Eilat, step by step.
use software_development_pla.Common.{
  ℕ, ◌+◌, ◌-◌, ◌<◌, ◌≡◌, refl, sym, ap, subst, ◌∙◌, none, arith, update, weigh-update,
}
use software_development_pla.Port.Quay.{Port}
use software_development_pla.Port.Quay.Cranes.{occupied}
use software_development_pla.Port.Threads.{
  at_crane, let_go, away, CraneThread, Yard, put_vessel, put_crane,
}
use software_development_pla.Port.Threads.Kept.{KeepsCranes}
use software_development_pla.Port.Threads.Occupancy.{
  Phase, free, called, working, finished, leaving, id_of, in_of, out_of, busy_of, waiting_at,
  leaving_from, waits_at, leaves_from, Orderly, set-Reads, keep-Reads, same_view, Tracks-cong,
  take-view, give-view, keep-view, set-within,
}

-- Crane `c` takes the call of its vessel.
pub take_call-Orderly :
    (phase : ℕ → Phase) (y : Yard) (c v : ℕ)
    → Orderly phase y
    → phase c ≡ called v
    → Orderly (update phase c (working v)) (
        put_crane c
          (record (y.cranes c) { busy = y.port.cranes_vessel_ids c })
          y
          (record (y.port) { cranes_in_semaphores = update y.port.cranes_in_semaphores c 0 }))
take_call-Orderly phase y c v ok was = record {
  ids = keep-Reads id_of phase y.port.cranes_vessel_ids c (working v) ok.ids (sym (ap id_of was));
  ins = set-Reads in_of (λ o. o) phase y.port.cranes_in_semaphores c (working v) 0 ok.ins refl;
  outs =
      keep-Reads out_of phase y.port.cranes_out_semaphores c (working v) ok.outs
        (sym (ap out_of was));
  busy =
      set-Reads busy_of (λ (t : CraneThread). t.busy) phase y.cranes c (working v) _ ok.busy
        (ok.ids c ∙ ap id_of was);
  waiting =
      Tracks-cong (same_view waiting_at phase c (working v) (sym (ap waiting_at was))) (λ m. refl)
        ok.waiting;
  going =
      Tracks-cong (same_view leaving_from phase c (working v) (sym (ap leaving_from was)))
        (λ m. refl) ok.going;
  within =
      set-within phase y.port.num_of_cranes c (working v) ok.within
        (λ w h. ok.within c v (ap id_of was));
  counted = ok.counted;
}

-- Crane `c` has unloaded its vessel.
pub finish-Orderly :
    (phase : ℕ → Phase) (y : Yard) (c v : ℕ)
    → Orderly phase y
    → phase c ≡ working v
    → Orderly (update phase c (finished v)) (
        put_crane c
          (record { served = (y.cranes c).served + 1; busy = none })
          y
          (record (y.port) { cranes_out_semaphores = update y.port.cranes_out_semaphores c 1 }))
finish-Orderly phase y c v ok was = record {
  ids = keep-Reads id_of phase y.port.cranes_vessel_ids c (finished v) ok.ids (sym (ap id_of was));
  ins =
      keep-Reads in_of phase y.port.cranes_in_semaphores c (finished v) ok.ins (sym (ap in_of was));
  outs = set-Reads out_of (λ o. o) phase y.port.cranes_out_semaphores c (finished v) 1 ok.outs refl;
  busy =
      set-Reads busy_of (λ (t : CraneThread). t.busy) phase y.cranes c (finished v) _ ok.busy refl;
  waiting =
      Tracks-cong (same_view waiting_at phase c (finished v) (sym (ap waiting_at was))) (λ m. refl)
        ok.waiting;
  going =
      Tracks-cong (same_view leaving_from phase c (finished v) (sym (ap leaving_from was)))
        (λ m. refl) ok.going;
  within =
      set-within phase y.port.num_of_cranes c (finished v) ok.within
        (λ w h. ok.within c v (ap id_of was));
  counted = ok.counted;
}

-- The vessel learns that crane `c` has let it go.
pub let_go-Orderly :
    (phase : ℕ → Phase) (y : Yard) (v c : ℕ)
    → Orderly phase y
    → y.vessels v ≡ at_crane c
    → phase c ≡ finished v
    → Orderly (update phase c (leaving v)) (
        put_vessel v
          (let_go c)
          y
          (record (y.port) { cranes_out_semaphores = update y.port.cranes_out_semaphores c 0 }))
let_go-Orderly phase y v c ok here was = record {
  ids = keep-Reads id_of phase y.port.cranes_vessel_ids c (leaving v) ok.ids (sym (ap id_of was));
  ins =
      keep-Reads in_of phase y.port.cranes_in_semaphores c (leaving v) ok.ins (sym (ap in_of was));
  outs = set-Reads out_of (λ o. o) phase y.port.cranes_out_semaphores c (leaving v) 0 ok.outs refl;
  busy =
      keep-Reads busy_of phase (λ e. (y.cranes e).busy) c (leaving v) ok.busy
        (sym (ap busy_of was));
  waiting =
      give-view waiting_at waits_at phase y.vessels c v (leaving v) (let_go c) ok.waiting
        (ap waits_at here) refl refl;
  going =
      take-view leaving_from leaves_from phase y.vessels c v (leaving v) (let_go c) ok.going
        (ap leaving_from was) (ap leaves_from here) refl refl;
  within =
      set-within phase y.port.num_of_cranes c (leaving v) ok.within
        (λ w h. ok.within c v (ap id_of was));
  counted = ok.counted;
}

-- The vessel leaves crane `c`.
pub leave-Orderly :
    (phase : ℕ → Phase) (y : Yard) (v c : ℕ) (s : Port)
    → Orderly phase y
    → y.vessels v ≡ let_go c
    → phase c ≡ leaving v
    → KeepsCranes
        (record (y.port) {
          cranes_vessel_ids = update y.port.cranes_vessel_ids c none;
          cranes_with_vessels = y.port.cranes_with_vessels - 1;
        })
        s
    → Orderly (update phase c free) (put_vessel v away y s)
leave-Orderly phase y v c s ok here was kept = record {
  ids = λ e.
      ap (λ f. f e) kept.ids
      ∙ set-Reads id_of (λ o. o) phase y.port.cranes_vessel_ids c free none ok.ids refl e;
  ins = λ e.
      ap (λ f. f e) kept.ins
      ∙ keep-Reads in_of phase y.port.cranes_in_semaphores c free ok.ins (sym (ap in_of was)) e;
  outs = λ e.
      ap (λ f. f e) kept.outs
      ∙ keep-Reads out_of phase y.port.cranes_out_semaphores c free ok.outs (sym (ap out_of was)) e;
  busy = keep-Reads busy_of phase (λ e. (y.cranes e).busy) c free ok.busy (sym (ap busy_of was));
  waiting =
      keep-view waiting_at waits_at phase y.vessels c v free away ok.waiting
        (sym (ap waiting_at was)) (sym (ap waits_at here));
  going =
      give-view leaving_from leaves_from phase y.vessels c v free away ok.going
        (ap leaves_from here) refl refl;
  within = λ e w h.
      subst (λ n. e < n) (sym kept.num_of_cranes)
        (set-within phase y.port.num_of_cranes c free ok.within (λ w h. absurd (cc h)) e w h);
  counted =
      rw (kept.count, kept.ids, kept.num_of_cranes)
        (omega (
          arith,
          ok.counted,
          ap occupied (ok.ids c ∙ ap id_of was),
          weigh-update occupied y.port.cranes_vessel_ids y.port.num_of_cranes c none
              (ok.within c v (ap id_of was)),
        ));
}
