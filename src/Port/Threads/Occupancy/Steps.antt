-- ===== src/Port/Threads/Occupancy/Steps.antt =====
-- The moves of the vessels of the port of Eilat up to a crane, and what the semaphores of a crane tell.
use software_development_pla.Common.{
  ℕ, ◌<◌, ◌≡◌, ◌≢◌, refl, sym, ap, subst, ◌∙◌, none, some, arith, update, weigh-update,
}
use software_development_pla.Port.Quay.{Port, Section, blocked, done, failed, fault, settle}
use software_development_pla.Port.Quay.Cranes.{occupied}
use software_development_pla.Port.Threads.{
  Place, released, at_crane, Yard, moved, after_section, put_vessel,
}
use software_development_pla.Port.Threads.Kept.{KeepsCranes}
use software_development_pla.Port.Threads.Occupancy.{
  Phase, free, called, working, finished, leaving, id_of, in_of, out_of, busy_of, waiting_at,
  leaving_from, waits_at, leaves_from, Orderly, set-Reads, keep-Reads, same_view, Tracks-cong,
  take-view, keep-view, set-within,
}

pub after_section-moved :
    (o : Section) (next : Port → Yard) (y' : Yard)
    → after_section o next ≡ moved y'
    → (s : Port) × (o ≡ done s) × (next s ≡ y')
unfolding after_section
after_section-moved blocked next y' e = absurd (cc e)
after_section-moved (done s) next y' e = (s, refl, cc e)
after_section-moved failed next y' e = absurd (cc e)
after_section-moved fault next y' e = absurd (cc e)

-- A vessel moves where no crane sees it.
pub unseen-Orderly :
    (phase : ℕ → Phase) (y : Yard) (v : ℕ) (p : Place) (s : Port)
    → Orderly phase y
    → KeepsCranes y.port s
    → waits_at p ≡ waits_at (y.vessels v)
    → leaves_from p ≡ leaves_from (y.vessels v)
    → Orderly phase (put_vessel v p y s)
unseen-Orderly phase y v p s ok kept same_wait same_go = record {
  ids = λ e. ap (λ f. f e) kept.ids ∙ ok.ids e;
  ins = λ e. ap (λ f. f e) kept.ins ∙ ok.ins e;
  outs = λ e. ap (λ f. f e) kept.outs ∙ ok.outs e;
  busy = ok.busy;
  waiting = Tracks-cong (λ n. refl) (same_view waits_at y.vessels v p same_wait) ok.waiting;
  going = Tracks-cong (λ n. refl) (same_view leaves_from y.vessels v p same_go) ok.going;
  within = λ e w h. subst (λ n. e < n) (sym kept.num_of_cranes) (ok.within e w h);
  counted = rw (kept.count, kept.ids, kept.num_of_cranes) ok.counted;
}

pub id_none : (p : Phase) → id_of p ≡ none → p ≡ free
id_none free e = refl
id_none (called v) e = absurd (cc e)
id_none (working v) e = absurd (cc e)
id_none (finished v) e = absurd (cc e)
id_none (leaving v) e = absurd (cc e)

-- A vessel comes to the free crane `c`.
pub settle-Orderly :
    (phase : ℕ → Phase) (y : Yard) (v draw c : ℕ)
    → Orderly phase y
    → y.vessels v ≡ released
    → y.port.cranes_vessel_ids c ≡ none
    → c < y.port.num_of_cranes
    → Orderly (update phase c (called v)) (put_vessel v (at_crane c) y (settle v draw c y.port))
settle-Orderly phase y v draw c ok here nobody below =
    let was_free : phase c ≡ free = id_none (phase c) (sym (ok.ids c) ∙ nobody) in
    record {
      ids =
          set-Reads id_of (λ o. o) phase y.port.cranes_vessel_ids c (called v) (some v) ok.ids refl;
      ins = set-Reads in_of (λ o. o) phase y.port.cranes_in_semaphores c (called v) 1 ok.ins refl;
      outs =
          keep-Reads out_of phase y.port.cranes_out_semaphores c (called v) ok.outs
            (sym (ap out_of was_free));
      busy =
          keep-Reads busy_of phase (λ e. (y.cranes e).busy) c (called v) ok.busy
            (sym (ap busy_of was_free));
      waiting =
          take-view waiting_at waits_at phase y.vessels c v (called v) (at_crane c) ok.waiting
            (ap waiting_at was_free) (ap waits_at here) refl refl;
      going =
          keep-view leaving_from leaves_from phase y.vessels c v (called v) (at_crane c) ok.going
            (sym (ap leaving_from was_free)) (sym (ap leaves_from here));
      within = set-within phase y.port.num_of_cranes c (called v) ok.within (λ _ _. below);
      counted = omega (
        arith,
        ok.counted,
        ap occupied nobody,
        weigh-update occupied y.port.cranes_vessel_ids y.port.num_of_cranes c (some v) below,
      );
    }

-- The semaphores of a crane tell its phase.
pub in_up : (p : Phase) → in_of p ≢ 0 → (v : ℕ) × (p ≡ called v)
in_up (called v) up = (v, refl)
in_up free up = absurd (up refl)
in_up (working v) up = absurd (up refl)
in_up (finished v) up = absurd (up refl)
in_up (leaving v) up = absurd (up refl)

pub out_up : (p : Phase) → out_of p ≢ 0 → (v : ℕ) × (p ≡ finished v)
out_up (finished v) up = (v, refl)
out_up free up = absurd (up refl)
out_up (working v) up = absurd (up refl)
out_up (called v) up = absurd (up refl)
out_up (leaving v) up = absurd (up refl)

pub is_busy : (p : Phase) (v : ℕ) → busy_of p ≡ some v → p ≡ working v
is_busy (working w) v e = ap working (cc e)
is_busy free v e = absurd (cc e)
is_busy (called w) v e = absurd (cc e)
is_busy (finished w) v e = absurd (cc e)
is_busy (leaving w) v e = absurd (cc e)

pub goes : (p : Phase) (v : ℕ) → leaving_from p ≡ some v → p ≡ leaving v
goes (leaving w) v e = ap leaving (cc e)
goes free v e = absurd (cc e)
goes (called w) v e = absurd (cc e)
goes (finished w) v e = absurd (cc e)
goes (working w) v e = absurd (cc e)
