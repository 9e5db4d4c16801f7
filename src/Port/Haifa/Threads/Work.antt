-- ===== src/Port/Haifa/Threads/Work.antt =====
-- The threads of HaifaPort.c come to an end.
use software_development_pla.Common.{
  ℕ, zero, suc, ◌+◌, ◌*◌, ◌<◌, ◌≤◌, ◌≡◌, refl, sym, ap, subst, ◌∙◌, inl, inr, true, Option, none,
  some, arith, ltb, ◌==◌, update, Bool-cases, ==_iff, weigh, weigh-update,
}
use software_development_pla.Port.Haifa.Threads.{
  Place, not_created, starting, crossing, sent, waiting, home, Leg, at_haifa, at_eilat, back,
  Harbour, vessel_step, create_thread, receive_vessel, Reached,
}
use software_development_pla.Port.Haifa.Threads.Order.{
  Fit, exists, is_back, Orderly, Fit-at, exists-eq-false,
}
use software_development_pla.Port.Haifa.Threads.Sails.{there_at}
use software_development_pla.Port.Haifa.Threads.Returns.{
  below, receive_vessel-arrival, reached-Orderly,
}
use software_development_pla.Port.Haifa.Threads.Progress.{
  Step, main_creates, vessel_sails, main_receives,
}

-- How many steps the thread of a vessel has taken, its creation included.
abbrev pub steps_at : Place → ℕ
steps_at not_created = 0
steps_at starting = 1
steps_at crossing = 2
steps_at sent = 3
steps_at waiting = 4
steps_at home = 5

-- The steps of the vessels, and the messages that main has read.
abbrev pub work : ℕ → Harbour → ℕ
work n h = weigh steps_at h.places n + weigh is_back h.legs n

same_work : (n k : ℕ) → {g h' : Harbour} → some g ≡ some h' → work n g ≡ k → work n h' ≡ k
same_work n k {g} {h'} e w = let same : g ≡ h' = cc e in subst (λ x. work n x ≡ k) same w

module _ (n v : ℕ) (h : Harbour) (o : Orderly n h) where
  within : (p : Place) → h.places v ≡ p → exists p ≡ true → v < n
  within p here e =
      let known : ltb v h.created ≡ true = sym (there_at n v h o p here) ∙ e in
      let early : v < h.created = ground arith in let c = o.created in omega arith

  vessel_step-works : (h' : Harbour) → vessel_step true v h ≡ some h' → work n h' ≡ work n h + 1
  unfolding vessel_step Fit
  vessel_step-works h' e = go (h.places v) refl
    where
      moves :
          (p q : Place)
          → h.places v ≡ p
          → exists p ≡ true
          → steps_at q ≡ steps_at p + 1
          → weigh steps_at (update h.places v q) n ≡ weigh steps_at h.places n + 1
      moves p q here there next = omega (
        arith,
        weigh-update steps_at h.places n v q (within p here there),
        ap steps_at here,
        next,
      )

      take_mutex : (m : Option ℕ) → h.mutex ≡ m → h.places v ≡ starting → work n h' ≡ work n h + 1
      take_mutex (some w) taken here = absurd (cc (rw (vessel_step, here, taken) at e))
      take_mutex none free here =
          same_work n (work n h + 1) (rw (vessel_step, here, free) at e)
            (omega (arith, moves starting crossing here refl refl))

      wake : (k : ℕ) → h.semaphores v ≡ k → h.places v ≡ waiting → work n h' ≡ work n h + 1
      wake zero down here = absurd (cc (rw (vessel_step, here, down) at e))
      wake (suc k) up here =
          same_work n (work n h + 1) (rw (vessel_step, here, up) at e)
            (omega (arith, moves waiting home here refl refl))

      go : (p : Place) → h.places v ≡ p → work n h' ≡ work n h + 1
      go not_created here = absurd (cc (rw (vessel_step, here) at e))
      go starting here = take_mutex h.mutex refl here
      go crossing here =
          let (ashore, _) = Fit-at h v crossing (o.each v) here in
          same_work n (work n h + 1) (rw (vessel_step, here) at e) (
            omega (
              arith,
              moves crossing sent here refl refl,
              weigh-update is_back h.legs n v at_eilat (within crossing here refl),
              ap is_back ashore,
            ))
      go sent here =
          same_work n (work n h + 1) (rw (vessel_step, here) at e)
            (omega (arith, moves sent waiting here refl refl))
      go waiting here = wake (h.semaphores v) refl here
      go home here = absurd (cc (rw (vessel_step, here) at e))

  receive_vessel-works : (h' : Harbour) → receive_vessel n v h ≡ some h' → work n h' ≡ work n h + 1
  unfolding receive_vessel
  receive_vessel-works h' e = go (h.legs v) refl
    where
      go : (l : Leg) → h.legs v ≡ l → work n h' ≡ work n h + 1
      go at_haifa here = absurd (cc (rw (receive_vessel, here) at e))
      go back here = absurd (cc (rw (receive_vessel, here) at e))
      go at_eilat here = elim (Bool-cases (h.created == n)) [
        | inr other ↦ absurd (cc (rw (receive_vessel, here, other) at e))
        | inl all ↦ elim (Bool-cases (ltb h.completed n)) [
          | inr other ↦ absurd (cc (rw (receive_vessel, here, all, other) at e))
          | inl few ↦
              same_work n (work n h + 1)
                (sym (
                    receive_vessel-arrival n v h o here ((==_iff h.created n).0 all) (ground arith))
                  ∙ e)
                (omega (
                  arith,
                  weigh-update is_back h.legs n v back (below n v h o here),
                  ap is_back here,
                ))
        ]
      ]

create_thread-works :
    (n : ℕ) (h h' : Harbour) → Orderly n h → create_thread n h ≡ some h' → work n h' ≡ work n h + 1
unfolding create_thread
create_thread-works n h h' o e = elim (Bool-cases (ltb h.created n)) [
  | inr full ↦ absurd (cc (rw (create_thread, full) at e))
  | inl room ↦
      let new : h.places h.created ≡ not_created =
        exists-eq-false (h.places h.created) ((o.each h.created).there ∙ ground arith) in
      same_work n (work n h + 1) (rw (create_thread, room) at e) (
        omega (
          arith,
          weigh-update steps_at h.places n h.created starting (ground arith),
          ap steps_at new,
        ))
]

steps_at_le : (p : Place) → steps_at p ≤ 5
steps_at_le not_created = omega arith
steps_at_le starting = omega arith
steps_at_le crossing = omega arith
steps_at_le sent = omega arith
steps_at_le waiting = omega arith
steps_at_le home = omega arith

is_back_le : (l : Leg) → is_back l ≤ 1
is_back_le at_haifa = omega arith
is_back_le at_eilat = omega arith
is_back_le back = omega arith

work_le : (n : ℕ) (h : Harbour) → work n h ≤ n * 6
unfolding weigh
work_le zero h = omega arith
work_le (suc n) h = omega (arith, steps_at_le (h.places n), is_back_le (h.legs n), work_le n h)

-- Each step that one of the threads takes in a run is one more of the at most six steps that there are
-- for each vessel: no run has more than six times as many steps as there are vessels.
pub Step-works :
    (n : ℕ) (h h' : Harbour)
    → Reached n h
    → Step n h h'
    → (work n h' ≡ work n h + 1) × (work n h' ≤ n * 6)
Step-works n h h' r step = (go step, work_le n h')
  where
    o : Orderly n h
    o = reached-Orderly n h r

    go : Step n h h' → work n h' ≡ work n h + 1
    go (main_creates e) = create_thread-works n h h' o e
    go (vessel_sails v e) = vessel_step-works n v h o h' e
    go (main_receives v e) = receive_vessel-works n v h o h' e
