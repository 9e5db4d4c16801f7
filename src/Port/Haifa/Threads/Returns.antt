-- ===== src/Port/Haifa/Threads/Returns.antt =====
-- Main of HaifaPort.c reads that a vessel is back; and the runs of its threads.
use software_development_pla.Common.{
  ℕ, suc, ◌+◌, ◌<◌, ◌≡◌, refl, sym, ap, subst, ◌∙◌, inl, inr, true, none, some, [], arith, ltb,
  ◌==◌, update, update_self, update-ne, Bool-cases, ==_iff, pos, atoi, atoi-decimal, weigh-update,
}
use software_development_pla.Port.Haifa.{goes_on, vessel_message, release_semaphore, wake_vessel}
use software_development_pla.Port.Haifa.Threads.{
  Place, not_created, starting, crossing, sent, waiting, home, Leg, at_haifa, at_eilat, back,
  Harbour, receive_vessel, Reached, start, creates, sails, returns,
}
use software_development_pla.Port.Haifa.Threads.Order.{
  Fit, exists, is_back, Orderly, change-Orderly, new_harbour-Orderly, create_thread-Orderly,
}
use software_development_pla.Port.Haifa.Threads.Sails.{sails-Orderly}

-- The message of a vessel wakes its thread.
wake_vessel-own :
    (n v : ℕ) (semaphores : ℕ → ℕ)
    → v < n
    → semaphores v ≡ 0
    → wake_vessel (λ _. none) n (vessel_message [] (v + 1)) semaphores
      ≡ goes_on (update semaphores v 1)
unfolding wake_vessel vessel_message release_semaphore
wake_vessel-own n v semaphores below down =
    let id : atoi (vessel_message [] (v + 1)) ≡ pos (suc v) =
      atoi-decimal (v + 1) [] ∙ ap pos (omega arith) in
    let known : ltb v n ≡ true = ground arith in
    rw (wake_vessel, id, known, release_semaphore, down) refl

-- A vessel of which a message is on the way.
Fit-at_eilat : (p : Place) (s : ℕ) → Fit p at_eilat s → (exists p ≡ true) × (s ≡ 0) × Fit p back 1
unfolding Fit
Fit-at_eilat not_created s (l, _) = absurd (cc l)
Fit-at_eilat starting s (l, _) = absurd (cc l)
Fit-at_eilat crossing s (l, _) = absurd (cc l)
Fit-at_eilat sent s (inl (_, down)) = (refl, down, inr (refl, refl))
Fit-at_eilat sent s (inr (l, _)) = absurd (cc l)
Fit-at_eilat waiting s (inl (_, down)) = (refl, down, inr (refl, refl))
Fit-at_eilat waiting s (inr (l, _)) = absurd (cc l)
Fit-at_eilat home s (l, _) = absurd (cc l)

module _ (n v : ℕ) (h : Harbour) (o : Orderly n h) (away : h.legs v ≡ at_eilat) where
  facts : (exists (h.places v) ≡ true) × (h.semaphores v ≡ 0) × Fit (h.places v) back 1
  facts =
      Fit-at_eilat (h.places v) (h.semaphores v)
        (subst (λ l. Fit (h.places v) l (h.semaphores v)) away (o.each v).fit)

  pub below : v < n
  below =
      let known : ltb v h.created ≡ true = sym (o.each v).there ∙ facts.0 in
      let within : v < h.created = ground arith in let c = o.created in omega arith

  abbrev pub arrival : Harbour
  arrival = record h {
    legs = update h.legs v back;
    semaphores = update h.semaphores v 1;
    completed = h.completed + 1;
  }

  arrival-Orderly : Orderly n arrival
  arrival-Orderly =
      change-Orderly n v h arrival o
        (λ j ne. (
          refl,
          update-ne h.legs v back j ne,
          update-ne h.semaphores v 1 j ne,
          (λ e. e, λ e. e),
          refl,
        ))
        (record {
          fit = rw (update_self h.legs v back, update_self h.semaphores v 1) facts.2;
          held = (o.each v).held;
          there = (o.each v).there;
        })
        o.created
        (omega (arith, o.counted, weigh-update is_back h.legs n v back below, ap is_back away))

  -- Main can read its message, once all threads are there.
  pub receive_vessel-arrival : h.created ≡ n → h.completed < n → receive_vessel n v h ≡ some arrival
  unfolding receive_vessel
  receive_vessel-arrival all few =
      let known : (h.created == n) ≡ true = (==_iff h.created n).1 all in
      let more : ltb h.completed n ≡ true = ground arith in
      rw (receive_vessel, away, known, more, wake_vessel-own n v h.semaphores below (facts.1)) refl

returns-Orderly :
    (n v : ℕ) (h h' : Harbour) → Orderly n h → receive_vessel n v h ≡ some h' → Orderly n h'
unfolding receive_vessel
returns-Orderly n v h h' o e = go (h.legs v) refl
  where
    go : (l : Leg) → h.legs v ≡ l → Orderly n h'
    go at_haifa here = absurd (cc (rw (receive_vessel, here) at e))
    go back here = absurd (cc (rw (receive_vessel, here) at e))
    go at_eilat here = elim (Bool-cases (h.created == n)) [
      | inr other ↦ absurd (cc (rw (receive_vessel, here, other) at e))
      | inl all ↦ elim (Bool-cases (ltb h.completed n)) [
        | inr other ↦ absurd (cc (rw (receive_vessel, here, all, other) at e))
        | inl few ↦
            subst (Orderly n)
              (cc (
                e,
                receive_vessel-arrival n v h o here ((==_iff h.created n).0 all) (ground arith),
              ))
              (arrival-Orderly n v h o here)
      ]
    ]

pub reached-Orderly : (n : ℕ) (h : Harbour) → Reached n h → Orderly n h
reached-Orderly n _ start = new_harbour-Orderly n
reached-Orderly n _ (creates h h' r e) = create_thread-Orderly n h h' (reached-Orderly n h r) e
reached-Orderly n _ (sails v h h' r e) = sails-Orderly n v h (reached-Orderly n h r) h' e
reached-Orderly n _ (returns v h h' r e) = returns-Orderly n v h h' (reached-Orderly n h r) e
