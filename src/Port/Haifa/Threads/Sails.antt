-- ===== src/Port/Haifa/Threads/Sails.antt =====
-- The steps of the thread `Vessel` of HaifaPort.c.
use software_development_pla.Common.{
  ℕ, zero, suc, ◌<◌, ◌≡◌, ◌↔◌, refl, sym, ap, subst, ◌∙◌, inl, inr, true, Option, none, some, arith,
  ltb, update, update_self, update-ne, weigh-update,
}
use software_development_pla.Port.Haifa.Threads.{
  Place, not_created, starting, crossing, sent, waiting, home, at_eilat, Harbour, put, vessel_step,
}
use software_development_pla.Port.Haifa.Threads.Order.{
  Fit, holds, exists, is_back, Orderly, change-Orderly, put-Fine, Fit-at,
}

module _ (n v : ℕ) (h : Harbour) (o : Orderly n h) where
  pub there_at : (p : Place) → h.places v ≡ p → exists p ≡ ltb v h.created
  there_at p here = ap exists (sym here) ∙ (o.each v).there

  held_at : (p : Place) → h.places v ≡ p → (holds p ≡ true) ↔ (h.mutex ≡ some v)
  held_at p here = subst (λ q. (holds q ≡ true) ↔ (h.mutex ≡ some v)) here (o.each v).held

  -- It takes the mutex.
  takes-Orderly :
      h.places v ≡ starting
      → h.mutex ≡ none
      → Orderly n (put v crossing (record h { mutex = some v }))
  unfolding Fit
  takes-Orderly here free =
      change-Orderly n v h (put v crossing (record h { mutex = some v })) o
        (λ j ne. (
          update-ne h.places v crossing j ne,
          refl,
          refl,
          (λ e. absurd (cc (e, free)), λ e. absurd (ne (cc e))),
          refl,
        ))
        (put-Fine (record h { mutex = some v }) v crossing (Fit-at h v starting (o.each v) here)
          (λ _. refl, λ _. refl) (there_at starting here))
        o.created o.counted

  -- It writes its number.
  writes-Orderly :
      h.places v ≡ crossing → Orderly n (put v sent (record h { legs = update h.legs v at_eilat }))
  unfolding Fit
  writes-Orderly here =
      let (ashore, down) = Fit-at h v crossing (o.each v) here in
      let next : Harbour = record h { legs = update h.legs v at_eilat } in
      let known : exists crossing ≡ ltb v h.created = there_at crossing here in
      let within : v < h.created = ground arith in
      let within_n : v < n = let c = o.created in omega arith in
      change-Orderly n v h (put v sent next) o
        (λ j ne. (
          update-ne h.places v sent j ne,
          update-ne h.legs v at_eilat j ne,
          refl,
          (λ e. e, λ e. e),
          refl,
        ))
        (put-Fine next v sent (inl (update_self h.legs v at_eilat, down)) (held_at crossing here)
          known)
        o.created
        (omega
          (arith, o.counted, weigh-update is_back h.legs n v at_eilat within_n, ap is_back ashore))

  -- It gives the mutex back.
  leaves-Orderly : h.places v ≡ sent → Orderly n (put v waiting (record h { mutex = none }))
  unfolding Fit
  leaves-Orderly here =
      let mine : h.mutex ≡ some v = (held_at sent here).0 refl in
      change-Orderly n v h (put v waiting (record h { mutex = none })) o
        (λ j ne. (
          update-ne h.places v waiting j ne,
          refl,
          refl,
          (λ e. absurd (ne (cc (e, mine))), λ e. absurd (cc e)),
          refl,
        ))
        (put-Fine (record h { mutex = none }) v waiting (Fit-at h v sent (o.each v) here)
          (λ e. absurd (cc e), λ e. absurd (cc e)) (there_at sent here))
        o.created o.counted

  -- It is woken.
  wakes-Orderly :
      (k : ℕ)
      → h.places v ≡ waiting
      → h.semaphores v ≡ suc k
      → Orderly n (put v home (record h { semaphores = update h.semaphores v k }))
  unfolding Fit
  wakes-Orderly k here up =
      let next : Harbour = record h { semaphores = update h.semaphores v k } in
      change-Orderly n v h (put v home next) o
        (λ j ne. (
          update-ne h.places v home j ne,
          refl,
          update-ne h.semaphores v k j ne,
          (λ e. e, λ e. e),
          refl,
        ))
        (put-Fine next v home (came (Fit-at h v waiting (o.each v) here)) (held_at waiting here)
          (there_at waiting here))
        o.created o.counted
    where
      came :
          Fit waiting (h.legs v) (h.semaphores v) → Fit home (h.legs v) (update h.semaphores v k v)
      came (inl (_, down)) = absurd (omega (arith, up, down))
      came (inr (returned, one)) = (returned, update_self h.semaphores v k ∙ omega (arith, up, one))

  pub sails-Orderly : (h' : Harbour) → vessel_step true v h ≡ some h' → Orderly n h'
  unfolding vessel_step
  sails-Orderly h' e = go (h.places v) refl
    where
      take_mutex : (m : Option ℕ) → h.mutex ≡ m → h.places v ≡ starting → Orderly n h'
      take_mutex (some w) taken here = absurd (cc (rw (vessel_step, here, taken) at e))
      take_mutex none free here =
          subst (Orderly n) (cc (rw (vessel_step, here, free) at e)) (takes-Orderly here free)

      wake : (k : ℕ) → h.semaphores v ≡ k → h.places v ≡ waiting → Orderly n h'
      wake zero down here = absurd (cc (rw (vessel_step, here, down) at e))
      wake (suc k) up here =
          subst (Orderly n) (cc (rw (vessel_step, here, up) at e)) (wakes-Orderly k here up)

      go : (p : Place) → h.places v ≡ p → Orderly n h'
      go not_created here = absurd (cc (rw (vessel_step, here) at e))
      go starting here = take_mutex h.mutex refl here
      go crossing here = subst (Orderly n) (cc (rw (vessel_step, here) at e)) (writes-Orderly here)
      go sent here = subst (Orderly n) (cc (rw (vessel_step, here) at e)) (leaves-Orderly here)
      go waiting here = wake (h.semaphores v) refl here
      go home here = absurd (cc (rw (vessel_step, here) at e))
