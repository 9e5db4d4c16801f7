-- ===== src/Port/Haifa/Threads/Progress.antt =====
-- The threads of HaifaPort.c never all wait for one another.
use software_development_pla.Common.{
  ℕ, zero, suc, ◌+◌, ◌<◌, ◌≤◌, ◌≡◌, ◌⊎◌, refl, ap, ◌∙◌, inl, inr, Bool, true, false, Option, none,
  some, arith, ltb, update, ℕ_discrete, Bool-cases, weigh, weigh-update,
}
use software_development_pla.Port.Haifa.Threads.{
  Place, not_created, starting, crossing, sent, waiting, home, Leg, at_haifa, at_eilat, back,
  Harbour, put, vessel_step, create_thread, receive_vessel, Reached,
}
use software_development_pla.Port.Haifa.Threads.Order.{Fit, holds, is_back, Orderly, Fit-at}
use software_development_pla.Port.Haifa.Threads.Sails.{there_at}
use software_development_pla.Port.Haifa.Threads.Returns.{receive_vessel-arrival, reached-Orderly}

-- A step of one of the threads.
pub data Step (n : ℕ) (h h' : Harbour) : Type 0 where
  main_creates : create_thread n h ≡ some h' → Step n h h'
  vessel_sails : (v : ℕ) → vessel_step true v h ≡ some h' → Step n h h'
  main_receives : (v : ℕ) → receive_vessel n v h ≡ some h' → Step n h h'

-- A step that waits for nothing from Eilat.
pub data OwnStep (n : ℕ) (h h' : Harbour) : Type 0 where
  own_creates : create_thread n h ≡ some h' → OwnStep n h h'
  own_sails : (v : ℕ) → vessel_step true v h ≡ some h' → OwnStep n h h'

-- Main waits for a message of Eilat, where vessel `v` is: if Eilat sends it back, main goes on.
pub record AwaitsEilat (n : ℕ) (h : Harbour) : Type 0 where
  pub vessel : ℕ
  pub in_range : vessel < n
  pub sailed : h.legs vessel ≡ at_eilat
  pub next : Harbour
  pub receives : receive_vessel n vessel h ≡ some next

search :
    (f : ℕ → Bool) (n : ℕ) → ((v : ℕ) → v < n → f v ≡ true) ⊎ ((v : ℕ) × (v < n) × (f v ≡ false))
search f zero = inl (λ v b. absurd (omega arith))
search f (suc n) = elim (search f n) [
  | inr (v, b, e) ↦ inr (v, omega arith, e)
  | inl all ↦ elim (Bool-cases (f n)) [
    | inr e ↦ inr (n, omega arith, e)
    | inl e ↦
        inl
          (λ v b. elim (ℕ_discrete v n) [ yes same ↦ ap f same ∙ e | no ne ↦ all v (omega arith) ])
  ]
]

weigh-is_back_le : (legs : ℕ → Leg) (n : ℕ) → weigh is_back legs n ≤ n
unfolding weigh
weigh-is_back_le legs zero = omega arith
weigh-is_back_le legs (suc n) =
    let one : is_back (legs n) ≤ 1 = go (legs n) in omega (arith, weigh-is_back_le legs n)
  where
    go : (l : Leg) → is_back l ≤ 1
    go at_haifa = omega arith
    go at_eilat = omega arith
    go back = omega arith

-- Where a vessel is not back, not all are.
weigh-below : (legs : ℕ → Leg) (n v : ℕ) → v < n → legs v ≡ at_eilat → weigh is_back legs n < n
weigh-below legs n v b e = omega (
  arith,
  weigh-update is_back legs n v back b,
  ap is_back e,
  weigh-is_back_le (update legs v back) n,
)

weigh-all : (legs : ℕ → Leg) (n : ℕ) → ((v : ℕ) → v < n → legs v ≡ back) → weigh is_back legs n ≡ n
unfolding weigh
weigh-all legs zero all = refl
weigh-all legs (suc n) all =
    omega (arith, ap is_back (all n (omega arith)), weigh-all legs n (λ v b. all v (omega arith)))

is_home : Place → Bool
is_home home = true
is_home _ = false

is_home-eq-true : (p : Place) → is_home p ≡ true → p ≡ home
unfolding is_home
is_home-eq-true not_created e = absurd (cc e)
is_home-eq-true starting e = absurd (cc e)
is_home-eq-true crossing e = absurd (cc e)
is_home-eq-true sent e = absurd (cc e)
is_home-eq-true waiting e = absurd (cc e)
is_home-eq-true home e = refl

-- The vessel with the mutex goes on.
holder-steps : (n w : ℕ) (h : Harbour) → holds (h.places w) ≡ true → (h' : Harbour) × OwnStep n h h'
unfolding vessel_step
holder-steps n w h e = go (h.places w) refl
  where
    go : (p : Place) → h.places w ≡ p → (h' : Harbour) × OwnStep n h h'
    go not_created here = absurd (cc (e, ap holds here))
    go starting here = absurd (cc (e, ap holds here))
    go crossing here = (
      put w sent (record h { legs = update h.legs w at_eilat }),
      own_sails w (rw (vessel_step, here) refl),
    )
    go sent here =
        (put w waiting (record h { mutex = none }), own_sails w (rw (vessel_step, here) refl))
    go waiting here = absurd (cc (e, ap holds here))
    go home here = absurd (cc (e, ap holds here))

-- Once all threads are there, a vessel that is not home can go on, or another one can, or main waits for
-- Eilat.
away-steps :
    (n v : ℕ) (h : Harbour)
    → Orderly n h
    → h.created ≡ n
    → v < n
    → is_home (h.places v) ≡ false
    → ((h' : Harbour) × OwnStep n h h') ⊎ AwaitsEilat n h
unfolding vessel_step Fit is_home
away-steps n v h o all b e = go (h.places v) refl
  where
    take_mutex :
        (m : Option ℕ)
        → h.mutex ≡ m
        → h.places v ≡ starting
        → ((h' : Harbour) × OwnStep n h h') ⊎ AwaitsEilat n h
    take_mutex (some w) taken here = inl (holder-steps n w h ((o.each w).held.1 taken))
    take_mutex none free here = inl (
      put v crossing (record h { mutex = some v }),
      own_sails v (rw (vessel_step, here, free) refl),
    )

    wake :
        Fit waiting (h.legs v) (h.semaphores v)
        → h.places v ≡ waiting
        → ((h' : Harbour) × OwnStep n h h') ⊎ AwaitsEilat n h
    wake (inl (away, down)) here = inr (record {
      vessel = v;
      in_range = b;
      sailed = away;
      next = _;
      receives =
          receive_vessel-arrival n v h o away all
            (omega (arith, o.counted, weigh-below h.legs n v b away));
    })
    wake (inr (returned, up)) here = inl (
      put v home (record h { semaphores = update h.semaphores v 0 }),
      own_sails v (rw (vessel_step, here, up) refl),
    )

    go : (p : Place) → h.places v ≡ p → ((h' : Harbour) × OwnStep n h h') ⊎ AwaitsEilat n h
    go not_created here =
        let absent : false ≡ ltb v h.created = there_at n v h o not_created here in
        absurd (ground arith)
    go starting here = take_mutex h.mutex refl here
    go crossing here = inl (holder-steps n v h (ap holds here))
    go sent here = inl (holder-steps n v h (ap holds here))
    go waiting here = wake (Fit-at h v waiting (o.each v) here) here
    go home here = absurd (cc (e, ap is_home here))

-- The threads of Haifa never wait for one another only: in every run in which each WriteFile of a vessel
-- and each CreateThread succeeds, whatever Eilat sends back, either all vessels have come back and their
-- threads have returned, or one of the threads can take a step that needs no message of Eilat, or main
-- waits for a message of Eilat and a vessel is there, and takes its next step if Eilat sends it back.
pub reached-Progresses :
    (n : ℕ) (h : Harbour)
    → Reached n h
    → ((h.completed ≡ n) × ((v : ℕ) → v < n → h.places v ≡ home))
      ⊎ (((h' : Harbour) × OwnStep n h h') ⊎ AwaitsEilat n h)
unfolding Fit create_thread
reached-Progresses n h r =
    let o = reached-Orderly n h r in
    elim (Bool-cases (ltb h.created n)) [
      | inl room ↦ inr (inl (_, own_creates (created-next room)))
      | inr full ↦
          let c = o.created in
          let all : h.created ≡ n = ground arith in
          elim (search (λ v. is_home (h.places v)) n) [
            | inr (v, b, e) ↦ inr (away-steps n v h o all b e)
            | inl home_all ↦
                let done : (v : ℕ) → v < n → h.places v ≡ home =
                  λ v b. is_home-eq-true (h.places v) (home_all v b) in
                inl (
                  o.counted ∙ weigh-all h.legs n (λ v b. (Fit-at h v home (o.each v) (done v b)).0),
                  done,
                )
          ]
    ]
  where
    created-next :
        ltb h.created n ≡ true
        → create_thread n h ≡ some (put h.created starting (record h { created = h.created + 1 }))
    created-next room = rw (create_thread, room) refl
