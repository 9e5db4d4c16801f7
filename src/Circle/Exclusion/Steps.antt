-- ===== src/Circle/Exclusion/Steps.antt =====
-- The steps of `moveCar` and `carGenerator` of traffic_cycle.c keep the circle orderly.
use software_development_pla.Common.{
  ℕ, ◌<◌, ◌≡◌, ◌≢◌, inl, inr, refl, ℤ, sym, ap, subst, Bool, true, false, none, some, arith, update,
  take-Tracks, give-Tracks, keep-Tracks, swap-Tracks, Option-cases, dec_lt, if◌then◌else◌,
}
use software_development_pla.Circle.Types.{
  Place, at_start, holds_test, goes_on, Thread, Circle, Outcome, blocked, done, fault,
}
use software_development_pla.Circle.Geometry.{get_next_row_col, slot}
use software_development_pla.Circle.Cars.{update_car}
use software_development_pla.Circle.Threads.{
  update_board_and_car, enter_circle, exit_circle, continue_in_circle, start_move, try_to_enter,
  run_car, in_bounds, lock, put_thread,
}
use software_development_pla.Circle.Ring.{
  ring_size, ring_slot, next_place, entry, tested, RidesAt, WaitsAt, slot-ring, next-RidesAt,
  enter-RidesAt, update_car-RidesAt,
}
use software_development_pla.Circle.Exclusion.{
  Spot, nowhere, waiting, testing, riding, Stands, mutex, shown, Orderly, Safe, free-shown,
  put-Safe,
}

born_of_ne :
    (spots : ℕ → Spot) (s : Circle) (c : ℕ)
    → Orderly spots s
    → spots c ≢ nowhere
    → c < s.next_car_id
born_of_ne spots s c ok ne = elim (dec_lt c s.next_car_id) [
  | yes h ↦ h
  | no h ↦ absurd (ne (ok.unborn c (omega arith)))
]

in_bounds-Safe :
    (row col : ℤ) (n : ℕ) (next : ℕ → Outcome)
    → slot row col ≡ some n
    → Safe (next n)
    → Safe (in_bounds row col next)
unfolding in_bounds
in_bounds-Safe row col n next e h =
    subst (λ o. Safe (elim o [ none ↦ fault | some n ↦ next n ])) (sym e) h

lock-Safe :
    (c n : ℕ) (s : Circle) (next : Circle → Outcome)
    → (s.owners n ≡ none → Safe (next (record s { owners = update s.owners n (some c) })))
    → Safe (lock c n s next)
unfolding Safe lock
lock-Safe c n s next h = elim (Option-cases (s.owners n)) [
  | inl free ↦
      subst
        (λ o. Safe (elim o [
          | some other ↦ blocked
          | none ↦ next (record s { owners = update s.owners n (some c) })
        ]))
        (sym free) (h free)
  | inr q ↦
      subst
        (λ o. Safe (elim o [
          | some other ↦ blocked
          | none ↦ next (record s { owners = update s.owners n (some c) })
        ]))
        (sym q.1) tt
]

if-Safe :
    (b : Bool) (x y : Outcome)
    → (b ≡ true → Safe x)
    → (b ≡ false → Safe y)
    → Safe (if b then x else y)
if-Safe true x y h g = h refl
if-Safe false x y h g = g refl

module _ (spots : ℕ → Spot) (s : Circle) (ok : Orderly spots s) (c : ℕ) (t : Thread) where
  continue_in_circle-Safe :
      (k : ℕ)
      → spots c ≡ riding k
      → k < ring_size
      → RidesAt k t.car
      → Safe (continue_in_circle c t.car s)
  unfolding continue_in_circle update_board_and_car
  continue_in_circle-Safe k e h at = in_bounds-Safe _ _ (ring_slot (next_place k)) _ next_slot (
      lock-Safe c (ring_slot (next_place k)) s _ (λ free.
        if-Safe t.car.has_entered_circle _ _
          (λ _. in_bounds-Safe _ _ (ring_slot k) _ here (
            in_bounds-Safe _ _ (ring_slot k) _ here (
              put-Safe spots s c (riding (next_place k)) _ _ _ ok
                (born_of_ne spots s c ok (λ q. cc (q, e))) (_, refl, omega arith, moved, inl refl)
                (swap-Tracks s.owners (λ e. mutex (spots e)) _ (ring_slot k) c ok.owned free
                  (ap mutex e))
                (swap-Tracks s.board (λ e. shown (spots e)) _ (ring_slot k) c ok.on_board
                  (free-shown spots s _ ok free) (ap shown e)))))
          (λ out. absurd (cc (out, at.entered)))))
    where
      next_cell : ℤ × ℤ
      next_cell = get_next_row_col t.car.row t.car.col t.car.dir

      next_slot : slot next_cell.0 next_cell.1 ≡ some (ring_slot (next_place k))
      next_slot = rw (next-RidesAt k t.car h at) (slot-ring (next_place k) (omega arith))

      here : slot t.car.row t.car.col ≡ some (ring_slot k)
      here = rw (at.row_eq, at.col_eq) (slot-ring k h)

      moved : RidesAt (next_place k) (update_car t.car next_cell.0 next_cell.1)
      moved = rw (next-RidesAt k t.car h at) (update_car-RidesAt k t.car h at)

  exit_circle-Safe :
      (k : ℕ) → spots c ≡ riding k → k < ring_size → RidesAt k t.car → Safe (exit_circle c t.car s)
  unfolding exit_circle
  exit_circle-Safe k e h at =
      in_bounds-Safe _ _ (ring_slot k) _ (rw (at.row_eq, at.col_eq) (slot-ring k h)) (
        put-Safe spots s c nowhere _ _ _ ok (born_of_ne spots s c ok (λ q. cc (q, e))) refl
          (give-Tracks s.owners (λ e. mutex (spots e)) (ring_slot k) c ok.owned (ap mutex e))
          (give-Tracks s.board (λ e. shown (spots e)) (ring_slot k) c ok.on_board (ap shown e)))

  try_to_enter-Safe :
      (g : ℕ) → spots c ≡ testing g → g < 4 → WaitsAt g t.car → Safe (try_to_enter c t.car s)
  unfolding try_to_enter enter_circle update_board_and_car
  try_to_enter-Safe g e h at =
      subst
        (λ o. Safe (elim o [
          | none ↦ fault
          | some test ↦ in_bounds test.0 test.1 (λ n. enter_circle c t.car n s)
        ]))
        (sym at.check_eq)
        (in_bounds-Safe _ _ (ring_slot (tested g)) _ (slot-ring (tested g) (omega arith)) (
          in_bounds-Safe _ _ (ring_slot (entry g)) _ next_slot (
            lock-Safe c (ring_slot (entry g)) s _ (λ free.
              if-Safe t.car.has_entered_circle _ _ (λ ins. absurd (cc (ins, at.outside)))
                (λ _.
                  put-Safe spots s c (riding (entry g)) _ _ _ ok
                    (born_of_ne spots s c ok (λ q. cc (q, e)))
                    (_, refl, omega arith, moved, inl refl)
                    (swap-Tracks s.owners (λ e. mutex (spots e)) _ (ring_slot (tested g)) c ok.owned
                      free (ap mutex e))
                    (take-Tracks s.board (λ e. shown (spots e)) _ c ok.on_board
                      (free-shown spots s _ ok free) (ap shown e)))))))
    where
      next_cell : ℤ × ℤ
      next_cell = get_next_row_col t.car.row t.car.col t.car.dir

      next_slot : slot next_cell.0 next_cell.1 ≡ some (ring_slot (entry g))
      next_slot = rw (at.next_eq) (slot-ring (entry g) (omega arith))

      moved :
          RidesAt
            (entry g)
            (record (update_car t.car next_cell.0 next_cell.1) { has_entered_circle = true })
      moved = rw (at.next_eq) (enter-RidesAt g t.car at)

  wait-Safe :
      (g : ℕ) (exits : Bool)
      → spots c ≡ waiting g
      → g < 4
      → WaitsAt g t.car
      → Safe (start_move c exits t.car s)
  unfolding start_move
  wait-Safe g exits e h at =
      if-Safe t.car.has_entered_circle _ _ (λ ins. absurd (cc (ins, at.outside)))
        (λ _.
          subst
            (λ o. Safe (elim o [
              | none ↦ fault
              | some test ↦ in_bounds test.0 test.1 (λ n. lock c n s (λ s1.
                  done (put_thread c (some (record { car = t.car; place = holds_test })) s1)))
            ]))
            (sym at.check_eq)
            (in_bounds-Safe _ _ (ring_slot (tested g)) _ (slot-ring (tested g) (omega arith)) (
              lock-Safe c (ring_slot (tested g)) s _ (λ free.
                put-Safe spots s c (testing g) _ _ _ ok (born_of_ne spots s c ok (λ q. cc (q, e)))
                  (_, refl, h, at, refl)
                  (take-Tracks s.owners (λ e. mutex (spots e)) _ c ok.owned free (ap mutex e))
                  (keep-Tracks s.board (λ e. shown (spots e)) c none ok.on_board (ap shown e))))))

  ride-Safe :
      (k : ℕ) (exits : Bool)
      → spots c ≡ riding k
      → k < ring_size
      → RidesAt k t.car
      → Safe (start_move c exits t.car s)
  unfolding start_move
  ride-Safe k exits e h at =
      if-Safe t.car.has_entered_circle _ _
        (λ _.
          if-Safe _ _ _ (λ _. exit_circle-Safe k e h at)
            (λ _.
              put-Safe spots s c (riding k) _ _ _ ok (born_of_ne spots s c ok (λ q. cc (q, e)))
                (_, refl, h, at, inr refl)
                (keep-Tracks s.owners (λ e. mutex (spots e)) c _ ok.owned (ap mutex e))
                (keep-Tracks s.board (λ e. shown (spots e)) c _ ok.on_board (ap shown e))))
        (λ out. absurd (cc (out, at.entered)))

  -- Whatever the thread is at, its next step is no fault and keeps the circle orderly.
  pub run_car-Safe : (exits : Bool) → s.threads c ≡ some t → Safe (run_car c exits t s)
  unfolding run_car
  run_car-Safe exits running = go (spots c) refl (ok.stands c)
    where
      step : Place → Outcome
      step place = elim place [
        | at_start ↦ start_move c exits t.car s
        | holds_test ↦ try_to_enter c t.car s
        | goes_on ↦ continue_in_circle c t.car s
      ]

      its : (P : Thread → Type 0) (t' : Thread) → s.threads c ≡ some t' → P t' → P t
      its P t' e h = subst P (cc (e, running)) h

      from : (place : Place) → t.place ≡ place → Safe (step place) → Safe (run_car c exits t s)
      from place e h = subst (λ x. Safe (step x)) (sym e) h

      go : (p : Spot) → spots c ≡ p → Stands p (s.threads c) → Safe (run_car c exits t s)
      go nowhere e none_there = absurd (cc (none_there, running))
      go (waiting g) e (t', e', h, at, place) =
          from at_start (its (λ x. x.place ≡ at_start) t' e' place)
            (wait-Safe g exits e h (its (λ x. WaitsAt g x.car) t' e' at))
      go (testing g) e (t', e', h, at, place) =
          from holds_test (its (λ x. x.place ≡ holds_test) t' e' place)
            (try_to_enter-Safe g e h (its (λ x. WaitsAt g x.car) t' e' at))
      go (riding k) e (t', e', h, at, inl place) =
          from at_start (its (λ x. x.place ≡ at_start) t' e' place)
            (ride-Safe k exits e h (its (λ x. RidesAt k x.car) t' e' at))
      go (riding k) e (t', e', h, at, inr place) =
          from goes_on (its (λ x. x.place ≡ goes_on) t' e' place)
            (continue_in_circle-Safe k e h (its (λ x. RidesAt k x.car) t' e' at))
