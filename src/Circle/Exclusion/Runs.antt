-- ===== src/Circle/Exclusion/Runs.antt =====
-- The runs of traffic_cycle.c: the generators create cars, and the threads of the cars take their
-- steps, in any order.
use software_development_pla.Common.{
  ℕ, ◌+◌, ◌<◌, ◌≡◌, ◌≢◌, ◌↔◌, ◌∙◌, inl, inr, refl, sym, ap, subst, Bool, true, none, some, arith,
  update, keep-Tracks, ltb, leb, ◌&&◌, ◌≤◌, Bool-cases,
}
use software_development_pla.Circle.Types.{
  Car, at_start, Thread, Circle, Outcome, done, fault, max_number_of_cars,
}
use software_development_pla.Circle.Geometry.{slot, is_on_border}
use software_development_pla.Circle.Cars.{init_car}
use software_development_pla.Circle.Threads.{run_car, leaves, move_car, car_generator}
use software_development_pla.Circle.Ring.{ring_slot, slot-ring, is_on_border-ring, init_car-WaitsAt}
use software_development_pla.Circle.Exclusion.{
  Spot, nowhere, waiting, testing, riding, Stands, mutex, shown, Orderly, Safe, put-Orderly, rides,
}
use software_development_pla.Circle.Exclusion.Steps.{run_car-Safe}

-- Before any generator has run.
abbrev pub empty_circle : Circle
empty_circle = record {
  next_car_id = 0;
  owners = λ _. none;
  board = λ _. none;
  threads = λ _. none;
}

pub data Reached : Circle → Type 0 where
  start : Reached empty_circle
  born :
      (garbage : Car) (g : ℕ) (s s' : Circle)
      → g < 4
      → Reached s
      → car_generator garbage g s ≡ done s'
      → Reached s'
  moved :
      (c : ℕ) (exits : Bool) (freed : ℕ) (t : Thread) (s s' : Circle)
      → Reached s
      → s.threads c ≡ some t
      → move_car c exits freed t s ≡ done s'
      → Reached s'

empty_circle-Orderly : Orderly (λ _. nowhere) empty_circle
empty_circle-Orderly = record {
  stands = λ c. refl;
  owned = λ n c. (λ e. cc, λ e. cc);
  on_board = λ n c. (λ e. cc, λ e. cc);
  unborn = λ c _. refl;
}

born-Orderly :
    (garbage : Car) (g : ℕ) (s s' : Circle) (spots : ℕ → Spot)
    → g < 4
    → Orderly spots s
    → car_generator garbage g s ≡ done s'
    → Orderly (update spots s.next_car_id (waiting g)) s'
unfolding car_generator
born-Orderly garbage g s s' spots h ok e = elim (Bool-cases (ltb c max_number_of_cars)) [
  | inl room ↦ subst (Orderly (update spots c (waiting g))) (cc (room, e)) new
  | inr full ↦ absurd (cc (full, e))
]
  where
    c : ℕ
    c = s.next_car_id

    free : spots c ≡ nowhere
    free = ok.unborn c (omega arith)

    one_more : Orderly spots (record s { next_car_id = c + 1 })
    one_more = record {
      stands = ok.stands;
      owned = ok.owned;
      on_board = ok.on_board;
      unborn = λ d le. ok.unborn d (omega arith);
    }

    new : Orderly (update spots c (waiting g)) (record s {
      next_car_id = c + 1;
      threads = update s.threads c (some (record { car = init_car garbage g c; place = at_start }));
    })
    new =
        put-Orderly spots _ c (waiting g) _ _ _ one_more (omega arith)
          (_, refl, h, (init_car-WaitsAt garbage g c h).0, refl)
          (keep-Tracks s.owners (λ e. mutex (spots e)) c none ok.owned (ap mutex free))
          (keep-Tracks s.board (λ e. shown (spots e)) c none ok.on_board (ap shown free))

Safe-fault : (o : Outcome) → Safe o → o ≢ fault
unfolding Safe
Safe-fault o h e = subst Safe e h

Safe-done : (o : Outcome) (s : Circle) → Safe o → o ≡ done s → (spots : ℕ → Spot) × Orderly spots s
unfolding Safe
Safe-done o s h e = subst Safe e h

run_car-done :
    (c : ℕ) (exits : Bool) (freed : ℕ) (t : Thread) (s s' : Circle)
    → move_car c exits freed t s ≡ done s'
    → run_car c exits t s ≡ done s'
unfolding move_car
run_car-done c exits freed t s s' e =
    elim (Bool-cases (leaves exits t && leb max_number_of_cars freed)) [
      | inl lost ↦ absurd (cc (rw (move_car, lost) at e))
      | inr fine ↦ rw (move_car, fine) at e
    ]

reached-Orderly : (s : Circle) → Reached s → (spots : ℕ → Spot) × Orderly spots s
reached-Orderly _ start = (_, empty_circle-Orderly)
reached-Orderly _ (born garbage g s s' h r e) =
    let (spots, ok) = reached-Orderly s r in (_, born-Orderly garbage g s s' spots h ok e)
reached-Orderly _ (moved c exits freed t s s' r running e) =
    let (spots, ok) = reached-Orderly s r in
    Safe-done (run_car c exits t s) s' (run_car-Safe spots s ok c t exits running)
      (run_car-done c exits freed t s s' e)

-- A step of a run indexes out of an array or gives up exactly if a car leaves the circle, and what is read
-- as its number after it was freed is not an index of `car_threads`. Every other step is done, or waits
-- for a mutex.
pub move_car-fault_iff :
    (c : ℕ) (exits : Bool) (freed : ℕ) (t : Thread) (s : Circle)
    → Reached s
    → s.threads c ≡ some t
    → (move_car c exits freed t s ≡ fault)
      ↔ ((leaves exits t ≡ true) × (max_number_of_cars ≤ freed))
unfolding move_car
move_car-fault_iff c exits freed t s r running =
    let (spots, ok) = reached-Orderly s r in
    let safe : run_car c exits t s ≢ fault =
      Safe-fault (run_car c exits t s) (run_car-Safe spots s ok c t exits running) in
    (
      (λ e. elim (Bool-cases (leaves exits t)) [
        | inr stays ↦ absurd (safe (rw (move_car, stays) at e))
        | inl out ↦ elim (Bool-cases (leb max_number_of_cars freed)) [
          | inr kept ↦ absurd (safe (rw (move_car, out, kept) at e))
          | inl lost ↦ (out, ground arith)
        ]
      ]),
      (λ (out, lost).
          let known : leb max_number_of_cars freed ≡ true = ground arith in
          rw (move_car, out, known) refl),
    )

-- In every run, a car in the circle is on a cell of the border, whose entry of the board shows it and
-- whose mutex it holds.
pub has_its_cell :
    (s : Circle) (c : ℕ) (t : Thread)
    → Reached s
    → s.threads c ≡ some t
    → t.car.has_entered_circle ≡ true
    → (is_on_border t.car.row t.car.col ≡ true)
      × ((n : ℕ) × (slot t.car.row t.car.col ≡ some n)
          × (s.board n ≡ some c)
          × (s.owners n ≡ some c))
has_its_cell s c t r running inside =
    let (spots, ok) = reached-Orderly s r in
    let (k, e, h, at) = rides spots s c t ok running inside in
    (
      rw (at.row_eq, at.col_eq) (is_on_border-ring k h),
      (
        ring_slot k,
        rw (at.row_eq, at.col_eq) (slot-ring k h),
        (ok.on_board (ring_slot k) c).1 (ap shown e),
        (ok.owned (ring_slot k) c).1 (ap mutex e),
      ),
    )

-- In every run, no two cars are on one cell of the circle.
pub exclusion :
    (s : Circle) (c d : ℕ) (t u : Thread)
    → Reached s
    → s.threads c ≡ some t
    → s.threads d ≡ some u
    → t.car.has_entered_circle ≡ true
    → u.car.has_entered_circle ≡ true
    → t.car.row ≡ u.car.row
    → t.car.col ≡ u.car.col
    → c ≡ d
exclusion s c d t u r c_runs d_runs c_inside d_inside rows cols =
    let (_, (n, here, c_shown, _)) = has_its_cell s c t r c_runs c_inside in
    let (_, (m, there, d_shown, _)) = has_its_cell s d u r d_runs d_inside in
    cc (here, there, rows, cols, c_shown, d_shown)

-- In every run, the board shows car `c` at a cell exactly when that car is in the circle and on it.
pub board_iff :
    (s : Circle) (n c : ℕ)
    → Reached s
    → (s.board n ≡ some c) ↔ (
        (t : Thread) × (s.threads c ≡ some t)
        × (t.car.has_entered_circle ≡ true)
        × (slot t.car.row t.car.col ≡ some n))
board_iff s n c r =
    let (spots, ok) = reached-Orderly s r in
    (
      (λ e. on_it spots ok (spots c) refl (ok.stands c) ((ok.on_board n c).0 e)),
      (λ q.
          let (t, running, inside, place) = q in
          let (k, e, h, at) = rides spots s c t ok running inside in
          let here : slot t.car.row t.car.col ≡ some (ring_slot k) =
            rw (at.row_eq, at.col_eq) (slot-ring k h) in
          (ok.on_board n c).1 (ap shown e ∙ sym here ∙ place)),
    )
  where
    on_it :
        (spots : ℕ → Spot)
        → Orderly spots s
        → (p : Spot) → spots c ≡ p
        → Stands p (s.threads c)
        → shown (spots c) ≡ some n
        → (t : Thread) × (s.threads c ≡ some t)
          × (t.car.has_entered_circle ≡ true)
          × (slot t.car.row t.car.col ≡ some n)
    on_it spots ok (riding k) e (t, running, h, at, _) place = (
      t,
      running,
      at.entered,
      rw (at.row_eq, at.col_eq) (slot-ring k h) ∙ sym (ap shown e) ∙ place,
    )
    on_it spots ok nowhere e _ place = absurd (cc (ap shown e, place))
    on_it spots ok (waiting g) e _ place = absurd (cc (ap shown e, place))
    on_it spots ok (testing g) e _ place = absurd (cc (ap shown e, place))
