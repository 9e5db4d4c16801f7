-- ===== src/Circle/Exclusion.antt =====
-- Who is where in the traffic circle of traffic_cycle.c, and who holds which mutex.
pub mod Steps
pub mod Runs
use software_development_pla.Common.{
  ℕ, ℕ_discrete, ite, ◌↔◌, zero, suc, ◌+◌, ◌<◌, ◌≤◌, ◌≡◌, ◌≢◌, ◌⊎◌, inl, inr, refl, sym, ap, subst,
  Bool, true, false, Option, none, some, arith, update, update_elim, update_self, update-ne, Tracks,
  take-Tracks, give-Tracks, swap-Tracks, free-Tracks, ◌∙◌,
}
use software_development_pla.Circle.Types.{
  Car, at_start, holds_test, goes_on, Thread, Circle, Outcome, blocked, done, fault,
}
use software_development_pla.Circle.Ring.{
  ring_size, ring, ring_slot, next_place, entry, tested, RidesAt, WaitsAt,
}

-- What a thread is at: it does not run; its car waits outside as a car of generator `g`, without or
-- with the mutex of the cell to test; its car is in the circle at place `k`.
pub data Spot : Type 0 where
  nowhere : Spot
  waiting : ℕ → Spot
  testing : ℕ → Spot
  riding : ℕ → Spot

abbrev pub Stands : Spot → Option Thread → Type 0
Stands nowhere o = o ≡ none
Stands (waiting g) o =
    (t : Thread) × (o ≡ some t) × (g < 4) × WaitsAt g t.car × (t.place ≡ at_start)
Stands (testing g) o =
    (t : Thread) × (o ≡ some t) × (g < 4) × WaitsAt g t.car × (t.place ≡ holds_test)
Stands (riding k) o =
    (t : Thread) × (o ≡ some t)
    × (k < ring_size)
    × RidesAt k t.car
    × ((t.place ≡ at_start) ⊎ (t.place ≡ goes_on))

-- The mutex that a thread there holds, and the cell of the board that shows its car.
abbrev pub mutex : Spot → Option ℕ
mutex (testing g) = some (ring_slot (tested g))
mutex (riding k) = some (ring_slot k)
mutex _ = none

abbrev pub shown : Spot → Option ℕ
shown (riding k) = some (ring_slot k)
shown _ = none

pub record Orderly (spots : ℕ → Spot) (s : Circle) : Type 0 where
  pub stands : (c : ℕ) → Stands (spots c) (s.threads c)
  pub owned : Tracks s.owners (λ c. mutex (spots c))
  pub on_board : Tracks s.board (λ c. shown (spots c))
  pub unborn : (c : ℕ) → s.next_car_id ≤ c → spots c ≡ nowhere

-- The step is no fault and leaves an orderly circle.
unfoldable pub Safe : Outcome → Type 0
Safe blocked = Unit
Safe (done s) = (spots : ℕ → Spot) × Orderly spots s
Safe fault = ⊥

shown-mutex : (p : Spot) (n : ℕ) → shown p ≡ some n → mutex p ≡ some n
shown-mutex (riding k) n e = e
shown-mutex nowhere n e = cc
shown-mutex (waiting g) n e = cc
shown-mutex (testing g) n e = cc

-- A cell whose mutex is free shows no car.
pub free-shown :
    (spots : ℕ → Spot) (s : Circle) (n : ℕ) → Orderly spots s → s.owners n ≡ none → s.board n ≡ none
free-shown spots s n ok free =
    free-Tracks s.board (λ c. shown (spots c)) n ok.on_board
      (λ c e. let held = (ok.owned n c).1 (shown-mutex (spots c) n e) in cc (held, free))

-- Thread `c` changes from one spot to another.
pub put-Orderly :
    (spots : ℕ → Spot) (s : Circle) (c : ℕ) (p : Spot) (o : Option Thread)
    (owners board : ℕ → Option ℕ)
    → Orderly spots s
    → c < s.next_car_id
    → Stands p o
    → Tracks owners (update (λ e. mutex (spots e)) c (mutex p))
    → Tracks board (update (λ e. shown (spots e)) c (shown p))
    → Orderly
        (update spots c p)
        (record s { owners = owners; board = board; threads = update s.threads c o })
put-Orderly spots s c p o owners board ok born stands owned on_board = record {
  stands = λ e. elim (ℕ_discrete c e) as (λ d. Stands (ite d p (spots e)) (ite d o (s.threads e))) [
    | yes _ ↦ stands
    | no _ ↦ ok.stands e
  ];
  owned = λ n e. subst (λ x. (owners n ≡ some e) ↔ (x ≡ some n)) (of_update mutex e) (owned n e);
  on_board =
      λ n e. subst (λ x. (board n ≡ some e) ↔ (x ≡ some n)) (of_update shown e) (on_board n e);
  unborn = λ e le. update-ne spots c p e (omega arith) ∙ ok.unborn e le;
}
  where
    of_update :
        (f : Spot → Option ℕ) (e : ℕ) → update (λ i. f (spots i)) c (f p) e ≡ f (update spots c p e)
    of_update f e =
        elim (ℕ_discrete c e) as (λ d. ite d (f p) (f (spots e)) ≡ f (ite d p (spots e))) [
          | yes _ ↦ refl
          | no _ ↦ refl
        ]

-- The same for the outcome of a step.
pub put-Safe :
    (spots : ℕ → Spot) (s : Circle) (c : ℕ) (p : Spot) (o : Option Thread)
    (owners board : ℕ → Option ℕ)
    → Orderly spots s
    → c < s.next_car_id
    → Stands p o
    → Tracks owners (update (λ e. mutex (spots e)) c (mutex p))
    → Tracks board (update (λ e. shown (spots e)) c (shown p))
    → Safe (done (record s { owners = owners; board = board; threads = update s.threads c o }))
unfolding Safe
put-Safe spots s c p o owners board ok born stands owned on_board =
    (update spots c p, put-Orderly spots s c p o owners board ok born stands owned on_board)

-- A car in the circle rides at a place.
pub rides :
    (spots : ℕ → Spot) (s : Circle) (c : ℕ) (t : Thread)
    → Orderly spots s
    → s.threads c ≡ some t
    → t.car.has_entered_circle ≡ true
    → (k : ℕ) × (spots c ≡ riding k) × (k < ring_size) × RidesAt k t.car
rides spots s c t ok running inside = go (spots c) refl (ok.stands c)
  where
    go :
        (p : Spot)
        → spots c ≡ p
        → Stands p (s.threads c)
        → (k : ℕ) × (spots c ≡ riding k) × (k < ring_size) × RidesAt k t.car
    go nowhere e none_there = absurd (cc (none_there, running))
    go (waiting g) e (t', e', h, at, place) = absurd (cc (e', running, at.outside, inside))
    go (testing g) e (t', e', h, at, place) = absurd (cc (e', running, at.outside, inside))
    go (riding k) e (t', e', h, at, place) =
        let same : t' ≡ t = cc (e', running) in
        (k, e, h, subst (λ (x : Thread). RidesAt k x.car) same at)
