-- ===== src/Port/Threads/Kept.antt =====
-- What the sections of the barrier of EilatPort.c leave as it is.
use software_development_pla.Common.{
  ℕ, ◌+◌, ◌-◌, ◌≡◌, refl, ap, subst, inl, inr, true, ◌&&◌, none, leb, ◌==◌, update, Bool-cases,
}
use software_development_pla.Port.Quay.{
  Port, done, enter_to_barrier, pass_barrier, release_from_barrier, leave_quay,
}
use software_development_pla.Port.Quay.Barrier.{release_from_barrier-kept}

-- The cranes are as in `s`.
pub record KeepsCranes (s s' : Port) : Type 0 where
  pub ids : s'.cranes_vessel_ids ≡ s.cranes_vessel_ids
  pub ins : s'.cranes_in_semaphores ≡ s.cranes_in_semaphores
  pub outs : s'.cranes_out_semaphores ≡ s.cranes_out_semaphores
  pub count : s'.cranes_with_vessels ≡ s.cranes_with_vessels
  pub num_of_cranes : s'.num_of_cranes ≡ s.num_of_cranes
  pub num_of_vessels : s'.num_of_vessels ≡ s.num_of_vessels

release_from_barrier-KeepsCranes :
    (s s' : Port) → release_from_barrier s ≡ done s' → KeepsCranes s s'
release_from_barrier-KeepsCranes s s' e =
    let kept = release_from_barrier-kept s s' e in
    record {
      ids = ap (λ (x : Port). x.cranes_vessel_ids) kept;
      ins = ap (λ (x : Port). x.cranes_in_semaphores) kept;
      outs = ap (λ (x : Port). x.cranes_out_semaphores) kept;
      count = ap (λ (x : Port). x.cranes_with_vessels) kept;
      num_of_cranes = ap (λ (x : Port). x.num_of_cranes) kept;
      num_of_vessels = ap (λ (x : Port). x.num_of_vessels) kept;
    }

pub enter_to_barrier-KeepsCranes : (s s' : Port) → enter_to_barrier s ≡ done s' → KeepsCranes s s'
unfolding enter_to_barrier
enter_to_barrier-KeepsCranes s s' e =
    elim (Bool-cases (s.is_quay_adt_free && leb s.num_of_cranes arrived.vessels_in_barrier)) [
      | inr few ↦ let same : arrived ≡ s' = cc (few, e) in subst (KeepsCranes s) same as_arrived
      | inl many ↦
          let released : release_from_barrier arrived ≡ done s' = cc (many, e) in
          let k = release_from_barrier-KeepsCranes arrived s' released in
          record {
            ids = k.ids;
            ins = k.ins;
            outs = k.outs;
            count = k.count;
            num_of_cranes = k.num_of_cranes;
            num_of_vessels = k.num_of_vessels;
          }
    ]
  where
    arrived : Port
    arrived = record s {
      vessels_in_barrier = s.vessels_in_barrier + 1;
      barrier_size = s.barrier_size + 1;
    }

    as_arrived : KeepsCranes s arrived
    as_arrived = record {
      ids = refl;
      ins = refl;
      outs = refl;
      count = refl;
      num_of_cranes = refl;
      num_of_vessels = refl;
    }

pub pass_barrier-KeepsCranes :
    (ticket : ℕ) (s s' : Port) → pass_barrier ticket s ≡ done s' → KeepsCranes s s'
unfolding pass_barrier
pass_barrier-KeepsCranes ticket s s' e = elim (Bool-cases (s.barrier_queue ticket == 0)) [
  | inl down ↦ absurd (cc (down, e))
  | inr up ↦
      let passed : Port = record s {
        barrier_queue = update s.barrier_queue ticket 0;
        vessels_in_barrier = s.vessels_in_barrier - 1;
      } in
      let same : passed ≡ s' = cc (up, e) in
      subst (KeepsCranes s) same (record {
        ids = refl;
        ins = refl;
        outs = refl;
        count = refl;
        num_of_cranes = refl;
        num_of_vessels = refl;
      })
]

-- A vessel that leaves its crane frees it.
pub leave_quay-KeepsCranes :
    (c : ℕ) (s s' : Port)
    → leave_quay c s ≡ done s'
    → KeepsCranes
        (record s {
          cranes_vessel_ids = update s.cranes_vessel_ids c none;
          cranes_with_vessels = s.cranes_with_vessels - 1;
        })
        s'
unfolding leave_quay
leave_quay-KeepsCranes c s s' e = elim (Bool-cases (left.cranes_with_vessels == 0)) [
  | inr some_left ↦ let same : left ≡ s' = cc (some_left, e) in subst (KeepsCranes base) same ok
  | inl empty ↦ elim (Bool-cases (leb s.num_of_cranes s.vessels_in_barrier)) [
    | inr few ↦
        let same : (record left { is_quay_adt_free = true }) ≡ s' = cc (empty, few, e) in
        subst (KeepsCranes base) same ok_free
    | inl many ↦
        let released : release_from_barrier (record left { is_quay_adt_free = true }) ≡ done s' =
          cc (empty, many, e) in
        let k =
          release_from_barrier-KeepsCranes (record left { is_quay_adt_free = true }) s' released in
        record {
          ids = k.ids;
          ins = k.ins;
          outs = k.outs;
          count = k.count;
          num_of_cranes = k.num_of_cranes;
          num_of_vessels = k.num_of_vessels;
        }
  ]
]
  where
    base : Port
    base = record s {
      cranes_vessel_ids = update s.cranes_vessel_ids c none;
      cranes_with_vessels = s.cranes_with_vessels - 1;
    }

    left : Port
    left = record base { cargo_weights = update s.cargo_weights c 0 }

    ok : KeepsCranes base left
    ok = record {
      ids = refl;
      ins = refl;
      outs = refl;
      count = refl;
      num_of_cranes = refl;
      num_of_vessels = refl;
    }

    ok_free : KeepsCranes base (record left { is_quay_adt_free = true })
    ok_free = record {
      ids = refl;
      ins = refl;
      outs = refl;
      count = refl;
      num_of_cranes = refl;
      num_of_vessels = refl;
    }
