-- ===== src/Port/Quay/Barrier.antt =====
-- The barrier of EilatPort.c releases the vessels in the order in which they came.
use software_development_pla.Common.{
  ℕ, zero, suc, ◌+◌, ◌<◌, ◌≤◌, ◌≡◌, inl, inr, refl, ap, subst, ◌∙◌, ltb, ◌==◌, true, false, arith,
  update, update_self, update-ne, ==_iff, ℕ_discrete, Bool-cases,
}
use software_development_pla.Port.Quay.{
  Port, Section, blocked, done, failed, fault, release_vessels, release_from_barrier, and_then,
}

-- From `s` to `s'`, exactly the `n` semaphores from the head of the queue on were raised, the head went
-- on behind them, and nothing else changed.
pub record Released (n : ℕ) (s s' : Port) : Type 0 where
  pub head : s'.barrier_head_idx ≡ s.barrier_head_idx + n
  pub raised :
      (j : ℕ) → s.barrier_head_idx ≤ j → j < s.barrier_head_idx + n → s'.barrier_queue j ≡ 1
  pub before : (j : ℕ) → j < s.barrier_head_idx → s'.barrier_queue j ≡ s.barrier_queue j
  pub behind : (j : ℕ) → s.barrier_head_idx + n ≤ j → s'.barrier_queue j ≡ s.barrier_queue j
  pub kept :
      (record s' { barrier_queue = s.barrier_queue; barrier_head_idx = s.barrier_head_idx }) ≡ s

-- The state after the first round of the loop.
abbrev first_released : Port → Port
first_released s = record s {
  barrier_queue = update s.barrier_queue s.barrier_head_idx 1;
  barrier_head_idx = s.barrier_head_idx + 1;
}

first-Released : (n : ℕ) (s s' : Port) → Released n (first_released s) s' → Released (suc n) s s'
first-Released n s s' r = record {
  head = omega (arith, r.head);
  raised = λ j a b. elim (ℕ_discrete s.barrier_head_idx j) [
    | yes same ↦
        subst (λ x. s'.barrier_queue x ≡ 1) same
          (r.before s.barrier_head_idx (omega arith)
            ∙ update_self s.barrier_queue s.barrier_head_idx 1)
    | no ne ↦ r.raised j (omega arith) (omega arith)
  ];
  before = λ j below.
      r.before j (omega arith)
      ∙ update-ne s.barrier_queue s.barrier_head_idx 1 j (λ e. absurd (omega arith));
  behind = λ j above.
      r.behind j (omega arith)
      ∙ update-ne s.barrier_queue s.barrier_head_idx 1 j (λ e. absurd (omega arith));
  kept =
      ap
        (λ (x : Port). record x {
          barrier_queue = s.barrier_queue;
          barrier_head_idx = s.barrier_head_idx;
        })
        r.kept;
}

pub release_vessels-Released :
    (n : ℕ) (s s' : Port) → release_vessels n s ≡ done s' → Released n s s'
unfolding release_vessels
release_vessels-Released zero s s' e =
    let same : s ≡ s' = cc e in
    subst (Released 0 s) same (record {
      head = omega arith;
      raised = λ j a b. absurd (omega arith);
      before = λ j _. refl;
      behind = λ j _. refl;
      kept = refl;
    })
release_vessels-Released (suc n) s s' e =
    elim (Bool-cases (ltb s.barrier_head_idx s.num_of_vessels)) [
      | inr out ↦ absurd (cc (out, e))
      | inl inside ↦ elim (Bool-cases (s.barrier_queue s.barrier_head_idx == 0)) [
        | inr up ↦ absurd (cc (inside, up, e))
        | inl down ↦
            first-Released n s s'
              (release_vessels-Released n (first_released s) s' (cc (inside, down, e)))
      ]
    ]

release_vessels-done :
    (n : ℕ) (s : Port)
    → s.barrier_head_idx + n ≤ s.num_of_vessels
    → ((j : ℕ) → s.barrier_head_idx ≤ j → s.barrier_queue j ≡ 0)
    → (s' : Port) × (release_vessels n s ≡ done s')
unfolding release_vessels
release_vessels-done zero s room clear = (s, refl)
release_vessels-done (suc n) s room clear =
    let (s', e) = release_vessels-done n (first_released s) (omega arith) (λ j a.
      update-ne s.barrier_queue s.barrier_head_idx 1 j (λ q. absurd (omega arith))
      ∙ clear j (omega arith)) in
    let inside : ltb s.barrier_head_idx s.num_of_vessels ≡ true = ground arith in
    let down : (s.barrier_queue s.barrier_head_idx == 0) ≡ true =
      (==_iff _ 0).1 (clear s.barrier_head_idx (omega arith)) in
    (s', rw (inside, down) e)

-- While there are `num_of_cranes` places left behind the head of the queue, and no semaphore from there
-- on is up, `releaseFromBarrier` succeeds: it wakes the vessels that came next, in the order in which
-- they came and as many as there are cranes, no other, and marks the quay as taken.
pub release_from_barrier-Released :
    (s : Port)
    → s.barrier_head_idx + s.num_of_cranes ≤ s.num_of_vessels
    → ((j : ℕ) → s.barrier_head_idx ≤ j → s.barrier_queue j ≡ 0)
    → (s' : Port) × (release_from_barrier s ≡ done (record s' { is_quay_adt_free = false }))
      × Released s.num_of_cranes s s'
unfolding release_from_barrier
release_from_barrier-Released s room clear =
    let (s', e) = release_vessels-done s.num_of_cranes s room clear in
    (s', rw (e) refl, release_vessels-Released s.num_of_cranes s s' e)

-- Of the rest of the state, only the mark of the quay may change.
pub release_from_barrier-kept :
    (s s' : Port)
    → release_from_barrier s ≡ done s'
    → (record s' {
      barrier_queue = s.barrier_queue;
      barrier_head_idx = s.barrier_head_idx;
      is_quay_adt_free = s.is_quay_adt_free;
    })
      ≡ s
unfolding release_from_barrier
release_from_barrier-kept s s' e = go (release_vessels s.num_of_cranes s) refl e
  where
    go :
        (o : Section)
        → release_vessels s.num_of_cranes s ≡ o
        → and_then o (λ t. done (record t { is_quay_adt_free = false })) ≡ done s'
        → (record s' {
          barrier_queue = s.barrier_queue;
          barrier_head_idx = s.barrier_head_idx;
          is_quay_adt_free = s.is_quay_adt_free;
        })
          ≡ s
    go (done t) r f =
        let same : (record t { is_quay_adt_free = false }) ≡ s' = cc f in
        subst
          (λ (x : Port).
            (record x {
              barrier_queue = s.barrier_queue;
              barrier_head_idx = s.barrier_head_idx;
              is_quay_adt_free = s.is_quay_adt_free;
            })
            ≡ s)
          same
          (ap (λ (x : Port). record x { is_quay_adt_free = s.is_quay_adt_free })
            (release_vessels-Released s.num_of_cranes s t r).kept)
    go blocked r f = absurd cc
    go failed r f = absurd cc
    go fault r f = absurd cc
