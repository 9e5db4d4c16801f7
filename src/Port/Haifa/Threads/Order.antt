-- ===== src/Port/Haifa/Threads/Order.antt =====
-- What is so of the threads of HaifaPort.c at any time.
use software_development_pla.Common.{
  ℕ, ◌+◌, ◌≤◌, ◌≡◌, ◌≢◌, ◌⊎◌, ◌↔◌, refl, sym, ap, subst, ◌∙◌, inl, inr, Bool, true, false, none,
  some, arith, ltb, update_self, update-ne, ℕ_discrete, Bool-cases, weigh, weigh-eq-zero,
}
use software_development_pla.Port.Haifa.Threads.{
  Place, not_created, starting, crossing, sent, waiting, home, Leg, at_haifa, at_eilat, back,
  Harbour, new_harbour, put, create_thread,
}

-- What the leg and the semaphore of a vessel can be.
unfoldable pub Fit : Place → Leg → ℕ → Type 0
Fit not_created l s = (l ≡ at_haifa) × (s ≡ 0)
Fit starting l s = (l ≡ at_haifa) × (s ≡ 0)
Fit crossing l s = (l ≡ at_haifa) × (s ≡ 0)
Fit sent l s = ((l ≡ at_eilat) × (s ≡ 0)) ⊎ ((l ≡ back) × (s ≡ 1))
Fit waiting l s = ((l ≡ at_eilat) × (s ≡ 0)) ⊎ ((l ≡ back) × (s ≡ 1))
Fit home l s = (l ≡ back) × (s ≡ 0)

abbrev pub holds : Place → Bool
holds crossing = true
holds sent = true
holds _ = false

abbrev pub exists : Place → Bool
exists not_created = false
exists _ = true

abbrev pub is_back : Leg → ℕ
is_back back = 1
is_back _ = 0

-- What is so of one vessel.
pub record Fine (h : Harbour) (v : ℕ) : Type 0 where
  pub fit : Fit (h.places v) (h.legs v) (h.semaphores v)
  pub held : (holds (h.places v) ≡ true) ↔ (h.mutex ≡ some v)
  pub there : exists (h.places v) ≡ ltb v h.created

pub record Orderly (n : ℕ) (h : Harbour) : Type 0 where
  pub each : (v : ℕ) → Fine h v
  pub created : h.created ≤ n
  pub counted : h.completed ≡ weigh is_back h.legs n

-- Nothing has changed for this vessel.
abbrev pub Same : Harbour → Harbour → ℕ → Type 0
Same h h' v =
    (h'.places v ≡ h.places v)
    × (h'.legs v ≡ h.legs v)
    × (h'.semaphores v ≡ h.semaphores v)
    × ((h.mutex ≡ some v) ↔ (h'.mutex ≡ some v))
    × (ltb v h'.created ≡ ltb v h.created)

Same-Fine : (h h' : Harbour) (v : ℕ) → Same h h' v → Fine h v → Fine h' v
Same-Fine h h' v (p, l, s, m, c) o = record {
  fit = rw (p, l, s) o.fit;
  held = (λ e. m.0 (o.held.0 (ap holds (sym p) ∙ e)), λ e. ap holds p ∙ o.held.1 (m.1 e));
  there = ap exists p ∙ o.there ∙ sym c;
}

-- A step changes one vessel.
pub change-Orderly :
    (n v : ℕ) (h h' : Harbour)
    → Orderly n h
    → ((j : ℕ) → v ≢ j → Same h h' j)
    → Fine h' v
    → h'.created ≤ n
    → h'.completed ≡ weigh is_back h'.legs n
    → Orderly n h'
change-Orderly n v h h' o same mine created counted = record {
  each = λ j. elim (ℕ_discrete v j) [
    | yes e ↦ subst (Fine h') e mine
    | no ne ↦ Same-Fine h h' j (same j ne) (o.each j)
  ];
  created = created;
  counted = counted;
}

pub new_harbour-Orderly : (n : ℕ) → Orderly n new_harbour
unfolding new_harbour Fit
new_harbour-Orderly n = record {
  each = λ v. record {
    fit = (refl, refl);
    held = (λ e. absurd (cc e), λ e. absurd (cc e));
    there = ground arith;
  };
  created = omega arith;
  counted = sym (weigh-eq-zero is_back (λ _. at_haifa) n (λ i. refl));
}

-- A vessel is at a new place.
pub put-Fine :
    (h : Harbour) (v : ℕ) (p : Place)
    → Fit p (h.legs v) (h.semaphores v)
    → ((holds p ≡ true) ↔ (h.mutex ≡ some v))
    → exists p ≡ ltb v h.created
    → Fine (put v p h) v
put-Fine h v p fit held there =
    let now = update_self h.places v p in
    record { fit = rw (now) fit; held = rw (now) held; there = rw (now) there }

pub exists-eq-false : (p : Place) → exists p ≡ false → p ≡ not_created
exists-eq-false not_created e = refl
exists-eq-false starting e = absurd (cc e)
exists-eq-false crossing e = absurd (cc e)
exists-eq-false sent e = absurd (cc e)
exists-eq-false waiting e = absurd (cc e)
exists-eq-false home e = absurd (cc e)

pub Fit-at :
    (h : Harbour) (v : ℕ) (p : Place)
    → Fine h v
    → h.places v ≡ p
    → Fit p (h.legs v) (h.semaphores v)
Fit-at h v p o e = subst (λ q. Fit q (h.legs v) (h.semaphores v)) e o.fit

pub create_thread-Orderly :
    (n : ℕ) (h h' : Harbour) → Orderly n h → create_thread n h ≡ some h' → Orderly n h'
unfolding create_thread Fit
create_thread-Orderly n h h' o e = elim (Bool-cases (ltb h.created n)) [
  | inr full ↦ absurd (cc (the_full full, e))
  | inl room ↦ subst (Orderly n) (cc (the_room room, e)) (
      change-Orderly n h.created h next o
        (λ j ne.
          (update-ne h.places h.created starting j ne, refl, refl, (λ x. x, λ x. x), ground arith))
        (put-Fine (record h { created = h.created + 1 }) h.created starting
          (Fit-at h h.created not_created mine new)
          (λ x. absurd (cc x), λ x. absurd (cc (mine.held.1 x, new))) (ground arith))
        (ground arith) o.counted)
]
  where
    mine : Fine h h.created
    mine = o.each h.created

    new : h.places h.created ≡ not_created
    new = exists-eq-false (h.places h.created) (mine.there ∙ ground arith)

    next : Harbour
    next = put h.created starting (record h { created = h.created + 1 })

    the_full : ltb h.created n ≡ false → create_thread n h ≡ none
    the_full full = rw (create_thread, full) refl

    the_room : ltb h.created n ≡ true → create_thread n h ≡ some next
    the_room room = rw (create_thread, room) refl
