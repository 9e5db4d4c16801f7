-- ===== src/Common/Family.antt =====
-- Arrays as families `ℕ → A`: a write at one index, and weighted sums over the first `n` entries.
use Prim.Native.Nat.{ℕ, zero, suc, ◌+◌, ◌≤◌, ◌<◌}
use mathlib.Core.Path.{◌≡◌, refl}
use mathlib.Core.Logic.{◌≢◌, ite}
use native.Mathlib.Decide.{ℕ_discrete}
use native.Mathlib.Omega.{arith}

abbrev pub update {ℓ} : {A : Type ℓ} → (ℕ → A) → ℕ → A → ℕ → A
update f i a j = ite (ℕ_discrete i j) a (f j)

-- To prove a property of an entry after a write.
pub update_elim {ℓ κ} :
    {A : Type ℓ} (P : A → Type κ) (f : ℕ → A) (i : ℕ) (a : A) (j : ℕ)
    → (i ≡ j → P a)
    → (i ≢ j → P (f j))
    → P (update f i a j)
update_elim P f i a j here there = elim (ℕ_discrete i j) as (λ d. P (ite d a (f j))) [
  | yes e ↦ here e
  | no ne ↦ there ne
]

pub update_self {ℓ} : {A : Type ℓ} (f : ℕ → A) (i : ℕ) (a : A) → update f i a i ≡ a
update_self f i a = update_elim (λ x. x ≡ a) f i a i (λ _. refl) (λ ne. absurd (ne refl))

pub update-ne {ℓ} : {A : Type ℓ} (f : ℕ → A) (i : ℕ) (a : A) (j : ℕ) → i ≢ j → update f i a j ≡ f j
update-ne f i a j ne = update_elim (λ x. x ≡ f j) f i a j (λ e. absurd (ne e)) (λ _. refl)

-- The sum of the weights of the first `n` entries.
unfoldable pub weigh {ℓ} : {A : Type ℓ} → (A → ℕ) → (ℕ → A) → ℕ → ℕ
weigh w f zero = 0
weigh w f (suc n) = w (f n) + weigh w f n

pub weigh-eq_of_agree {ℓ} :
    {A : Type ℓ} (w : A → ℕ) (f g : ℕ → A) (n : ℕ)
    → ((i : ℕ) → i < n → f i ≡ g i)
    → weigh w f n ≡ weigh w g n
unfolding weigh
weigh-eq_of_agree w f g zero agree = refl
weigh-eq_of_agree w f g (suc n) agree =
    rw (agree n (omega arith), weigh-eq_of_agree w f g n (λ i h. agree i (omega arith))) refl

pub weigh-update_beyond {ℓ} :
    {A : Type ℓ} (w : A → ℕ) (f : ℕ → A) (n i : ℕ) (a : A)
    → n ≤ i
    → weigh w (update f i a) n ≡ weigh w f n
weigh-update_beyond w f n i a h =
    weigh-eq_of_agree w (update f i a) f n (λ j below. update-ne f i a j (λ e. omega arith))

-- One write replaces one weight by another.
pub weigh-update {ℓ} :
    {A : Type ℓ} (w : A → ℕ) (f : ℕ → A) (n i : ℕ) (a : A)
    → i < n
    → w (f i) + weigh w (update f i a) n ≡ w a + weigh w f n
unfolding weigh
weigh-update w f zero i a h = absurd (omega arith)
weigh-update w f (suc n) i a h = elim (ℕ_discrete i n) [
  | yes last ↦ ground (arith, weigh-update_beyond w f n i a, last)
  | no ne ↦ ground (arith, weigh-update w f n i a)
]

pub weigh-eq-zero {ℓ} :
    {A : Type ℓ} (w : A → ℕ) (f : ℕ → A) (n : ℕ) → ((i : ℕ) → w (f i) ≡ 0) → weigh w f n ≡ 0
unfolding weigh
weigh-eq-zero w f zero light = refl
weigh-eq-zero w f (suc n) light = rw (light n, weigh-eq-zero w f n light) refl

-- An entry weighs no more than the sum that it stands in.
pub le-weigh {ℓ} : {A : Type ℓ} (w : A → ℕ) (f : ℕ → A) (n i : ℕ) → i < n → w (f i) ≤ weigh w f n
unfolding weigh
le-weigh w f zero i h = absurd (omega arith)
le-weigh w f (suc n) i h = elim (ℕ_discrete i n) [
  | yes last ↦ rw (last) (omega arith)
  | no ne ↦ omega (arith, le-weigh w f n i)
]

pub weigh-write_next {ℓ} :
    {A : Type ℓ} (w : A → ℕ) (f : ℕ → A) (n : ℕ) (a : A)
    → weigh w (update f n a) (suc n) ≡ w a + weigh w f n
unfolding weigh
weigh-write_next w f n a = rw (weigh-update_beyond w f n n a (omega arith), update_self f n a) refl
