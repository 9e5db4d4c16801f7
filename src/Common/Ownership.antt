-- ===== src/Common/Ownership.antt =====
-- Two tables that say the same from both sides: who has the thing `n`, and which thing `c` has.
use Prim.Native.Nat.{ℕ}
use mathlib.Core.Path.{◌≡◌}
use mathlib.Core.Logic.{◌↔◌, ◌≢◌, inl, inr}
use mathlib.Core.Option.{Option, none, some}
use native.Mathlib.Omega.{arith}
use software_development_pla.Common.Family.{update}
use software_development_pla.Common.Tests.{Option-cases}

abbrev pub Tracks : (ℕ → Option ℕ) → (ℕ → Option ℕ) → Type 0
Tracks f g = (n c : ℕ) → (f n ≡ some c) ↔ (g c ≡ some n)

-- `c`, which had nothing, takes the free thing `n`.
pub take-Tracks :
    (f g : ℕ → Option ℕ) (n c : ℕ)
    → Tracks f g
    → f n ≡ none
    → g c ≡ none
    → Tracks (update f n (some c)) (update g c (some n))
take-Tracks f g n c tracks free idle m e = ground (arith, tracks m e, tracks n e, tracks m c)

-- `c` gives back what it had.
pub give-Tracks :
    (f g : ℕ → Option ℕ) (m c : ℕ)
    → Tracks f g
    → g c ≡ some m
    → Tracks (update f m none) (update g c none)
give-Tracks f g m c tracks has n e = ground (arith, tracks n e, tracks m e, tracks n c)

-- `c` takes the free thing `n` and then gives back what it had.
pub swap-Tracks :
    (f g : ℕ → Option ℕ) (n m c : ℕ)
    → Tracks f g
    → f n ≡ none
    → g c ≡ some m
    → Tracks (update (update f n (some c)) m none) (update g c (some n))
swap-Tracks f g n m c tracks free has k e =
    ground (arith, tracks k e, tracks m e, tracks k c, tracks n e, tracks m c)

-- A thing that nobody has.
pub free-Tracks : (f g : ℕ → Option ℕ) (n : ℕ) → Tracks f g → ((c : ℕ) → g c ≢ some n) → f n ≡ none
free-Tracks f g n tracks nobody = elim (Option-cases (f n)) [
  | inl free ↦ free
  | inr q ↦ absurd (nobody q.0 ((tracks n q.0).0 q.1))
]

pub keep-Tracks :
    (f g : ℕ → Option ℕ) (c : ℕ) (o : Option ℕ) → Tracks f g → g c ≡ o → Tracks f (update g c o)
keep-Tracks f g c o tracks has n e = ground (arith, tracks n e, tracks n c)
