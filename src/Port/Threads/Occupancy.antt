-- ===== src/Port/Threads/Occupancy.antt =====
-- Which vessel is at which crane of the port of Eilat, and how far its crane is with it.
pub mod Steps
pub mod Service
pub mod Kept
use software_development_pla.Common.{
  ℕ, ◌+◌, ◌-◌, ◌<◌, ◌≡◌, ◌≢◌, ◌↔◌, refl, sym, ap, subst, ◌∙◌, inl, inr, ite, Option, none, some,
  arith, update, update_self, update-ne, ℕ_discrete, Tracks, take-Tracks, give-Tracks, keep-Tracks,
  weigh, weigh-update,
}
use software_development_pla.Port.Quay.{Port}
use software_development_pla.Port.Quay.Cranes.{occupied, IsCounted}
use software_development_pla.Port.Threads.{
  Place, arriving, at_barrier, released, at_crane, let_go, away, CraneThread, Yard,
}

-- A crane is free; is called by the vessel that came; unloads it; has let it go; the vessel knows.
pub data Phase : Type 0 where
  free : Phase
  called working finished leaving : ℕ → Phase

abbrev pub id_of : Phase → Option ℕ
id_of free = none
id_of (called v) = some v
id_of (working v) = some v
id_of (finished v) = some v
id_of (leaving v) = some v

abbrev pub in_of : Phase → ℕ
in_of (called v) = 1
in_of _ = 0

abbrev pub out_of : Phase → ℕ
out_of (finished v) = 1
out_of _ = 0

abbrev pub busy_of : Phase → Option ℕ
busy_of (working v) = some v
busy_of _ = none

-- The vessel that waits at the crane, and the one that was let go.
abbrev pub waiting_at : Phase → Option ℕ
waiting_at free = none
waiting_at (called v) = some v
waiting_at (working v) = some v
waiting_at (finished v) = some v
waiting_at (leaving v) = none

abbrev pub leaving_from : Phase → Option ℕ
leaving_from (leaving v) = some v
leaving_from _ = none

-- The crane where a vessel waits, and the one that let it go.
abbrev pub waits_at : Place → Option ℕ
waits_at (at_crane c) = some c
waits_at _ = none

abbrev pub leaves_from : Place → Option ℕ
leaves_from (let_go c) = some c
leaves_from _ = none

-- An array says of each crane what its phase does.
abbrev pub Reads {ℓ} : {A : Type ℓ} → (Phase → A) → (ℕ → Phase) → (ℕ → A) → Type ℓ
Reads f phase g = (e : ℕ) → g e ≡ f (phase e)

pub record Orderly (phase : ℕ → Phase) (y : Yard) : Type 0 where
  pub ids : Reads id_of phase y.port.cranes_vessel_ids
  pub ins : Reads in_of phase y.port.cranes_in_semaphores
  pub outs : Reads out_of phase y.port.cranes_out_semaphores
  pub busy : Reads busy_of phase (λ e. (y.cranes e).busy)
  pub waiting : Tracks (λ e. waiting_at (phase e)) (λ v. waits_at (y.vessels v))
  pub going : Tracks (λ e. leaving_from (phase e)) (λ v. leaves_from (y.vessels v))
  pub within : (e v : ℕ) → id_of (phase e) ≡ some v → e < y.port.num_of_cranes
  pub counted : IsCounted y.port

-- Crane `c` changes its phase, and its entry of the array changes with it.
pub set-Reads {ℓ} :
    {A B : Type ℓ} (f : Phase → A) (h : B → A) (phase : ℕ → Phase) (k : ℕ → B) (c : ℕ) (p : Phase)
    (t : B)
    → Reads f phase (λ e. h (k e))
    → h t ≡ f p
    → Reads f (update phase c p) (λ e. h (update k c t e))
set-Reads f h phase k c p t reads here e =
    elim (ℕ_discrete c e) as (λ d. h (ite d t (k e)) ≡ f (ite d p (phase e))) [
      | yes _ ↦ here
      | no _ ↦ reads e
    ]

-- The entry stays as it is.
pub keep-Reads {ℓ} :
    {A : Type ℓ} (f : Phase → A) (phase : ℕ → Phase) (g : ℕ → A) (c : ℕ) (p : Phase)
    → Reads f phase g
    → f p ≡ f (phase c)
    → Reads f (update phase c p) g
keep-Reads f phase g c p reads same e =
    elim (ℕ_discrete c e) as (λ d. g e ≡ f (ite d p (phase e))) [
      | yes here ↦ reads e ∙ ap (λ i. f (phase i)) (sym here) ∙ sym same
      | no _ ↦ reads e
    ]

-- A view of an updated array.
of_update {ℓ κ} :
    {A : Type ℓ} {B : Type κ} (f : A → B) (g : ℕ → A) (c : ℕ) (a : A) (e : ℕ)
    → update (λ i. f (g i)) c (f a) e ≡ f (update g c a e)
of_update f g c a e = elim (ℕ_discrete c e) as (λ d. ite d (f a) (f (g e)) ≡ f (ite d a (g e))) [
  | yes _ ↦ refl
  | no _ ↦ refl
]

pub same_view {ℓ κ} :
    {A : Type ℓ} {B : Type κ} (f : A → B) (g : ℕ → A) (c : ℕ) (a : A)
    → f a ≡ f (g c)
    → (e : ℕ) → f (g e) ≡ f (update g c a e)
same_view f g c a same e = elim (ℕ_discrete c e) as (λ d. f (g e) ≡ f (ite d a (g e))) [
  | yes here ↦ ap (λ i. f (g i)) (sym here) ∙ sym same
  | no _ ↦ refl
]

pub Tracks-cong :
    {f f' g g' : ℕ → Option ℕ}
    → ((n : ℕ) → f n ≡ f' n)
    → ((c : ℕ) → g c ≡ g' c)
    → Tracks f g
    → Tracks f' g'
Tracks-cong p q tracks n c =
    (λ h. sym (q c) ∙ (tracks n c).0 (p n ∙ h), λ h. sym (p n) ∙ (tracks n c).1 (q c ∙ h))

module _ (w : Phase → Option ℕ) (u : Place → Option ℕ) (phase : ℕ → Phase) (vessels : ℕ → Place)
    (c v : ℕ) (p : Phase) (pl : Place)
    (tracks : Tracks (λ e. w (phase e)) (λ m. u (vessels m))) where
  -- Crane `c` gets vessel `v`.
  pub take-view :
      w (phase c) ≡ none
      → u (vessels v) ≡ none
      → w p ≡ some v
      → u pl ≡ some c
      → Tracks (λ e. w (update phase c p e)) (λ m. u (update vessels v pl m))
  take-view nobody idle there here =
      Tracks-cong
        (λ n. ap (λ o. update (λ e. w (phase e)) c o n) (sym there) ∙ of_update w phase c p n)
        (λ m. ap (λ o. update (λ i. u (vessels i)) v o m) (sym here) ∙ of_update u vessels v pl m)
        (take-Tracks (λ e. w (phase e)) (λ m. u (vessels m)) c v tracks nobody idle)

  pub give-view :
      u (vessels v) ≡ some c
      → w p ≡ none
      → u pl ≡ none
      → Tracks (λ e. w (update phase c p e)) (λ m. u (update vessels v pl m))
  give-view has there here =
      Tracks-cong
        (λ n. ap (λ o. update (λ e. w (phase e)) c o n) (sym there) ∙ of_update w phase c p n)
        (λ m. ap (λ o. update (λ i. u (vessels i)) v o m) (sym here) ∙ of_update u vessels v pl m)
        (give-Tracks (λ e. w (phase e)) (λ m. u (vessels m)) c v tracks has)

  -- Neither changes in this view.
  pub keep-view :
      w p ≡ w (phase c)
      → u pl ≡ u (vessels v)
      → Tracks (λ e. w (update phase c p e)) (λ m. u (update vessels v pl m))
  keep-view there here =
      Tracks-cong (same_view w phase c p there) (same_view u vessels v pl here) tracks

-- The crane of each vessel that is at one is one of the cranes.
pub set-within :
    (phase : ℕ → Phase) (n c : ℕ) (p : Phase)
    → ((e v : ℕ) → id_of (phase e) ≡ some v → e < n)
    → ((v : ℕ) → id_of p ≡ some v → c < n)
    → (e v : ℕ) → id_of (update phase c p e) ≡ some v
    → e < n
set-within phase n c p within here e v =
    elim (ℕ_discrete c e) as (λ d. id_of (ite d p (phase e)) ≡ some v → e < n) [
      | yes same ↦ λ h. subst (λ i. i < n) same (here v h)
      | no _ ↦ within e v
    ]
