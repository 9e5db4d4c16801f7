-- ===== src/Game/Session/Loop/Slots.antt =====
-- New clients and the slots that they get, in
-- C-Multiplayer-game/src/server/main.c.
use software_development_pla.Common.{
  ℕ, ℕ_discrete, ◌+◌, ◌<◌, ◌≤◌, ◌≡◌, ◌≢◌, refl, sym, ap, ◌∙◌, inl, inr, Option, none, some, List,
  [], ◌∷◌, arith, update-ne, update_self,
}
use software_development_pla.Game.Types.{was_asked_for_name}
use software_development_pla.Game.State.{Server}
use software_development_pla.Game.Session.Types.{Session, set_state, put_player, player_at}
use software_development_pla.Game.Session.Names.{
  get_player_index, index_from, add_to_known_players, inquiry_for_player_name,
}
use software_development_pla.Game.Session.Arrival.{get_player_index_lem, asked_session}
use software_development_pla.Game.Session.Loop.{Event}

unfoldable pub Differs : ℕ → List Event → Type 0
Differs fd [] = Unit
Differs fd (client ∷ clients) = (fd ≢ client.fd) × Differs fd clients

-- No client has the descriptor of a known player, of the listening socket or of another client.
unfoldable pub AreNew : ℕ → Server → List Event → Type 0
AreNew listen_sock s [] = Unit
AreNew listen_sock s (client ∷ clients) =
    (client.fd ≢ listen_sock)
    × (get_player_index client.fd s ≡ none)
    × Differs client.fd clients
    × AreNew listen_sock s clients

-- The clients have the slots from `n` on, in their order, and were asked for their names.
unfoldable pub InSlots : Server → ℕ → List Event → Type 0
InSlots s n [] = Unit
InSlots s n (client ∷ clients) =
    (get_player_index client.fd s ≡ some n)
    × ((s.players_info n).state ≡ was_asked_for_name)
    × InSlots s (n + 1) clients

-- A descriptor keeps its slot while the known entries stay.
pub get_player_index-kept :
    (s s' : Server) (fd n : ℕ)
    → get_player_index fd s ≡ some n
    → s.num_of_known_players ≤ s'.num_of_known_players
    → ((j : ℕ) → j < s.num_of_known_players → s'.known_players_fds j ≡ s.known_players_fds j)
    → get_player_index fd s' ≡ some n
get_player_index-kept s s' fd n found grows kept = elim (get_player_index_lem s fd) [
  | inl q ↦ absurd (cc (found, q.0))
  | inr q ↦
      let (k, here, below, there, first) = q in
      elim (get_player_index_lem s' fd) [
        | inl q' ↦ absurd (q'.1 k (omega arith) (kept k below ∙ there))
        | inr q' ↦
            let (k', here', below', there', first') = q' in
            let not_before : ¬ (k' < k) = λ b. first k' b (sym (kept k' (omega arith)) ∙ there') in
            let not_after : ¬ (k < k') = λ b. first' k b (kept k below ∙ there) in
            let same : k' ≡ k = omega arith in here' ∙ ap some same ∙ sym here ∙ found
      ]
]

get_player_index-other :
    (s : Server) (fd other : ℕ)
    → get_player_index other s ≡ none
    → fd ≢ other
    → get_player_index other (add_to_known_players fd s).0 ≡ none
unfolding add_to_known_players
get_player_index-other s fd other unknown ne =
    let added = (add_to_known_players fd s).0 in
    elim (get_player_index_lem added other) [
      | inl q ↦ q.0
      | inr q ↦
          let (k, here, below, there, first) = q in
          elim (get_player_index_lem s other) [
            | inr (k', known, _, _, _) ↦ absurd (cc (unknown, known))
            | inl p ↦ elim (ℕ_discrete s.num_of_known_players k) [
              | yes last ↦ absurd (
                  ne (
                    cc (
                      ap added.known_players_fds last,
                      update_self s.known_players_fds s.num_of_known_players (some fd),
                      there,
                    )))
              | no before ↦ absurd (
                  p.1 k (omega arith) (
                    sym (update-ne s.known_players_fds s.num_of_known_players (some fd) k before)
                    ∙ there))
            ]
          ]
    ]

-- Every known entry and player stays.
abbrev pub KeepsKnown : Server → Server → Type 0
KeepsKnown s s' =
    (s.num_of_known_players ≤ s'.num_of_known_players)
    × ((j : ℕ)
        → j < s.num_of_known_players
        → (s'.known_players_fds j ≡ s.known_players_fds j) × (s'.players_info j ≡ s.players_info j))

pub asked_session-KeepsKnown :
    (fd : ℕ) (e : Session) → KeepsKnown e.server (asked_session fd e).server
unfolding add_to_known_players inquiry_for_player_name set_state put_player player_at
asked_session-KeepsKnown fd e = (
  omega arith,
  λ j b. (
    update-ne e.server.known_players_fds e.server.num_of_known_players (some fd) j
        (λ x. absurd (omega arith)),
    update-ne e.server.players_info e.server.num_of_known_players _ j (λ x. absurd (omega arith)),
  ),
)

pub KeepsKnown-trans : (s1 s2 s3 : Server) → KeepsKnown s1 s2 → KeepsKnown s2 s3 → KeepsKnown s1 s3
KeepsKnown-trans s1 s2 s3 (g, h) (g', h') = (
  omega arith,
  λ j b. let (a, c) = h j b in let (a', c') = h' j (omega arith) in (a' ∙ a, c' ∙ c),
)

pub get_player_index-asked :
    (fd : ℕ) (e : Session) (other : ℕ)
    → {found : Option ℕ} → get_player_index other (add_to_known_players fd e.server).0 ≡ found
    → get_player_index other (asked_session fd e).server ≡ found
unfolding get_player_index index_from inquiry_for_player_name set_state put_player player_at
get_player_index-asked fd e other h = h

pub asked_session-AreNew :
    (listen_sock fd : ℕ) (e : Session) (clients : List Event)
    → AreNew listen_sock e.server clients
    → Differs fd clients
    → AreNew listen_sock (asked_session fd e).server clients
unfolding AreNew Differs
asked_session-AreNew listen_sock fd e [] h d = tt
asked_session-AreNew listen_sock fd e (client ∷ clients) (a, b, c, h) (x, d) = (
  a,
  get_player_index-asked fd e client.fd (get_player_index-other e.server fd client.fd b x),
  c,
  asked_session-AreNew listen_sock fd e clients h d,
)

-- The player of the new slot.
pub asked_session-slot :
    (fd : ℕ) (e : Session)
    → let s' = (asked_session fd e).server in
      (s'.num_of_known_players ≡ e.server.num_of_known_players + 1)
      × ((s'.players_info e.server.num_of_known_players).state ≡ was_asked_for_name)
unfolding add_to_known_players inquiry_for_player_name set_state put_player player_at
asked_session-slot fd e =
    (refl, ap (λ q. q.state) (update_self e.server.players_info e.server.num_of_known_players _))
