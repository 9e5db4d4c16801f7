-- ===== src/Game/Session/Arrival.antt =====
-- Clients that connect: what `getPlayerIndex`, `addToKnownPlayers` and the first event of a client do,
-- in C-Multiplayer-game/src/server/main.c.
use software_development_pla.Common.{
  ℕ, ℕ_discrete, zero, suc, ◌+◌, ◌<◌, ◌≤◌, ◌≡◌, ◌≢◌, ◌⊎◌, ◌↔◌, refl, sym, ap, subst, inl, inr, ltb,
  ==_iff, true, false, Option, none, some, arith, pos, update_self, update-ne, Bool-cases, ◌∙◌,
}
use software_development_pla.Game.Types.{
  Cell, just_logged_in, was_asked_for_name, max_num_of_players,
}
use software_development_pla.Game.State.{Server, u32}
use software_development_pla.Game.Updates.{UpdateWrites}
use software_development_pla.Game.Session.Types.{
  Io, Session, returned, player_at, is_in_state, set_state, put_player,
}
use software_development_pla.Game.Session.Names.{
  is_fd, index_from, get_player_index, add_to_known_players, inquiry_for_player_name,
}
use software_development_pla.Game.Session.Events.{
  welcome, handle_player_event, ask_stage, name_stage, menu_stage, options_stage, choice_stage,
}

is_fd_iff : (fd : ℕ) (o : Option ℕ) → (is_fd fd o ≡ true) ↔ (o ≡ some fd)
is_fd_iff fd none = (λ e. cc, λ e. cc)
is_fd_iff fd (some other) = (λ e. ap some ((==_iff other fd).0 e), λ e. (==_iff other fd).1 (cc))

-- What the loop from `i` on finds.
index_from_lem :
    (s : Server) (fd i n : ℕ)
    → ((index_from s fd i n ≡ none)
        × ((j : ℕ) → i ≤ j → j < i + n → s.known_players_fds j ≢ some fd))
      ⊎ ((k : ℕ) × (index_from s fd i n ≡ some k)
          × (i ≤ k)
          × (k < i + n)
          × (s.known_players_fds k ≡ some fd)
          × ((j : ℕ) → i ≤ j → j < k → s.known_players_fds j ≢ some fd))
unfolding index_from
index_from_lem s fd i zero = inl (refl, λ j a b. absurd (omega arith))
index_from_lem s fd i (suc n) = elim (Bool-cases (is_fd fd (s.known_players_fds i))) [
  | inl here ↦ inr (
    i,
    rw (here) refl,
    omega arith,
    omega arith,
    (is_fd_iff fd _).0 here,
    λ j a b. absurd (omega arith),
  )
  | inr elsewhere ↦ elim (index_from_lem s fd (i + 1) n) [
    | inl q ↦ inl (rw (elsewhere) q.0, λ j a b. later elsewhere j a (λ c. q.1 j c (omega arith)))
    | inr q ↦
        let (k, found, above, below, there, first) = q in
        inr (
          k,
          rw (elsewhere) found,
          omega arith,
          omega arith,
          there,
          λ j a b. later elsewhere j a (λ c. first j c b),
        )
  ]
]
  where
    later :
        is_fd fd (s.known_players_fds i) ≡ false
        → (j : ℕ) → i ≤ j
        → (i + 1 ≤ j → s.known_players_fds j ≢ some fd)
        → s.known_players_fds j ≢ some fd
    later elsewhere j a rest e = elim (ℕ_discrete i j) [
      | yes same ↦ absurd (
          cc (
            elsewhere,
            (is_fd_iff fd (s.known_players_fds i)).1
                (subst (λ x. s.known_players_fds x ≡ some fd) (sym same) e),
          ))
      | no ne ↦ rest (omega arith) e
    ]

-- `getPlayerIndex` finds the first of the known entries with the descriptor, or reports that none of
-- them has it.
pub get_player_index_lem :
    (s : Server) (fd : ℕ)
    → ((get_player_index fd s ≡ none)
        × ((j : ℕ) → j < s.num_of_known_players → s.known_players_fds j ≢ some fd))
      ⊎ ((k : ℕ) × (get_player_index fd s ≡ some k)
          × (k < s.num_of_known_players)
          × (s.known_players_fds k ≡ some fd)
          × ((j : ℕ) → j < k → s.known_players_fds j ≢ some fd))
unfolding get_player_index
get_player_index_lem s fd = elim (index_from_lem s fd 0 s.num_of_known_players) [
  | inl q ↦ inl (q.0, λ j below. q.1 j (omega arith) (omega arith))
  | inr q ↦
      let (k, found, _, below, there, first) = q in
      inr (k, found, omega arith, there, λ j b. first j (omega arith) b)
]

-- A client that is not known yet is found, once it is added, at the index that `addToKnownPlayers`
-- returned.
pub get_player_index-add :
    (s : Server) (fd : ℕ)
    → get_player_index fd s ≡ none
    → let (s', n) = add_to_known_players fd s in
      (get_player_index fd s' ≡ some n) × (n < s'.num_of_known_players)
unfolding add_to_known_players
get_player_index-add s fd unknown =
    let added = (add_to_known_players fd s).0 in
    let here : added.known_players_fds s.num_of_known_players ≡ some fd =
      update_self s.known_players_fds s.num_of_known_players (some fd) in
    elim (get_player_index_lem added fd) [
      | inl q ↦ absurd (q.1 s.num_of_known_players (omega arith) here)
      | inr q ↦
          let (k, found, below, there, first) = q in
          elim (ℕ_discrete k s.num_of_known_players) [
            | yes last ↦ (found ∙ ap some last, omega arith)
            | no ne ↦ absurd (
                unknown_fd k (omega arith) (
                  sym (
                    update-ne s.known_players_fds s.num_of_known_players (some fd) k
                      (λ e. ne (sym e)))
                  ∙ there))
          ]
    ]
  where
    unknown_fd : (j : ℕ) → j < s.num_of_known_players → s.known_players_fds j ≢ some fd
    unknown_fd j below = elim (get_player_index_lem s fd) [
      | inl q ↦ q.1 j below
      | inr q ↦ absurd (cc (unknown, q.1))
    ]

-- The server after the first event of a client: it is added, and asked for its name.
abbrev pub asked_session : ℕ → Session → Session
asked_session fd e = inquiry_for_player_name (some e.server.num_of_known_players) (record e {
  server = (add_to_known_players fd e.server).0;
  stray = record e.stray {
    state = just_logged_in;
    index = e.server.num_of_known_players;
    has_superpower = false;
  };
})

pub handle_player_event-asked :
    (net : ℕ → UpdateWrites) (rand : ℕ → ℕ) (board : ℕ → Cell) (io : Io) (fd : ℕ) (e : Session)
    → get_player_index fd e.server ≡ none
    → e.server.num_of_known_players < max_num_of_players
    → handle_player_event net rand board io fd e ≡ returned (pos 0) (asked_session fd e)
unfolding handle_player_event welcome ask_stage name_stage menu_stage options_stage choice_stage
    inquiry_for_player_name add_to_known_players set_state put_player player_at is_in_state
handle_player_event-asked net rand board io fd e unknown room =
    rw (handle_player_event, unknown, welcome, has_room) refl
  where
    has_room : ltb e.server.num_of_known_players max_num_of_players ≡ true
    has_room = ground arith

-- The first event of a client, while there is room, asks it for its name: the client gets the next
-- slot, whose player waits for a name, and one more player counts as alive. The new index goes to
-- `players_info[-1]`, whatever the slot holds: the index of the player of the slot stays as it was.
pub handle_player_event-new :
    (net : ℕ → UpdateWrites) (rand : ℕ → ℕ) (board : ℕ → Cell) (io : Io) (fd : ℕ) (e : Session)
    → get_player_index fd e.server ≡ none
    → e.server.num_of_known_players < max_num_of_players
    → (e' : Session) × (handle_player_event net rand board io fd e ≡ returned (pos 0) e')
      × (e'.server.num_of_known_players ≡ e.server.num_of_known_players + 1)
      × (e'.server.num_of_alive_players ≡ u32 (e.server.num_of_alive_players + 1))
      × (get_player_index fd e'.server ≡ some e.server.num_of_known_players)
      × ((e'.server.players_info e.server.num_of_known_players).state ≡ was_asked_for_name)
      × ((e'.server.players_info e.server.num_of_known_players).index
          ≡ (e.server.players_info e.server.num_of_known_players).index)
      × (e'.stray.index ≡ e.server.num_of_known_players)
unfolding inquiry_for_player_name add_to_known_players set_state put_player player_at
    get_player_index index_from
handle_player_event-new net rand board io fd e unknown room = (
  asked_session fd e,
  handle_player_event-asked net rand board io fd e unknown room,
  refl,
  refl,
  (get_player_index-add e.server fd unknown).0,
  ap (λ q. q.state) asked,
  ap (λ q. q.index) asked,
  refl,
)
  where
    n : ℕ
    n = e.server.num_of_known_players

    asked :
        (asked_session fd e).server.players_info n
        ≡ record (e.server.players_info n) { state = was_asked_for_name }
    asked = update_self e.server.players_info n _
