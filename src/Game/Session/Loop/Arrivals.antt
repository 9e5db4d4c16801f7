-- ===== src/Game/Session/Loop/Arrivals.antt =====
-- Clients that connect one after the other to the loop of `epoll_setup` in
-- C-Multiplayer-game/src/server/main.c.
use mathlib.Core.List.{append_assoc, append-nil, map}
use software_development_pla.Common.{
  ℕ, ◌+◌, ◌<◌, ◌≤◌, ◌≡◌, ◌≢◌, ◌==◌, refl, sym, ap, ◌∙◌, subst, inl, inr, true, false, none, some,
  List, [], ◌∷◌, ◌++◌, length, arith, Bool-cases, ==_iff,
}
use software_development_pla.Game.Types.{max_num_of_players}
use software_development_pla.Game.Session.Names.{get_player_index, add_to_known_players}
use software_development_pla.Game.Session.Arrival.{
  get_player_index-add, asked_session, handle_player_event-asked,
}
use software_development_pla.Game.Session.Loop.{
  Event, Wait, Loop, serving, accept_client, after_event, serve_event, serve_events, epoll_loop,
}
use software_development_pla.Game.Session.Loop.Batches.{gathered, NoneFailed, epoll_loop-gathered}
use software_development_pla.Game.Session.Loop.Slots.{
  AreNew, InSlots, KeepsKnown, asked_session-KeepsKnown, KeepsKnown-trans, asked_session-AreNew,
  get_player_index-kept, asked_session-slot, get_player_index-asked,
}

abbrev pub connection : ℕ → Event → Event
connection listen_sock client = record {
  fd = listen_sock;
  answers = record (client.answers) { accept = some client.fd; epoll_add_fails = false };
}

-- Each client is accepted, and then has its first event.
abbrev pub arrivals : ℕ → List Event → List Event
arrivals listen_sock [] = []
arrivals listen_sock (client ∷ clients) =
    connection listen_sock client ∷ client ∷ arrivals listen_sock clients

the_same : (n : ℕ) → (n == n) ≡ true
the_same n = (==_iff n n).1 refl

abbrev arrived : Event → Loop → Loop
arrived client l = record l {
  session = asked_session client.fd l.session;
  watched = l.watched ++ (client.fd ∷ []);
}

-- A client connects, and has its first event.
serve_arrival :
    (listen_sock : ℕ) (client : Event) (events : List Event) (l : Loop)
    → client.fd ≢ listen_sock
    → get_player_index client.fd l.session.server ≡ none
    → l.session.server.num_of_known_players < max_num_of_players
    → serve_events listen_sock (connection listen_sock client ∷ client ∷ events) l
      ≡ serve_events listen_sock events (arrived client l)
unfolding serve_events serve_event accept_client after_event
serve_arrival listen_sock client events l other unknown room =
    elim (Bool-cases (client.fd == listen_sock)) [
      | inl same ↦ absurd (other ((==_iff client.fd listen_sock).0 same))
      | inr differs ↦
          rw
            (
              the_same listen_sock,
              differs,
              handle_player_event-asked client.answers.net client.answers.rand client.answers.board
                  client.answers.io client.fd l.session unknown room,
            )
            refl
    ]

arrivals-InSlots :
    (listen_sock : ℕ) (clients : List Event) (l : Loop)
    → AreNew listen_sock l.session.server clients
    → l.session.server.num_of_known_players + length clients ≤ max_num_of_players
    → (l' : Loop) × (serve_events listen_sock (arrivals listen_sock clients) l ≡ serving l')
      × (l'.session.server.num_of_known_players
          ≡ l.session.server.num_of_known_players + length clients)
      × InSlots l'.session.server l.session.server.num_of_known_players clients
      × (l'.watched ≡ l.watched ++ map (λ client. client.fd) clients)
      × KeepsKnown l.session.server l'.session.server
unfolding serve_events AreNew InSlots add_to_known_players
arrivals-InSlots listen_sock [] l new room =
    (l, refl, omega arith, tt, sym (append-nil l.watched), (omega arith, λ j b. (refl, refl)))
arrivals-InSlots listen_sock (client ∷ clients) l (a, b, c, h) room =
    let e = l.session in
    let (one_more, asked) = asked_session-slot client.fd e in
    let (l', runs, num, slots, watched, kept) =
      arrivals-InSlots listen_sock clients (arrived client l)
        (asked_session-AreNew listen_sock client.fd e clients h c) (omega (arith, one_more)) in
    let n = e.server.num_of_known_players in
    (
      l',
      serve_arrival listen_sock client (arrivals listen_sock clients) l a b (omega arith) ∙ runs,
      omega (arith, one_more),
      (
        get_player_index-kept (asked_session client.fd e).server l'.session.server client.fd n
            (get_player_index-asked client.fd e client.fd
              (get_player_index-add e.server client.fd b).0)
            kept.0 (λ j below. (kept.1 j below).0),
        ap (λ q. q.state) (kept.1 n (omega (arith, one_more))).1 ∙ asked,
        subst (λ i. InSlots l'.session.server i clients) one_more slots,
      ),
      watched ∙ append_assoc l.watched (client.fd ∷ []) _,
      KeepsKnown-trans e.server (asked_session client.fd e).server l'.session.server
          (asked_session-KeepsKnown client.fd e) kept,
    )

-- While there is room, clients with new descriptors that are accepted and then have their first event get
-- the slots behind the known players in the order in which they come, each is asked for its name, and
-- its descriptor is watched: however the events are spread over the answers of `epoll_wait`, and whether
-- or not signals interrupt it in between.
pub epoll_loop-arrivals :
    (listen_sock : ℕ) (clients : List Event) (waits : List Wait) (l : Loop)
    → NoneFailed waits
    → gathered waits ≡ arrivals listen_sock clients
    → AreNew listen_sock l.session.server clients
    → l.session.server.num_of_known_players + length clients ≤ max_num_of_players
    → (l' : Loop) × (epoll_loop listen_sock waits l ≡ serving l')
      × (l'.session.server.num_of_known_players
          ≡ l.session.server.num_of_known_players + length clients)
      × InSlots l'.session.server l.session.server.num_of_known_players clients
      × (l'.watched ≡ l.watched ++ map (λ client. client.fd) clients)
epoll_loop-arrivals listen_sock clients waits l answered events new room =
    let (l', runs, num, slots, watched, _) = arrivals-InSlots listen_sock clients l new room in
    (
      l',
      epoll_loop-gathered listen_sock waits l answered
          ∙ ap (λ es. serve_events listen_sock es l) events
          ∙ runs,
      num,
      slots,
      watched,
    )
