-- ===== src/Game/Session/Loop.antt =====
-- `epoll_setup` of C-Multiplayer-game/src/server/main.c.
pub mod Batches
pub mod Slots
pub mod Arrivals
use software_development_pla.Common.{
  ℕ, ◌==◌, if◌then◌else◌, Bool, ◌||◌, List, [], ◌∷◌, ◌++◌, Option, none, some, ℤ,
}
use software_development_pla.Game.Types.{Cell}
use software_development_pla.Game.Updates.{UpdateWrites}
use software_development_pla.Game.Session.Types.{
  Io, Session, Ended, returned, stopped, fault, updater_thread_exited,
}
use software_development_pla.Game.Session.Events.{handle_player_event, equals}

-- What the system calls answer for one event: `accept` a descriptor or an error, EPOLL_CTL_ADD and
-- `pthread_join` an error or not, and those of `handle_player_event`.
pub record Answers : Type 0 where
  pub accept : Option ℕ
  pub epoll_add_fails : Bool
  pub join_fails : Bool
  pub net : ℕ → UpdateWrites
  pub rand : ℕ → ℕ
  pub board : ℕ → Cell
  pub io : Io

-- An entry of `events`: its descriptor, and what happens when it is handled.
pub record Event : Type 0 where
  pub fd : ℕ
  pub answers : Answers

-- What `epoll_wait` answers: EINTR, another error, or the first `nfds` entries of `events`.
pub data Wait : Type 0 where
  interrupted wait_failed : Wait
  ready : List Event → Wait

-- The thread that serves the sockets, with the descriptors that it has given to epoll, in their order.
pub record Loop : Type 0 where
  pub session : Session
  pub watched : List ℕ

-- The loop goes on; the process or the thread has ended; an access out of bounds.
pub data Serving : Type 0 where
  serving : Loop → Serving
  ended faulty : Serving

-- Go on, if the loop does.
abbrev pub and_serve : Serving → (Loop → Serving) → Serving
and_serve (serving l) next = next l
and_serve other next = other

-- A new connection: `setnonblocking` returns 0 whatever happens.
unfoldable pub accept_client : Answers → Loop → Serving
accept_client a l = elim a.accept [
  | none ↦ ended
  | some client_sockfd ↦
      if a.epoll_add_fails
      then ended
      else serving (record l { watched = l.watched ++ (client_sockfd ∷ []) })
]

-- After `handle_player_event`; a `pthread_join` without an error waits until the thread of the updates
-- has ended.
unfoldable pub after_event : Answers → Loop → Ended → Serving
after_event a l (returned code e) =
    if equals code updater_thread_exited
    then (if a.join_fails then ended else serving (record l { session = e }))
    else serving (record l { session = e })
after_event a l stopped = ended
after_event a l fault = faulty

module _ (listen_sock : ℕ) where
  unfoldable pub serve_event : Event → Loop → Serving
  serve_event event l =
      let a = event.answers in
      if event.fd == listen_sock
      then accept_client a l
      else after_event a l (handle_player_event a.net a.rand a.board a.io event.fd l.session)

  -- The loop over the events of one `epoll_wait`.
  unfoldable pub serve_events : List Event → Loop → Serving
  serve_events [] l = serving l
  serve_events (event ∷ events) l = and_serve (serve_event event l) (serve_events events)

  -- The endless loop, up to the end of a list of answers of `epoll_wait`.
  unfoldable pub epoll_loop : List Wait → Loop → Serving
  epoll_loop [] l = serving l
  epoll_loop (interrupted ∷ waits) l = epoll_loop waits l
  epoll_loop (wait_failed ∷ waits) l = ended
  epoll_loop (ready events ∷ waits) l = and_serve (serve_events events l) (epoll_loop waits)

  -- `epoll_create1`, EPOLL_CTL_ADD of the listening socket, and the loop.
  unfoldable pub epoll_setup : Bool → Bool → List Wait → Session → Serving
  epoll_setup create_fails add_fails waits e =
      if create_fails || add_fails
      then ended
      else epoll_loop waits (record { session = e; watched = listen_sock ∷ [] })
