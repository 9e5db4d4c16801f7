-- ===== src/Game/Session/Loop/Batches.antt =====
-- The batches of events of the loop of `epoll_setup` in
-- C-Multiplayer-game/src/server/main.c.
use software_development_pla.Common.{ℕ, ◌≡◌, refl, sym, ◌∙◌, List, [], ◌∷◌, ◌++◌}
use software_development_pla.Game.Session.Loop.{
  Event, Wait, interrupted, wait_failed, ready, Loop, Serving, serving, ended, faulty, and_serve,
  serve_event, serve_events, epoll_loop,
}

-- The events of all answers of `epoll_wait`, in their order.
abbrev pub gathered : List Wait → List Event
gathered [] = []
gathered (ready events ∷ waits) = events ++ gathered waits
gathered (_ ∷ waits) = gathered waits

unfoldable pub NoneFailed : List Wait → Type 0
NoneFailed [] = Unit
NoneFailed (wait_failed ∷ waits) = ⊥
NoneFailed (_ ∷ waits) = NoneFailed waits

module _ (listen_sock : ℕ) where
  and_serve_assoc :
      (o : Serving) (f g : Loop → Serving)
      → and_serve (and_serve o f) g ≡ and_serve o (λ l. and_serve (f l) g)
  and_serve_assoc (serving l) f g = refl
  and_serve_assoc ended f g = refl
  and_serve_assoc faulty f g = refl

  and_serve_cong :
      (o : Serving) (f g : Loop → Serving)
      → ((l : Loop) → f l ≡ g l)
      → and_serve o f ≡ and_serve o g
  and_serve_cong (serving l) f g h = h l
  and_serve_cong ended f g h = refl
  and_serve_cong faulty f g h = refl

  serve_events-append :
      (xs ys : List Event) (l : Loop)
      → serve_events listen_sock (xs ++ ys) l
        ≡ and_serve (serve_events listen_sock xs l) (serve_events listen_sock ys)
  unfolding serve_events
  serve_events-append [] ys l = refl
  serve_events-append (x ∷ xs) ys l =
      and_serve_cong (serve_event listen_sock x l) _ _ (serve_events-append xs ys)
      ∙ sym (
          and_serve_assoc (serve_event listen_sock x l) (serve_events listen_sock xs)
            (serve_events listen_sock ys))

  -- How the events are spread over the answers of `epoll_wait` makes no difference.
  pub epoll_loop-gathered :
      (waits : List Wait) (l : Loop)
      → NoneFailed waits
      → epoll_loop listen_sock waits l ≡ serve_events listen_sock (gathered waits) l
  unfolding epoll_loop serve_events NoneFailed
  epoll_loop-gathered [] l h = refl
  epoll_loop-gathered (interrupted ∷ waits) l h = epoll_loop-gathered waits l h
  epoll_loop-gathered (wait_failed ∷ waits) l h = absurd h
  epoll_loop-gathered (ready events ∷ waits) l h =
      and_serve_cong (serve_events listen_sock events l) _ _ (λ l'. epoll_loop-gathered waits l' h)
      ∙ sym (serve_events-append events (gathered waits) l)
