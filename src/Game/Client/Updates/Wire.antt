-- ===== src/Game/Client/Updates/Wire.antt =====
-- The bytes that `send_game_updates_handler` of C-Multiplayer-game/src/server/main.c writes to one client.
use mathlib.Core.List.{append_assoc}
use software_development_pla.Common.{
  ℕ, zero, suc, ◌+◌, ◌*◌, ◌≡◌, refl, ap, sym, ◌∙◌, subst, if◌then◌else◌, Bool, true, false, ◌==◌,
  ◌&&◌, Option, none, some, List, [], ◌∷◌, ◌++◌, length, arith, Bool-cases, inl, inr,
}
use software_development_pla.Game.Protocol.{update_start, update_end}
use software_development_pla.Game.Types.{PlayerState, Cell, board_width, board_height}
use software_development_pla.Game.State.{Server}
use software_development_pla.Game.Updates.{
  WriteResult, sent, would_block, broken, UpdateWrites, Part, start_part, end_part, board_part,
  Written, symbols_from, create_symbolized_board, gets_update, send_update, send_updates,
  send_game_updates_handler,
}
use software_development_pla.Game.Client.Updates.{Dimensions, Poll}
use software_development_pla.Game.Client.Updates.Frames.{update_bytes, wire, Sized}

abbrev pub board_dimensions : Dimensions
board_dimensions = record { height = board_height; width = board_width }

-- The server at an update, and what its writes answer for the client of each slot.
pub record Tick : Type 0 where
  pub server : Server
  pub net : ℕ → UpdateWrites

-- No write of a board or of UPDATE_END fails.
abbrev pub BoardsArrive : List Tick → Type 0
BoardsArrive [] = Unit
BoardsArrive (tick ∷ ticks) =
    ((i : ℕ) → ((tick.net i).board ≡ sent) × ((tick.net i).finish ≡ sent)) × BoardsArrive ticks

abbrev pub writes_of : Tick → List Written
writes_of tick = (send_game_updates_handler tick.net tick.server).1

unfoldable pub bytes_of : Part → List ℕ
bytes_of start_part = update_start ∷ []
bytes_of (board_part board) = board
bytes_of end_part = update_end ∷ []

-- The bytes of the writes to the descriptor `fd`.
abbrev pub bytes_to : ℕ → List Written → List ℕ
bytes_to fd [] = []
bytes_to fd (w ∷ ws) =
    let rest = bytes_to fd ws in if w.fd == fd then bytes_of w.part ++ rest else rest

abbrev pub is_start : Part → Bool
is_start start_part = true
is_start _ = false

-- How many updates were begun for it.
abbrev pub starts_to : ℕ → List Written → ℕ
starts_to fd [] = 0
starts_to fd (w ∷ ws) =
    let rest = starts_to fd ws in if (w.fd == fd) && is_start w.part then suc rest else rest

-- The bytes that the client gets in those updates.
abbrev pub bytes_sent : ℕ → List Tick → List ℕ
bytes_sent fd [] = []
bytes_sent fd (tick ∷ ticks) = bytes_to fd (writes_of tick) ++ bytes_sent fd ticks

abbrev pub copies : ℕ → List ℕ → List (List ℕ) → List (List ℕ)
copies zero board rest = rest
copies (suc n) board rest = board ∷ copies n board rest

-- The board of each of those updates, as often as an update was begun for the client.
abbrev pub boards_sent : ℕ → List Tick → List (List ℕ)
boards_sent fd [] = []
boards_sent fd (tick ∷ ticks) =
    copies (starts_to fd (writes_of tick)) (create_symbolized_board tick.server)
      (boards_sent fd ticks)

-- Whole updates of one board, to any clients.
data Whole (board : List ℕ) : List Written → Type 0 where
  nothing : Whole board []
  update_to :
      (fd : ℕ) (ws : List Written)
      → Whole board ws
      → Whole board (
          record { fd = fd; part = start_part }
          ∷ record { fd = fd; part = board_part board }
          ∷ record { fd = fd; part = end_part }
          ∷ ws)

Whole-append :
    (board : List ℕ) (xs ys : List Written)
    → Whole board xs
    → Whole board ys
    → Whole board (xs ++ ys)
Whole-append board _ ys nothing g = g
Whole-append board _ ys (update_to fd ws h) g =
    update_to fd (ws ++ ys) (Whole-append board ws ys h g)

send_update-Whole :
    (net : ℕ → UpdateWrites) (i : ℕ) (state : PlayerState) (board : List ℕ) (fd : Option ℕ)
    → ((net i).board ≡ sent)
    → ((net i).finish ≡ sent)
    → Whole board (send_update net i state board fd).1
unfolding send_update
send_update-Whole net i state board none b f = nothing
send_update-Whole net i state board (some fd) board_sent end_sent =
    go (gets_update state) (net i).start refl refl
  where
    go :
        (g : Bool) (w : WriteResult)
        → gets_update state ≡ g
        → (net i).start ≡ w
        → Whole board (send_update net i state board (some fd)).1
    go false w e f = rw (send_update, e) nothing
    go true sent e f = rw (send_update, e, f, board_sent, end_sent) (update_to fd [] nothing)
    go true would_block e f = rw (send_update, e, f) nothing
    go true broken e f = rw (send_update, e, f) nothing

-- Each of the writes of an update belongs to a whole update of the board of the server.
send_updates-Whole :
    (net : ℕ → UpdateWrites) (n : ℕ) (s : Server)
    → ((i : ℕ) → ((net i).board ≡ sent) × ((net i).finish ≡ sent))
    → (create_symbolized_board (send_updates net n s).0 ≡ create_symbolized_board s)
      × Whole (create_symbolized_board s) (send_updates net n s).1
unfolding send_updates create_symbolized_board
send_updates-Whole net zero s arrive = (refl, nothing)
send_updates-Whole net (suc n) s arrive =
    let (same, shown) = send_updates-Whole net n s arrive in
    let s' = (send_updates net n s).0 in
    (
      same,
      Whole-append _ (send_updates net n s).1 _ shown (
          subst
            (λ b.
              Whole b
                (send_update net n (s'.players_info n).state (create_symbolized_board s')
                  (s'.known_players_fds n)).1)
            same
            (send_update-Whole net n _ (create_symbolized_board s') (s'.known_players_fds n)
              (arrive n).0 (arrive n).1)),
    )

bytes_to-Whole :
    (fd : ℕ) (board : List ℕ) (rest : List (List ℕ)) (ws : List Written)
    → Whole board ws
    → bytes_to fd ws ++ wire rest ≡ wire (copies (starts_to fd ws) board rest)
unfolding wire bytes_of update_bytes
bytes_to-Whole fd board rest _ nothing = refl
bytes_to-Whole fd board rest _ (update_to other ws h) = elim (Bool-cases (other == fd)) [
  | inl mine ↦ rw (mine) (
      ap (λ t. update_start ∷ t)
        (append_assoc board (update_end ∷ bytes_to fd ws) (wire rest)
          ∙ ap (λ t. board ++ (update_end ∷ t)) (bytes_to-Whole fd board rest ws h)
          ∙ sym
              (append_assoc board (update_end ∷ []) (wire (copies (starts_to fd ws) board rest)))))
  | inr differs ↦ rw (differs) (bytes_to-Whole fd board rest ws h)
]

-- The bytes are those of the boards.
pub bytes_sent-wire :
    (fd : ℕ) (ticks : List Tick)
    → BoardsArrive ticks
    → bytes_sent fd ticks ≡ wire (boards_sent fd ticks)
unfolding send_game_updates_handler wire
bytes_sent-wire fd [] h = refl
bytes_sent-wire fd (tick ∷ ticks) (arrive, h) =
    ap (λ t. bytes_to fd (writes_of tick) ++ t) (bytes_sent-wire fd ticks h)
    ∙ bytes_to-Whole fd (create_symbolized_board tick.server) (boards_sent fd ticks)
        (writes_of tick)
        (send_updates-Whole tick.net tick.server.num_of_known_players tick.server arrive).1

length-symbols_from : (cells : ℕ → Cell) (i n : ℕ) → length (symbols_from cells i n) ≡ n
unfolding symbols_from
length-symbols_from cells i zero = refl
length-symbols_from cells i (suc n) = omega (arith, length-symbols_from cells (i + 1) n)

-- Every board has the size that the client was told.
pub boards_sent-Sized :
    (chunk : ℕ → ℕ) (poll : ℕ → Poll) (fd : ℕ) (ticks : List Tick)
    → Sized board_dimensions chunk poll (boards_sent fd ticks)
unfolding create_symbolized_board
boards_sent-Sized chunk poll fd [] = tt
boards_sent-Sized chunk poll fd (tick ∷ ticks) =
    go (boards_sent-Sized chunk poll fd ticks) (starts_to fd (writes_of tick))
  where
    go :
        Sized board_dimensions chunk poll (boards_sent fd ticks)
        → (n : ℕ)
        → Sized board_dimensions chunk poll
            (copies n (create_symbolized_board tick.server) (boards_sent fd ticks))
    go rest zero = rest
    go rest (suc n) =
        (length-symbols_from tick.server.cells 0 (board_height * board_width), go rest n)
