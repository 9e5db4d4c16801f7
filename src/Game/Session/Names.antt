-- ===== src/Game/Session/Names.antt =====
-- Known clients and their names: `getPlayerIndex`, `addToKnownPlayers`, `inquiryForPlayerName` and
-- `read_name` of C-Multiplayer-game/src/server/main.c.
use software_development_pla.Common.{
  ℕ, zero, suc, ◌+◌, ◌==◌, ltb, if◌then◌else◌, Bool, false, Option, none, some, List, [], ◌∷◌,
  length, pos, update,
}
use software_development_pla.Game.Types.{was_asked_for_name, waiting_for_name, received_name}
use software_development_pla.Game.State.{Server, u32}
use software_development_pla.Game.Session.Types.{
  bytes, not_yet, failed, Io, Session, Ended, returned, stopped, fault, player_at, put_player,
  set_state, try_again_later,
}

abbrev pub max_player_name : ℕ
max_player_name = 30

abbrev pub max_name_length : ℕ
max_name_length = 50

-- The descriptor `fd` stands in the entry.
abbrev pub is_fd : ℕ → Option ℕ → Bool
is_fd fd none = false
is_fd fd (some other) = other == fd

-- The loop, with `n` entries left from `i` on.
unfoldable pub index_from : Server → ℕ → ℕ → ℕ → Option ℕ
index_from s fd i zero = none
index_from s fd i (suc n) =
    if is_fd fd (s.known_players_fds i) then some i else index_from s fd (i + 1) n

-- `none` is IT_IS_A_NEW_PLAYER.
unfoldable pub get_player_index : ℕ → Server → Option ℕ
get_player_index fd s = index_from s fd 0 s.num_of_known_players

unfoldable pub add_to_known_players : ℕ → Server → Server × ℕ
add_to_known_players fd s = (
  record s {
    known_players_fds = update s.known_players_fds s.num_of_known_players (some fd);
    num_of_known_players = s.num_of_known_players + 1;
    num_of_alive_players = u32 (s.num_of_alive_players + 1);
  },
  s.num_of_known_players,
)

unfoldable pub inquiry_for_player_name : Option ℕ → Session → Session
inquiry_for_player_name i e = set_state i was_asked_for_name e

-- The bytes before the first NUL, as `strcpy` copies them.
unfoldable pub c_string : List ℕ → List ℕ
c_string [] = []
c_string (c ∷ cs) = let rest = c_string cs in if c == 0 then [] else c ∷ rest

-- `players_info[i].name` gets the bytes that were read, if they and their NUL fit the buffers.
unfoldable pub store_name : Option ℕ → List ℕ → Session → Ended
store_name i read e =
    let name = c_string read in
    if ltb (length read) max_name_length
    then (if ltb (length name) max_player_name
        then returned (pos 0)
            (set_state i received_name (put_player i (record (player_at i e) { name = name }) e))
        else fault)
    else fault

unfoldable pub read_name : Io → Option ℕ → Session → Ended
read_name io i e = elim io.name_read [
  | bytes read ↦ elim read [
    | [] ↦
        if io.errno_again
        then returned try_again_later (set_state i waiting_for_name e)
        else stopped
    | c ∷ cs ↦ store_name i (c ∷ cs) e
  ]
  | not_yet ↦ returned try_again_later (set_state i waiting_for_name e)
  | failed ↦ stopped
]
