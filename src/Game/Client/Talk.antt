-- ===== src/Game/Client/Talk.antt =====
-- `interactWithServer`, `getDimensions` and `handleDisconnection` of C-Multiplayer-game/src/client/main.c.
-- What the system calls of one round of the loop answer is a record.
pub mod Laws
pub mod Names
use software_development_pla.Common.{
  ℕ, zero, suc, ◌+◌, ltb, ◌==◌, if◌then◌else◌, Option, none, some, List, [], ◌∷◌, ◌++◌, take,
  update,
}
use software_development_pla.Game.Protocol.{
  i_need_your_name_msg, enter_your_choice_msg, game_started, client_ack_game_started,
}
use software_development_pla.Game.Session.Names.{max_name_length, c_string}
use software_development_pla.Game.Client.Updates.{Dimensions, buf_size, store}
use software_development_pla.Game.Client.Updates.Drawing.{window}

-- The read of one byte: the end of the stream, an error, or the byte.
pub data Control : Type 0 where
  closed unreadable : Control
  got : ℕ → Control

-- `typed_name` is the line that fgets finds, without a NUL, `options` what the read of the options
-- gets, `choice` what getchar returns, and a number of `none` a failed read.
pub record Round : Type 0 where
  pub control : Control
  pub typed_name : List ℕ
  pub options : List ℕ
  pub choice : ℕ
  pub height : Option ℕ
  pub width : Option ℕ

-- The buffer on the stack, and what was written to the server, one list for each call of write.
pub record Talk : Type 0 where
  pub buf : ℕ → ℕ
  pub written : List (List ℕ)

-- The loop goes on, the game begins, the server has gone, or the process exits on an error.
pub data Talked : Type 0 where
  talks : Talk → Talked
  in_game : Dimensions → Talk → Talked
  disconnected : Talked
  exited : Talked

-- `strlen`, from index `i` on, within `n` bytes.
unfoldable pub string_length : (ℕ → ℕ) → ℕ → ℕ → ℕ
string_length buf i zero = 0
string_length buf i (suc n) =
    let rest = string_length buf (i + 1) n in if buf i == 0 then 0 else suc rest

abbrev pub at_most : ℕ → ℕ → ℕ
at_most n m = if ltb n m then n else m

abbrev pub write_bytes : List ℕ → Talk → Talk
write_bytes bs t = record t { written = t.written ++ (bs ∷ []) }

-- The answer to the question for the name. `name` is the memory of the argument of the program. A
-- typed name is cut by fgets, and written up to its NUL.
unfoldable pub send_name : Option (ℕ → ℕ) → Round → Talk → Talk
send_name (some name) round t =
    write_bytes (window name 0 (at_most (string_length t.buf 0 buf_size + 1) max_name_length)) t
send_name none round t =
    let line = take 49 round.typed_name ++ (0 ∷ []) in
    write_bytes (c_string line ++ (0 ∷ [])) (record t { buf = update (store t.buf 0 line) 49 0 })

unfoldable pub send_choice : Round → Talk → Talk
send_choice round t =
    write_bytes (round.choice ∷ [])
      (record t { buf = update (store t.buf 0 (take buf_size round.options)) 0 round.choice })

unfoldable pub get_dimensions : Round → Option Dimensions
get_dimensions round = elim round.height [
  | none ↦ none
  | some h ↦ elim round.width [ none ↦ none | some w ↦ some (record { height = h; width = w }) ]
]

unfoldable pub start_game : Round → Talk → Talked
start_game round t = elim (get_dimensions round) [
  | none ↦ exited
  | some dimensions ↦ in_game dimensions (write_bytes (client_ack_game_started ∷ []) t)
]

-- With the byte `c`.
unfoldable pub answer_code : Option (ℕ → ℕ) → Round → ℕ → Talk → Talked
answer_code name round c t =
    let t' : Talk = record t { buf = update t.buf 0 c } in
    if c == i_need_your_name_msg
    then talks (send_name name round t')
    else if c == enter_your_choice_msg
    then talks (send_choice round t')
    else if c == game_started
    then start_game round t'
    else talks t'

-- The body of the loop.
unfoldable pub answer : Option (ℕ → ℕ) → Round → Talk → Talked
answer name round t = elim round.control [
  | closed ↦ disconnected
  | unreadable ↦ exited
  | got c ↦ answer_code name round c t
]

unfoldable pub interact_with_server : Option (ℕ → ℕ) → List Round → Talk → Talked
interact_with_server name [] t = talks t
interact_with_server name (round ∷ rounds) t = elim (answer name round t) [
  | talks t' ↦ interact_with_server name rounds t'
  | other ↦ other
]
