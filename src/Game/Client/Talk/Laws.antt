-- ===== src/Game/Client/Talk/Laws.antt =====
-- The talk of the client of C-Multiplayer-game with its server, up to the start of a game.
use software_development_pla.Common.{
  ℕ, ◌+◌, ◌≡◌, ◌≢◌, refl, inl, inr, false, Option, none, some, List, [], ◌∷◌, ◌++◌, length,
  length-append, arith, update, ◌==◌, if◌then◌else◌, Bool-cases, pos,
}
use software_development_pla.Game.Protocol.{
  i_need_your_name_msg, enter_your_choice_msg, game_started, client_ack_game_started,
}
use software_development_pla.Game.Session.Types.{Io, bytes}
use software_development_pla.Game.Session.Commands.{get_user_ack}
use software_development_pla.Game.Client.Talk.{
  Round, got, Talk, talks, in_game, send_name, send_choice, get_dimensions, start_game, answer,
  answer_code, interact_with_server,
}

==-false : (a b : ℕ) → a ≢ b → (a == b) ≡ false
==-false a b ne = ground arith

length-send_name :
    (name : Option (ℕ → ℕ)) (round : Round) (t : Talk)
    → length ((send_name name round t).written) ≡ length t.written + 1
unfolding send_name
length-send_name none round t = length-append t.written (_ ∷ [])
length-send_name (some name) round t = length-append t.written (_ ∷ [])

-- The client is asked, and the game does not begin.
abbrev pub Asks : Round → Type 0
Asks round = (c : ℕ) × (round.control ≡ got c) × (c ≢ game_started)

abbrev pub AllAsk : List Round → Type 0
AllAsk [] = Unit
AllAsk (round ∷ rounds) = Asks round × AllAsk rounds

-- The answers that a control byte gets.
abbrev pub is_question : ℕ → ℕ
is_question c = if c == i_need_your_name_msg then 1 else if c == enter_your_choice_msg then 1 else 0

abbrev pub questions : List Round → ℕ
questions [] = 0
questions (round ∷ rounds) = elim round.control [ got c ↦ is_question c | _ ↦ 0 ] + questions rounds

answer-got :
    (name : Option (ℕ → ℕ)) (round : Round) (t : Talk) (c : ℕ)
    → round.control ≡ got c
    → answer name round t ≡ answer_code name round c t
unfolding answer
answer-got name round t c e = simp (answer, e)

answer_code-asks :
    (name : Option (ℕ → ℕ)) (round : Round) (c : ℕ) (t : Talk)
    → c ≢ game_started
    → (t' : Talk) × (answer_code name round c t ≡ talks t')
      × (length t'.written ≡ length t.written + is_question c)
unfolding answer_code send_choice
answer_code-asks name round c t ne = elim (Bool-cases (c == i_need_your_name_msg)) [
  | inl asks ↦ (
    send_name name round t1,
    rw (answer_code, asks) refl,
    rw (asks) (length-send_name name round t1),
  )
  | inr other ↦ elim (Bool-cases (c == enter_your_choice_msg)) [
    | inl asks ↦ (
      send_choice round t1,
      rw (answer_code, other, asks) refl,
      rw (other, asks) (length-append t.written ((round.choice ∷ []) ∷ [])),
    )
    | inr neither ↦ (
      t1,
      rw (answer_code, other, neither, ==-false c game_started ne) refl,
      rw (other, neither) (omega arith),
    )
  ]
]
  where
    t1 : Talk
    t1 = record t { buf = update t.buf 0 c }

counted :
    (round : Round) (c : ℕ)
    → round.control ≡ got c
    → (elim round.control [ got d ↦ is_question d | _ ↦ 0 ]) ≡ is_question c
counted round c e = simp (e)

-- Whatever the server asks, in any order, before it starts the game: the client answers each question
-- for its name and each for its choice with one write, enters the game with the dimensions that it then
-- reads, and last writes the byte that the server takes as the acknowledgement.
pub interact_with_server-in_game :
    (name : Option (ℕ → ℕ)) (rounds : List Round) (last : Round) (h w : ℕ) (t : Talk)
    → AllAsk rounds
    → last.control ≡ got game_started
    → last.height ≡ some h
    → last.width ≡ some w
    → (t' : Talk) × (ack : List ℕ) × (interact_with_server name (rounds ++ (last ∷ [])) t
        ≡ in_game
            (record { height = h; width = w })
            (record t' { written = t'.written ++ (ack ∷ []) }))
      × (length t'.written ≡ length t.written + questions rounds)
      × ((io : Io) → io.ack_read ≡ bytes ack → get_user_ack io ≡ pos 0)
unfolding interact_with_server answer_code start_game get_dimensions get_user_ack
interact_with_server-in_game name [] last h w t ask starts high wide = (
  record t { buf = update t.buf 0 game_started },
  client_ack_game_started ∷ [],
  rw (interact_with_server, answer-got name last t game_started starts, answer_code, high, wide)
      refl,
  omega arith,
  λ io e. rw (e) refl,
)
interact_with_server-in_game name (round ∷ rounds) last h w t (ask, asks) starts high wide =
    let (c, control, other) = ask in
    let (t1, e, more) = answer_code-asks name round c t other in
    let (t', ack, ends, count, accepted) =
      interact_with_server-in_game name rounds last h w t1 asks starts high wide in
    (
      t',
      ack,
      rw (interact_with_server, answer-got name round t c control, e) ends,
      omega (arith, more, count, counted round c control),
      accepted,
    )
