-- ===== src/Game/Client/Commands/Laws.antt =====
-- What the client of C-Multiplayer-game sends to the server: the moves of its bot and of its keyboard.
use software_development_pla.Common.{
  ℕ, ◌%◌, ◌<◌, ◌≡◌, ◌≢◌, refl, ap, subst, sym, ◌∙◌, inl, inr, true, false, Option, none, some, List,
  [], ◌∷◌, arith, ◌==◌, Bool-cases, Option-cases,
}
use software_development_pla.Game.Protocol.{
  Direction, up, down, left, right, invalid_move, stopped, encode_direction, decode_direction,
}
use software_development_pla.Game.Location.{is_move}
use software_development_pla.Game.Random.{num_of_directions, to_direction}
use software_development_pla.Game.Client.Commands.{
  Moves, no_moves, Bot, bot_timer_handler, propose, send_move_command, is_move_of, press, hear,
  start_keyboard_listener, at_key, code_of,
}

abbrev pub command : ℕ → ℕ
command move = encode_direction (to_direction (move % num_of_directions))

-- Two moves with the same command are the same.
command-injective : (m n : ℕ) → m < 4 → n < 4 → command m ≡ command n → m ≡ n
unfolding encode_direction to_direction
command-injective m n hm hn e = ground arith

-- A client of a bot before its first alarm; the buffer may hold anything.
abbrev pub new_bot : (ℕ → ℕ) → Bot
new_bot garbage = record { moves = no_moves; rand_bytes = garbage; index = 0; fills = 0 }

-- The alarms and the rounds of the sender in any order, and the bytes that were sent, the last first.
pub data BotRun (getrandom : ℕ → ℕ → ℕ) (garbage : ℕ → ℕ) : Bot → List ℕ → Type 0 where
  start : BotRun getrandom garbage (new_bot garbage) []
  alarm :
      (b : Bot) (sent : List ℕ)
      → BotRun getrandom garbage b sent
      → BotRun getrandom garbage (bot_timer_handler getrandom b) sent
  send :
      (b : Bot) (m : Moves) (byte : ℕ) (sent : List ℕ)
      → BotRun getrandom garbage b sent
      → send_move_command b.moves ≡ some (m, byte)
      → BotRun getrandom garbage (record b { moves = m }) (byte ∷ sent)

-- The last byte is the command of the last move.
abbrev IsLast : Option ℕ → List ℕ → Type 0
IsLast last [] = last ≡ none
IsLast last (byte ∷ sent) = (move : ℕ) × (last ≡ some move) × (move < 4) × (byte ≡ command move)

-- Two bytes in a row differ.
abbrev pub Alternates : List ℕ → Type 0
Alternates [] = Unit
Alternates (b ∷ []) = Unit
Alternates (b ∷ c ∷ sent) = (b ≢ c) × Alternates (c ∷ sent)

record IsFair (m : Moves) (sent : List ℕ) : Type 0 where
  last : IsLast m.last_sent_move sent
  fresh : (move : ℕ) → m.current_move ≡ some move → (move < 4) × (m.last_sent_move ≢ some move)
  alternates : Alternates sent

is_move_of-ne : (o : Option ℕ) (cmd : ℕ) → is_move_of o cmd ≡ false → o ≢ some cmd
is_move_of-ne none cmd e f = cc
is_move_of-ne (some move) cmd e f = ground arith

propose-IsFair :
    (cmd : ℕ) (m : Moves) (sent : List ℕ) → cmd < 4 → IsFair m sent → IsFair (propose cmd m) sent
unfolding propose
propose-IsFair cmd m sent small fair = elim (Bool-cases (is_move_of m.last_sent_move cmd)) [
  | inl e ↦ rw (e) fair
  | inr e ↦ rw (e) (record {
    last = fair.last;
    fresh = λ move f.
        let same : cmd ≡ move = cc f in
        subst (λ k. (k < 4) × (m.last_sent_move ≢ some k)) same
          (small, is_move_of-ne m.last_sent_move cmd e);
    alternates = fair.alternates;
  })
]

bot_timer_handler-IsFair :
    (getrandom : ℕ → ℕ → ℕ) (b : Bot) (sent : List ℕ)
    → IsFair b.moves sent
    → IsFair ((bot_timer_handler getrandom b).moves) sent
unfolding bot_timer_handler
bot_timer_handler-IsFair getrandom b sent fair = elim (Bool-cases (b.index == 0)) [
  | inl e ↦ rw (e) (propose-IsFair _ _ _ (omega arith) fair)
  | inr e ↦ rw (e) (propose-IsFair _ _ _ (omega arith) fair)
]

send-IsFair :
    (m m' : Moves) (byte : ℕ) (sent : List ℕ)
    → IsFair m sent
    → send_move_command m ≡ some (m', byte)
    → IsFair m' (byte ∷ sent)
unfolding send_move_command
send-IsFair m m' byte sent fair e = elim (Option-cases m.current_move) [
  | inl idle ↦ absurd (cc (idle, e))
  | inr (move, due) ↦
      let after : Moves = record { current_move = none; last_sent_move = some move } in
      let sends : some (after, command move) ≡ some (m', byte) = rw (due) at e in
      let same : after ≡ m' = (cc sends) in
      let written : command move ≡ byte = cc sends in
      let (small, new) = fair.fresh move due in
      subst (λ x. IsFair x (byte ∷ sent)) same
        (record {
          last = (move, refl, small, sym written);
          fresh = λ other f. cc;
          alternates = go sent fair.last fair.alternates move small new written;
        })
]
  where
    go :
        (sent : List ℕ)
        → IsLast m.last_sent_move sent
        → Alternates sent
        → (move : ℕ) → move < 4
        → m.last_sent_move ≢ some move
        → command move ≡ byte
        → Alternates (byte ∷ sent)
    go [] last alt move small new written = tt
    go (b ∷ bs) (before, was, small', code) alt move small new written = (
      λ same. new (
          was
          ∙ ap some
              (command-injective before move small' small (sym code ∙ sym same ∙ sym written))),
      alt,
    )

reached-IsFair :
    (getrandom : ℕ → ℕ → ℕ) (garbage : ℕ → ℕ) (b : Bot) (sent : List ℕ)
    → BotRun getrandom garbage b sent
    → IsFair b.moves sent
reached-IsFair getrandom garbage _ _ start = record {
  last = refl;
  fresh = λ move e. cc;
  alternates = tt;
}
reached-IsFair getrandom garbage _ _ (alarm b sent r) =
    bot_timer_handler-IsFair getrandom b sent (reached-IsFair getrandom garbage b sent r)
reached-IsFair getrandom garbage _ _ (send b m byte sent r e) =
    send-IsFair b.moves m byte sent (reached-IsFair getrandom garbage b sent r) e

-- However the alarms of the bot and the rounds of the sender follow one another, and whatever bytes
-- getrandom gives, the client sends no command twice in a row.
pub bot-Alternates :
    (getrandom : ℕ → ℕ → ℕ) (garbage : ℕ → ℕ) (b : Bot) (sent : List ℕ)
    → BotRun getrandom garbage b sent
    → Alternates sent
bot-Alternates getrandom garbage b sent r = (reached-IsFair getrandom garbage b sent r).alternates

-- The bytes that a terminal sends for an arrow key.
abbrev pub arrow : Direction → List ℕ
arrow up = 27 ∷ 91 ∷ b'A' ∷ []
arrow down = 27 ∷ 91 ∷ b'B' ∷ []
arrow left = 27 ∷ 91 ∷ b'D' ∷ []
arrow right = 27 ∷ 91 ∷ b'C' ∷ []
arrow _ = []

-- Whatever the client sent before, after an arrow key the listener is ready for the next key, and the
-- next byte that the client sends is one that the server reads as the direction of that arrow.
pub arrow-decoded :
    (d : Direction) (m : Moves)
    → is_move d ≡ true
    → let (mode, m1) = start_keyboard_listener false (arrow d) at_key m in
      (mode ≡ at_key)
      × ((byte : ℕ) × (send_move_command m1
            ≡ some (record { current_move = none; last_sent_move = some (code_of d) }, byte))
          × (decode_direction byte ≡ d))
unfolding start_keyboard_listener hear press send_move_command encode_direction to_direction
    decode_direction
arrow-decoded up m h = (refl, (_, refl, refl))
arrow-decoded down m h = (refl, (_, refl, refl))
arrow-decoded left m h = (refl, (_, refl, refl))
arrow-decoded right m h = (refl, (_, refl, refl))
arrow-decoded invalid_move m h = absurd (cc h)
arrow-decoded stopped m h = absurd (cc h)
