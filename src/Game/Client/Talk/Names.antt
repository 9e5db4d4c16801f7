-- ===== src/Game/Client/Talk/Names.antt =====
-- The name that the client of C-Multiplayer-game sends to its server.
use software_development_pla.Common.{
  ℕ, zero, suc, ◌+◌, ◌<◌, ◌≤◌, ◌≡◌, ◌≢◌, refl, ap, subst, ◌∙◌, inl, inr, true, false, Option, none,
  some, List, [], ◌∷◌, ◌++◌, take, length, length-append, arith, update_self, ltb, ◌==◌, Bool-cases,
  pos, ==_iff,
}
use software_development_pla.Game.Types.{Player, received_name}
use software_development_pla.Game.Session.Types.{
  Session, returned, player_at, put_player, set_state,
}
use software_development_pla.Game.Session.Names.{
  max_name_length, max_player_name, c_string, store_name,
}
use software_development_pla.Game.Client.Updates.{buf_size}
use software_development_pla.Game.Client.Updates.Drawing.{window}
use software_development_pla.Game.Client.Talk.{Round, Talk, string_length, at_most, send_name}

-- No byte is NUL.
abbrev pub IsText : List ℕ → Type 0
IsText [] = Unit
IsText (c ∷ cs) = (c ≢ 0) × IsText cs

c_string-text : (cs rest : List ℕ) → IsText cs → c_string (cs ++ (0 ∷ rest)) ≡ cs
unfolding c_string
c_string-text [] rest text = refl
c_string-text (c ∷ cs) rest (ne, text) = elim (Bool-cases (c == 0)) [
  | inl e ↦ absurd (ne ((==_iff c 0).0 e))
  | inr e ↦ rw (e) (ap (λ t. c ∷ t) (c_string-text cs rest text))
]

ltb-true : (a b : ℕ) → a < b → ltb a b ≡ true
ltb-true a b h = ground arith

==-false : (a b : ℕ) → a ≢ b → (a == b) ≡ false
==-false a b ne = ground arith

take-short : (n : ℕ) (cs : List ℕ) → length cs ≤ n → take n cs ≡ cs
take-short zero [] h = refl
take-short zero (c ∷ cs) h = absurd (omega arith)
take-short (suc n) [] h = refl
take-short (suc n) (c ∷ cs) h = ap (λ t. c ∷ t) (take-short n cs (omega arith))

player_at-put_player :
    (i : Option ℕ) (q : Player) (e : Session) → player_at i (put_player i q e) ≡ q
unfolding player_at put_player
player_at-put_player none q e = refl
player_at-put_player (some i) q e = update_self e.server.players_info i q

named :
    (i : Option ℕ) (e : Session) (name : List ℕ)
    → let e' =
        set_state i received_name (put_player i (record (player_at i e) { name = name }) e) in
      ((player_at i e').name ≡ name) × ((player_at i e').state ≡ received_name)
unfolding set_state
named i e name =
    let q : Player = record (player_at i e) { name = name } in
    let e1 = put_player i q e in
    let stored : Player = record (player_at i e1) { state = received_name } in
    let there : player_at i (put_player i stored e1) ≡ stored = player_at-put_player i stored e1 in
    (
      ap (λ (x : Player). x.name) there ∙ ap (λ (x : Player). x.name) (player_at-put_player i q e),
      ap (λ (x : Player). x.state) there,
    )

-- A name of fewer than 30 bytes that is typed at the client arrives: the client writes it once, and the
-- server that reads what was written stores that name for the player.
pub store_name-typed :
    (round : Round) (t : Talk) (i : Option ℕ) (e : Session)
    → IsText round.typed_name
    → length round.typed_name < 30
    → (sent : List ℕ) × ((send_name none round t).written ≡ t.written ++ (sent ∷ []))
      × ((e' : Session) × (store_name i sent e ≡ returned (pos 0) e')
          × ((player_at i e').name ≡ round.typed_name)
          × ((player_at i e').state ≡ received_name))
unfolding send_name store_name
store_name-typed round t i e text short =
    let name = round.typed_name in
    let whole : take 49 name ≡ name = take-short 49 name (omega arith) in
    let cut : c_string (name ++ (0 ∷ [])) ≡ name = c_string-text name [] text in
    let size : length (name ++ (0 ∷ [])) ≡ length name + 1 = length-append name (0 ∷ []) in
    let fits : ltb (length (name ++ (0 ∷ []))) max_name_length ≡ true =
      rw (size) (ltb-true _ _ (omega arith)) in
    let fits_player : ltb (length name) max_player_name ≡ true = ltb-true _ _ short in
    (
      name ++ (0 ∷ []),
      rw (whole, cut) refl,
      (
        set_state i received_name (put_player i (record (player_at i e) { name = name }) e),
        rw (fits, cut, fits_player) refl,
        (named i e name).0,
        (named i e name).1,
      ),
    )

ends :
    (buf : ℕ → ℕ) (i k n : ℕ)
    → ((j : ℕ) → j < k → buf (i + j) ≢ 0)
    → buf (i + k) ≡ 0
    → k < n
    → string_length buf i n ≡ k
unfolding string_length
ends buf i k zero full nul h = absurd (omega arith)
ends buf i zero (suc n) full nul h =
    let now : buf i ≡ 0 = subst (λ j. buf j ≡ 0) (omega arith) nul in rw (now) refl
ends buf i (suc k) (suc n) full nul h =
    let more : (buf i == 0) ≡ false =
      ==-false _ _ (λ e. full 0 (omega arith) (subst (λ j. buf j ≡ 0) (omega arith) e)) in
    rw (more) (
      ap suc (
        ends buf (i + 1) k n
          (λ j b e. full (suc j) (omega arith) (subst (λ m. buf m ≡ 0) (omega arith) e))
          (subst (λ m. buf m ≡ 0) (omega arith) nul) (omega arith)))

-- The client that got its name as an argument writes as many bytes of it as the buffer of the control
-- bytes has up to its first NUL at `k`, that one included, whatever the length of the name, where `k`
-- is below 50.
pub send_name-given :
    (name : ℕ → ℕ) (round : Round) (t : Talk) (k : ℕ)
    → ((j : ℕ) → j < k → t.buf j ≢ 0)
    → t.buf k ≡ 0
    → k < 50
    → (send_name (some name) round t).written ≡ t.written ++ (window name 0 (k + 1) ∷ [])
unfolding send_name
send_name-given name round t k full nul h =
    let size : string_length t.buf 0 buf_size ≡ k =
      ends t.buf 0 k buf_size (λ j b e. full j b (subst (λ m. t.buf m ≡ 0) (omega arith) e))
        (subst (λ m. t.buf m ≡ 0) (omega arith) nul) (omega arith) in
    let least : at_most (k + 1) max_name_length ≡ k + 1 = ground arith in rw (size, least) refl
