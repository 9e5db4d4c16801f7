-- ===== src/Game/Client/Updates/Errors.antt =====
-- Updates that `receiveUpdates` of C-Multiplayer-game/src/client/main.c does not draw whole, and the end
-- of the game.
use software_development_pla.Common.{
  ℕ, suc, ◌+◌, ◌*◌, ◌<◌, ◌≤◌, ◌≡◌, ◌≢◌, refl, ap, ◌∙◌, sym, inl, inr, true, false, some, List, [],
  ◌∷◌, ◌++◌, length, take, drop, take-append, drop-append, arith, update, update_self, leb, ◌==◌,
  Bool-cases, ==_iff, ◌-◌,
}
use software_development_pla.Game.Protocol.{update_start, update_end, game_over}
use software_development_pla.Game.Client.Updates.{
  Dimensions, Poll, ready, Reader, Received, ended, exited, read, store, check_end, show_board,
  act_on_code, find_code, is_code, receive_update, buf_size, print_board,
}
use software_development_pla.Game.Client.Updates.Frames.{find_code-next, read-whole}

-- No byte is a code.
abbrev pub IsNoise : List ℕ → Type 0
IsNoise [] = Unit
IsNoise (b ∷ bs) = (is_code b ≡ false) × IsNoise bs

find_code-noise :
    (c : ℕ) (noise rest : List ℕ) (d n : ℕ)
    → is_code c ≡ false
    → IsNoise noise
    → is_code d ≡ true
    → find_code c (noise ++ (d ∷ rest)) n ≡ some (d, rest, n + length noise + 1)
unfolding find_code
find_code-noise c [] rest d n clear noise code =
    find_code-next c d rest n clear code ∙ ap (λ k. some (d, rest, k)) (omega arith)
find_code-noise c (b ∷ noise) rest d n clear (clear_b, noisy) code = rw (clear) (
    find_code-noise b noise rest d (n + 1) clear_b noisy code
    ∙ ap (λ k. some (d, rest, k)) (omega arith))

module _ (dim : Dimensions) (chunk : ℕ → ℕ) (poll : ℕ → Poll) where
  -- When bytes are there and the first code among them, from the byte in the buffer on, is GAME_OVER,
  -- the loop ends: nothing is drawn, and what stands behind the code stays in the socket.
  pub receive_update-game_over :
      (noise rest : List ℕ) (r : Reader)
      → is_code (r.buf 0) ≡ false
      → IsNoise noise
      → r.incoming ≡ noise ++ (game_over ∷ rest)
      → poll r.polls ≡ ready
      → (r' : Reader) × (receive_update dim chunk poll r ≡ ended r')
        × (r'.screen ≡ r.screen)
        × (r'.incoming ≡ rest)
  unfolding receive_update act_on_code is_code
  receive_update-game_over noise rest r clear noisy here now = (
    record r {
      buf = update r.buf 0 game_over;
      incoming = rest;
      reads = r.reads + length noise + 1;
      polls = r.polls + 1;
    },
    rw
        (
          receive_update,
          now,
          here,
          find_code-noise (r.buf 0) noise rest game_over r.reads clear noisy refl,
        )
        refl,
    refl,
    refl,
  )

  -- A read that gets fewer bytes than it asks for.
  read-short :
      (n : ℕ) (bs rest : List ℕ) (r : Reader) (next : Reader → Received)
      → length bs < suc n
      → length bs ≡ suc (chunk r.reads)
      → r.incoming ≡ bs ++ rest
      → read dim chunk poll (suc n) r next
        ≡ next (record r { buf = store r.buf 0 bs; incoming = rest; reads = r.reads + 1 })
  unfolding read
  read-short n [] rest r next few size here = absurd (omega (arith, size))
  read-short n (b ∷ bs) rest r next few size here =
      let exact : length bs ≡ chunk r.reads = omega (arith, size) in
      let short : leb n (chunk r.reads) ≡ false = ground arith in
      let taken : take (suc (chunk r.reads)) (b ∷ (bs ++ rest)) ≡ b ∷ bs =
        take-append (suc (chunk r.reads)) (b ∷ bs) rest size in
      let left : drop (suc (chunk r.reads)) (b ∷ (bs ++ rest)) ≡ rest =
        drop-append (suc (chunk r.reads)) (b ∷ bs) rest size in
      rw (here, short)
        (ap
          (λ ((got, after) : List ℕ × List ℕ).
            next (record r { buf = store r.buf 0 got; incoming = after; reads = r.reads + 1 }))
          (cc (taken, left)))

  check_end-exited : (r : Reader) → r.buf 0 ≢ update_end → check_end dim chunk poll r ≡ exited r
  unfolding check_end
  check_end-exited r ne = elim (Bool-cases (r.buf 0 == update_end)) [
    | inl e ↦ absurd (ne ((==_iff _ _).0 e))
    | inr e ↦ rw (e) refl
  ]

  -- When the read of a board gets only a part of it, as a read of a stream may, and the byte behind that
  -- part is not UPDATE_END, the client exits with a failure.
  pub receive_update-short :
      (part rest : List ℕ) (c : ℕ) (r : Reader)
      → is_code (r.buf 0) ≡ false
      → length part < dim.height * dim.width
      → dim.height * dim.width ≤ buf_size
      → length part ≡ suc (chunk (r.reads + 1))
      → c ≢ update_end
      → r.incoming ≡ update_start ∷ (part ++ (c ∷ rest))
      → poll r.polls ≡ ready
      → (r' : Reader) × (receive_update dim chunk poll r ≡ exited r')
  unfolding receive_update act_on_code is_code show_board store
  receive_update-short part rest c r clear few fits size other here now =
      let cells = dim.height * dim.width in
      let started : Reader = record r {
        buf = update r.buf 0 update_start;
        incoming = part ++ (c ∷ rest);
        reads = r.reads + 1;
        polls = r.polls + 1;
      } in
      let drawn : Reader = record started {
        buf = store started.buf 0 part;
        incoming = c ∷ rest;
        reads = r.reads + 1 + 1;
        screen = r.screen ++ (print_board dim (store started.buf 0 part) ∷ []);
      } in
      let last : Reader = record drawn {
        buf = update drawn.buf 0 c;
        incoming = rest;
        reads = r.reads + 1 + 1 + 1;
      } in
      let positive : cells ≡ suc (cells - 1) = omega arith in
      let inside : leb cells buf_size ≡ true = ground arith in
      let at_code : receive_update dim chunk poll r ≡ show_board dim chunk poll started =
        rw
          (
            receive_update,
            now,
            here,
            find_code-next (r.buf 0) update_start (part ++ (c ∷ rest)) r.reads clear refl,
          )
          refl in
      let shown : show_board dim chunk poll started
          ≡ read dim chunk poll 1 drawn (check_end dim chunk poll) =
        rw (show_board, inside, positive)
          (read-short (cells - 1) part (c ∷ rest) started _ (omega arith) size refl) in
      (
        last,
        at_code
            ∙ shown
            ∙ read-whole dim chunk poll (c ∷ []) rest drawn (check_end dim chunk poll) (omega arith)
                refl (omega arith)
            ∙ check_end-exited last (λ e. other (sym (update_self drawn.buf 0 c) ∙ e)),
      )
