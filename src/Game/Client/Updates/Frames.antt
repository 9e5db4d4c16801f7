-- ===== src/Game/Client/Updates/Frames.antt =====
-- The client draws the boards that the server sends.
use mathlib.Core.List.{append_assoc, append-nil, map, map-append}
use software_development_pla.Common.{
  ℕ, zero, suc, ◌+◌, ◌*◌, ◌<◌, ◌≤◌, ◌≡◌, refl, ap, ◌∙◌, sym, subst, true, false, some, List, [],
  ◌∷◌, ◌++◌, length, take, drop, take-append, drop-append, arith, update, leb, update_self,
}
use software_development_pla.Game.Protocol.{update_start, update_end}
use software_development_pla.Game.Client.Updates.{
  Dimensions, Poll, ready, timeout, Reader, Received, goes_on, ended, read, store, check_end,
  show_board, act_on_code, find_code, is_code, receive_update, receive_updates, print_board,
  buf_size,
}
use software_development_pla.Game.Client.Updates.Drawing.{
  symbols, symbols-print_board, window-store,
}

pub find_code-here :
    (c : ℕ) (bs : List ℕ) (n : ℕ) → is_code c ≡ true → find_code c bs n ≡ some (c, bs, n)
unfolding find_code
find_code-here c [] n e = rw (e) refl
find_code-here c (b ∷ bs) n e = rw (e) refl

pub find_code-next :
    (c d : ℕ) (bs : List ℕ) (n : ℕ)
    → is_code c ≡ false
    → is_code d ≡ true
    → find_code c (d ∷ bs) n ≡ some (d, bs, n + 1)
unfolding find_code
find_code-next c d bs n e f = rw (e) (find_code-here d bs (n + 1) f)

-- The three writes of an update.
unfoldable pub update_bytes : List ℕ → List ℕ
update_bytes board = update_start ∷ (board ++ (update_end ∷ []))

unfoldable pub wire : List (List ℕ) → List ℕ
unfolding update_bytes
wire [] = []
wire (board ∷ boards) = update_bytes board ++ wire boards

module _ (dim : Dimensions) (chunk : ℕ → ℕ) (poll : ℕ → Poll) where
  -- A read of bytes that are all there.
  pub read-whole :
      (bs rest : List ℕ) (r : Reader) (next : Reader → Received)
      → 0 < length bs
      → r.incoming ≡ bs ++ rest
      → length bs ≤ suc (chunk r.reads)
      → read dim chunk poll (length bs) r next
        ≡ next (record r { buf = store r.buf 0 bs; incoming = rest; reads = r.reads + 1 })
  unfolding read
  read-whole [] rest r next pos here room = absurd (omega arith)
  read-whole (b ∷ bs) rest r next pos here room =
      let all_there : leb (length bs) (chunk r.reads) ≡ true = ground arith in
      let taken : take (suc (length bs)) (b ∷ (bs ++ rest)) ≡ b ∷ bs =
        take-append (suc (length bs)) (b ∷ bs) rest refl in
      let left : drop (suc (length bs)) (b ∷ (bs ++ rest)) ≡ rest =
        drop-append (suc (length bs)) (b ∷ bs) rest refl in
      rw (here, all_there)
        (ap
          (λ ((got, after) : List ℕ × List ℕ).
            next (record r { buf = store r.buf 0 got; incoming = after; reads = r.reads + 1 }))
          (cc (taken, left)))

  check_end-goes_on : (r : Reader) → r.buf 0 ≡ update_end → check_end dim chunk poll r ≡ goes_on r
  unfolding check_end
  check_end-goes_on r e = rw (e) refl

  -- One round, at a whole update.
  module _ (board rest : List ℕ) (r : Reader) (size : length board ≡ dim.height * dim.width)
      (some_cells : 0 < dim.height * dim.width) (fits : dim.height * dim.width ≤ buf_size)
      (room : (k : ℕ) → dim.height * dim.width ≤ suc (chunk k))
      (here : r.incoming ≡ update_bytes board ++ rest) (waits : is_code (r.buf 0) ≡ false)
      (at_poll : poll r.polls ≡ ready) where
    abbrev started : Reader
    started = record r {
      buf = update r.buf 0 update_start;
      incoming = board ++ (update_end ∷ rest);
      reads = r.reads + 1;
      polls = r.polls + 1;
    }

    abbrev drawn : Reader
    drawn = record started {
      buf = store started.buf 0 board;
      incoming = update_end ∷ rest;
      reads = r.reads + 1 + 1;
      screen = r.screen ++ (print_board dim (store started.buf 0 board) ∷ []);
    }

    abbrev pub after_update : Reader
    after_update = record drawn {
      buf = update drawn.buf 0 update_end;
      incoming = rest;
      reads = r.reads + 1 + 1 + 1;
    }

    show_board-whole : show_board dim chunk poll started ≡ goes_on after_update
    unfolding show_board read store
    show_board-whole =
        let inside : leb (dim.height * dim.width) buf_size ≡ true = ground arith in
        rw (inside, ← size)
          (read-whole board (update_end ∷ rest) started _ (omega (arith, size)) refl
            (omega (arith, size, room started.reads)))
        ∙ read-whole (update_end ∷ []) rest drawn (check_end dim chunk poll) (omega arith) refl
            (omega arith)
        ∙ check_end-goes_on after_update (update_self drawn.buf 0 update_end)

    pub receive_update-whole : receive_update dim chunk poll r ≡ goes_on after_update
    unfolding receive_update act_on_code find_code update_bytes is_code
    receive_update-whole =
        let code : is_code update_start ≡ true = refl in
        rw
          (
            receive_update,
            at_poll,
            here,
            append_assoc board (update_end ∷ []) rest,
            find_code-next (r.buf 0) update_start (board ++ (update_end ∷ rest)) r.reads waits code,
          )
          show_board-whole

    pub symbols-after_update :
        map symbols after_update.screen ≡ map symbols r.screen ++ (board ∷ [])
    symbols-after_update =
        map-append symbols r.screen _
        ∙ rw
            (
              symbols-print_board dim (store started.buf 0 board),
              ← size,
              window-store started.buf 0 board,
            )
            refl

  -- Each board has the size that the client was told.
  abbrev pub Sized : List (List ℕ) → Type 0
  Sized [] = Unit
  Sized (board ∷ boards) = (length board ≡ dim.height * dim.width) × Sized boards

  pub receive_updates-draws :
      (boards : List (List ℕ)) (fuel : ℕ) (r : Reader)
      → Sized boards
      → 0 < dim.height * dim.width
      → dim.height * dim.width ≤ buf_size
      → ((k : ℕ) → dim.height * dim.width ≤ suc (chunk k))
      → length boards < fuel
      → r.incoming ≡ wire boards
      → is_code (r.buf 0) ≡ false
      → ((k : ℕ) → k < length boards → poll (r.polls + k) ≡ ready)
      → poll (r.polls + length boards) ≡ timeout
      → (r' : Reader) × (receive_updates dim chunk poll fuel r ≡ ended r')
        × (map symbols r'.screen ≡ map symbols r.screen ++ boards)
  unfolding wire receive_updates receive_update is_code
  receive_updates-draws boards zero r sized pos fits room enough here waits polls last =
      absurd (omega arith)
  receive_updates-draws [] (suc fuel) r sized pos fits room enough here waits polls last =
      let now : poll r.polls ≡ timeout = subst (λ k. poll k ≡ timeout) (omega arith) last in
      (
        record r { polls = r.polls + 1 },
        rw (receive_updates, receive_update, now) refl,
        sym (append-nil (map symbols r.screen)),
      )
  receive_updates-draws (board ∷ boards) (suc fuel) r (size, sized) pos fits room enough here waits
        polls last =
      let now : poll r.polls ≡ ready =
        subst (λ k. poll k ≡ ready) (omega arith) (polls 0 (omega arith)) in
      let r1 = after_update board (wire boards) r size pos fits room here waits now in
      let (r', e, drawn) =
        receive_updates-draws boards fuel r1 sized pos fits room (omega arith) refl
          (rw (update_self) refl)
          (λ k b. subst (λ i. poll i ≡ ready) (omega arith) (polls (suc k) (omega arith)))
          (subst (λ i. poll i ≡ timeout) (omega arith) last) in
      (
        r',
        rw
            (
              receive_updates,
              receive_update-whole board (wire boards) r size pos fits room here waits now,
            )
            e,
        drawn
            ∙ rw
                (
                  symbols-after_update board (wire boards) r size pos fits room here waits now,
                  append_assoc (map symbols r.screen) (board ∷ []) boards,
                )
                refl,
      )
