-- ===== src/Game/Client/Updates/Termination.antt =====
-- `receiveUpdates` of C-Multiplayer-game/src/client/main.c does not go on for ever.
use software_development_pla.Common.{
  ℕ, zero, suc, ◌+◌, ◌*◌, ◌<◌, ◌≤◌, ◌≡◌, ◌≢◌, ◌⊎◌, ◌∙◌, sym, ap, Bool, true, false, update_self,
  ==_iff, refl, inl, inr, Option, none, some, List, [], ◌∷◌, ◌++◌, length, take, drop,
  length-drop_le, arith, update, leb, ◌==◌, if◌then◌else◌, Bool-cases,
}
use software_development_pla.Game.Protocol.{update_end, game_over}
use software_development_pla.Game.Client.Updates.{
  Dimensions, Poll, ready, timeout, poll_failed, Reader, Received, goes_on, ended, exited, waiting,
  spins, fault, read, store, check_end, show_board, act_on_code, find_code, is_code, receive_update,
  receive_updates, buf_size, print_board,
}

-- The loop goes on only with fewer than `n` bytes to come, and spins only on a closed connection.
unfoldable Shrinks : ℕ → Bool → Received → Type 0
Shrinks n closed (goes_on r) = (length r.incoming < n) × (r.closed ≡ closed)
Shrinks n closed (spins r) = closed ≡ true
Shrinks n closed _ = Unit

shrunk :
    (n : ℕ) (closed : Bool) (r : Reader)
    → Shrinks n closed (goes_on r)
    → (length r.incoming < n) × (r.closed ≡ closed)
unfolding Shrinks
shrunk n closed r h = h

spun : (n : ℕ) (closed : Bool) (r : Reader) → Shrinks n closed (spins r) → closed ≡ true
unfolding Shrinks
spun n closed r h = h

-- In the middle of an update: a byte of it was read, or the buffer does not begin with UPDATE_END.
abbrev Midway : ℕ → Bool → Reader → Type 0
Midway n closed r =
    (r.closed ≡ closed)
    × (length r.incoming ≤ n)
    × ((length r.incoming < n) ⊎ (r.buf 0 ≢ update_end))

module _ (dim : Dimensions) (chunk : ℕ → ℕ) (poll : ℕ → Poll) (n : ℕ) (closed : Bool) where
  if-Shrinks :
      (b : Bool) (x y : Received)
      → Shrinks n closed x
      → Shrinks n closed y
      → Shrinks n closed (if b then x else y)
  if-Shrinks true x y h g = h
  if-Shrinks false x y h g = g

  read-Shrinks :
      (m : ℕ) (r : Reader) (next : Reader → Received)
      → Midway n closed r
      → ((r1 : Reader) → Midway n closed r1 → Shrinks n closed (next r1))
      → Shrinks n closed (read dim chunk poll (suc m) r next)
  unfolding read Shrinks
  read-Shrinks m r next (same, le, mid) h = go r.incoming refl
    where
      more : ℕ
      more = if leb m (chunk r.reads) then m else chunk r.reads

      go :
          (bs : List ℕ)
          → r.incoming ≡ bs
          → Shrinks n closed (elim bs [
            | [] ↦ if r.closed then next (record r { reads = r.reads + 1 }) else waiting r
            | _ ↦ next (record r {
              buf = store r.buf 0 (take (suc more) r.incoming);
              incoming = drop (suc more) r.incoming;
              reads = r.reads + 1;
            })
          ])
      go [] e =
          if-Shrinks r.closed (next (record r { reads = r.reads + 1 })) (waiting r)
            (h (record r { reads = r.reads + 1 }) (same, le, mid)) tt
      go (b ∷ bs) e =
          let fewer : length (drop (suc more) r.incoming) < n =
            rw (e) (omega (arith, length-drop_le more bs, ap length e)) in
          h
            (record r {
              buf = store r.buf 0 (take (suc more) r.incoming);
              incoming = drop (suc more) r.incoming;
              reads = r.reads + 1;
            })
            (same, omega arith, inl fewer)

  check_end-Shrinks :
      (r : Reader) → Midway n closed r → Shrinks n closed (check_end dim chunk poll r)
  unfolding check_end Shrinks
  check_end-Shrinks r (same, le, mid) = elim (Bool-cases (r.buf 0 == update_end)) [
    | inl e ↦ elim mid [
      | inl fewer ↦ rw (e) (fewer, same)
      | inr ne ↦ absurd (ne ((==_iff (r.buf 0) update_end).0 e))
    ]
    | inr e ↦ rw (e) tt
  ]

  finish-Shrinks :
      (r : Reader)
      → Midway n closed r
      → Shrinks n closed (
          read dim chunk poll 1
            (record r { screen = r.screen ++ (print_board dim r.buf ∷ []) })
            (check_end dim chunk poll))
  finish-Shrinks r mid = read-Shrinks 0 _ _ mid check_end-Shrinks

  read_board-Shrinks :
      (m : ℕ) (r : Reader)
      → Midway n closed r
      → Shrinks n closed (
          read dim chunk poll m r (λ r1.
            read dim chunk poll 1
              (record r1 { screen = r1.screen ++ (print_board dim r1.buf ∷ []) })
              (check_end dim chunk poll)))
  unfolding read
  read_board-Shrinks zero r mid = finish-Shrinks r mid
  read_board-Shrinks (suc m) r mid = read-Shrinks m r _ mid finish-Shrinks

  show_board-Shrinks :
      (r : Reader) → Midway n closed r → Shrinks n closed (show_board dim chunk poll r)
  unfolding show_board Shrinks
  show_board-Shrinks r mid = elim (Bool-cases (leb (dim.height * dim.width) buf_size)) [
    | inl e ↦ rw (e) (read_board-Shrinks (dim.height * dim.width) r mid)
    | inr e ↦ rw (e) tt
  ]

  find_code-le :
      (c : ℕ) (bs : List ℕ) (k : ℕ) (found : ℕ × List ℕ × ℕ)
      → find_code c bs k ≡ some found
      → (length (found.1) ≤ length bs) × (is_code found.0 ≡ true)
  unfolding find_code
  find_code-le c [] k found e = elim (Bool-cases (is_code c)) [
    | inl y ↦ let same : found ≡ (c, [], k) = cc (y, e) in rw (same) (omega arith, y)
    | inr y ↦ absurd (cc (y, e))
  ]
  find_code-le c (b ∷ bs) k found e = elim (Bool-cases (is_code c)) [
    | inl y ↦ let same : found ≡ (c, b ∷ bs, k) = cc (y, e) in rw (same) (omega arith, y)
    | inr y ↦
        let later : find_code b bs (k + 1) ≡ some found = cc (y, e) in
        let (le, code) = find_code-le b bs (k + 1) found later in (omega (arith, le), code)
  ]

  code-ne-update_end : (c : ℕ) → is_code c ≡ true → c ≢ update_end
  unfolding is_code
  code-ne-update_end c code e = absurd (cc (ap is_code e, code))

  act_on_code-Shrinks :
      (r : Reader) (o : Option (ℕ × List ℕ × ℕ))
      → r.closed ≡ closed
      → ((found : ℕ × List ℕ × ℕ)
          → o ≡ some found
          → (length (found.1) ≤ n) × (is_code found.0 ≡ true))
      → Shrinks n closed (act_on_code dim chunk poll r o)
  unfolding act_on_code Shrinks
  act_on_code-Shrinks r none same h = elim (Bool-cases r.closed) [
    | inl shut ↦ rw (shut) (sym same ∙ shut)
    | inr open_yet ↦ rw (open_yet) tt
  ]
  act_on_code-Shrinks r (some (c, rest, k)) same h = elim (Bool-cases (c == game_over)) [
    | inl e ↦ rw (e) tt
    | inr e ↦
        let (le, code) = h (c, rest, k) refl in
        rw (e) (
          show_board-Shrinks (record r { buf = update r.buf 0 c; incoming = rest; reads = k })
            (same, le, inr (λ q. code-ne-update_end c code (sym (update_self r.buf 0 c) ∙ q))))
  ]

  receive_update-Shrinks :
      (r : Reader)
      → length r.incoming ≤ n
      → r.closed ≡ closed
      → Shrinks n closed (receive_update dim chunk poll r)
  unfolding receive_update Shrinks
  receive_update-Shrinks r le same = go (poll r.polls) refl
    where
      r' : Reader
      r' = record r { polls = r.polls + 1 }

      go :
          (p : Poll)
          → poll r.polls ≡ p
          → Shrinks n closed (elim p [
            | poll_failed ↦ exited r'
            | timeout ↦ ended r'
            | ready ↦ act_on_code dim chunk poll r' (find_code (r'.buf 0) r'.incoming r'.reads)
          ])
      go poll_failed e = tt
      go timeout e = tt
      go ready e = act_on_code-Shrinks r' _ same (λ found f.
          let (less, code) = find_code-le (r.buf 0) r.incoming r.reads found f in
          (omega (arith, less), code))

module _ (dim : Dimensions) (chunk : ℕ → ℕ) (poll : ℕ → Poll) where
  -- Whatever bytes the socket delivers, in whatever portions, and whatever poll answers, the loop does
  -- not go round more often than there are bytes: with fuel beyond their number it ends, exits, waits for
  -- more of them, has no room for the board, or spins in its loop of one-byte reads, and that only where
  -- the connection is closed behind the bytes.
  pub receive_updates-total :
      (fuel : ℕ) (r r' : Reader)
      → length r.incoming < fuel
      → (receive_updates dim chunk poll fuel r ≢ goes_on r')
        × (receive_updates dim chunk poll fuel r ≡ spins r' → r.closed ≡ true)
  unfolding receive_updates
  receive_updates-total zero r r' enough = absurd (omega arith)
  receive_updates-total (suc fuel) r r' enough =
      go (receive_update dim chunk poll r)
        (receive_update-Shrinks dim chunk poll (length r.incoming) r.closed r (omega arith) refl)
        (λ r1 h. receive_updates-total fuel r1 r' (omega arith))
    where
      go :
          (o : Received)
          → Shrinks (length r.incoming) r.closed o
          → ((r1 : Reader)
              → length r1.incoming < length r.incoming
              → (receive_updates dim chunk poll fuel r1 ≢ goes_on r')
                × (receive_updates dim chunk poll fuel r1 ≡ spins r' → r1.closed ≡ true))
          → ((elim o [ goes_on r1 ↦ receive_updates dim chunk poll fuel r1 | other ↦ other ])
              ≢ goes_on r')
            × ((elim o [ goes_on r1 ↦ receive_updates dim chunk poll fuel r1 | other ↦ other ])
                  ≡ spins r'
                → r.closed ≡ true)
      go (goes_on r1) h rest =
          let (fewer, same) = shrunk _ _ r1 h in
          ((rest r1 fewer).0, λ e. sym same ∙ (rest r1 fewer).1 e)
      go (spins r1) h rest = ((λ e. cc), (λ e. spun _ _ r1 h))
      go (ended r1) h rest = ((λ e. cc), (λ e. absurd (cc e)))
      go (exited r1) h rest = ((λ e. cc), (λ e. absurd (cc e)))
      go (waiting r1) h rest = ((λ e. cc), (λ e. absurd (cc e)))
      go fault h rest = ((λ e. cc), (λ e. absurd (cc e)))
