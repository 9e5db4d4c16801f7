-- ===== src/Game/Client/Updates.antt =====
-- `receiveUpdates` and `printBoard` of C-Multiplayer-game/src/client/main.c.
pub mod Drawing
pub mod Frames
pub mod Wire
pub mod Reception
pub mod Termination
pub mod Errors
use software_development_pla.Common.{
  ℕ, zero, suc, ◌+◌, ◌*◌, leb, ◌==◌, if◌then◌else◌, Bool, ◌||◌, Option, none, some, List, [], ◌∷◌,
  ◌++◌, take, drop, update,
}
use software_development_pla.Game.Protocol.{game_over, update_start, update_end}
use software_development_pla.Game.Types.{monster_sym, coin_sym, wall_sym, empty_sym}

abbrev pub buf_size : ℕ
buf_size = 4096

pub record Dimensions : Type 0 where
  pub height : ℕ
  pub width : ℕ

-- The colours of colors.h that the board is drawn in.
pub data Colour : Type 0 where
  red green blue white cyan : Colour

-- What `printBoard` prints: a symbol in a colour, or the end of a line.
pub data Ink : Type 0 where
  cell : Colour → ℕ → Ink
  newline : Ink

unfoldable pub colour : ℕ → Colour
colour c =
    if c == monster_sym
    then red
    else if c == coin_sym
    then green
    else if c == wall_sym
    then blue
    else if c == empty_sym
    then white
    else cyan

-- `n` columns of row `i`, from column `j` on.
unfoldable pub print_row : Dimensions → (ℕ → ℕ) → ℕ → ℕ → ℕ → List Ink
print_row dim buf i j zero = newline ∷ []
print_row dim buf i j (suc n) =
    let c = buf (i * dim.width + j) in cell (colour c) c ∷ print_row dim buf i (j + 1) n

-- `m` rows, from row `i` on.
unfoldable pub print_rows : Dimensions → (ℕ → ℕ) → ℕ → ℕ → List Ink
print_rows dim buf i zero = []
print_rows dim buf i (suc m) = print_row dim buf i 0 dim.width ++ print_rows dim buf (i + 1) m

unfoldable pub print_board : Dimensions → (ℕ → ℕ) → List Ink
print_board dim buf = print_rows dim buf 0 dim.height

-- What poll(2) answers.
pub data Poll : Type 0 where
  poll_failed timeout ready : Poll

-- The thread of `receiveUpdates`: its buffer, the bytes that the socket still holds for it, whether the
-- connection is closed behind them, how often it has called read(2) and poll(2), and the boards that it
-- has drawn.
pub record Reader : Type 0 where
  pub buf : ℕ → ℕ
  pub incoming : List ℕ
  pub closed : Bool
  pub reads : ℕ
  pub polls : ℕ
  pub screen : List (List Ink)

-- The loop goes on; the game is over and the loop ends; the process exits with a failure; a read waits
-- for bytes that have not come; the loop of one-byte reads goes on for ever, as the connection is closed
-- and no read changes the buffer; the board does not fit in the buffer.
pub data Received : Type 0 where
  goes_on ended exited waiting spins : Reader → Received
  fault : Received

unfoldable pub store : (ℕ → ℕ) → ℕ → List ℕ → ℕ → ℕ
store buf i [] = buf
store buf i (c ∷ cs) = store (update buf i c) (i + 1) cs

unfoldable pub is_code : ℕ → Bool
is_code c = (c == update_start) || (c == game_over)

-- The loop of one-byte reads: the first code, from the byte `c` in the buffer on, what is left behind
-- it, and the number of reads.
unfoldable pub find_code : ℕ → List ℕ → ℕ → Option (ℕ × List ℕ × ℕ)
find_code c [] n = if is_code c then some (c, [], n) else none
find_code c (b ∷ bs) n =
    let rest = find_code b bs (n + 1) in if is_code c then some (c, b ∷ bs, n) else rest

-- `chunk k` is one less than the number of bytes that are there for read `k`.
module _ (dim : Dimensions) (chunk : ℕ → ℕ) (poll : ℕ → Poll) where
  -- read(2) of `n` bytes, which waits while there is none. On a closed connection it answers 0 or -1, which
  -- is not looked at.
  unfoldable pub read : ℕ → Reader → (Reader → Received) → Received
  read zero r next = next r
  read (suc n) r next = elim r.incoming [
    | [] ↦ if r.closed then next (record r { reads = r.reads + 1 }) else waiting r
    | _ ↦
        let got = suc (if leb n (chunk r.reads) then n else chunk r.reads) in
        next (record r {
          buf = store r.buf 0 (take got r.incoming);
          incoming = drop got r.incoming;
          reads = r.reads + 1;
        })
  ]

  -- The end of an update, after the board was read and drawn.
  unfoldable pub check_end : Reader → Received
  check_end r = if r.buf 0 == update_end then goes_on r else exited r

  unfoldable pub show_board : Reader → Received
  show_board r =
      if leb (dim.height * dim.width) buf_size
      then read (dim.height * dim.width) r (λ r1.
        read 1 (record r1 { screen = r1.screen ++ (print_board dim r1.buf ∷ []) }) check_end)
      else fault

  -- With the code `c` in the buffer.
  unfoldable pub act_on_code : Reader → Option (ℕ × List ℕ × ℕ) → Received
  act_on_code r none = if r.closed then spins r else waiting r
  act_on_code r (some (c, rest, n)) =
      let r' : Reader = record r { buf = update r.buf 0 c; incoming = rest; reads = n } in
      if c == game_over then ended r' else show_board r'

  -- The body of the loop.
  unfoldable pub receive_update : Reader → Received
  receive_update r =
      let r' : Reader = record r { polls = r.polls + 1 } in
      elim (poll r.polls) [
        | poll_failed ↦ exited r'
        | timeout ↦ ended r'
        | ready ↦ act_on_code r' (find_code (r'.buf 0) r'.incoming r'.reads)
      ]

  -- The loop, cut after `fuel` rounds.
  unfoldable pub receive_updates : ℕ → Reader → Received
  receive_updates zero r = goes_on r
  receive_updates (suc fuel) r = elim (receive_update r) [
    | goes_on r' ↦ receive_updates fuel r'
    | other ↦ other
  ]
