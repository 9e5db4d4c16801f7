-- ===== src/Game/Client/Updates/Drawing.antt =====
-- What `printBoard` of C-Multiplayer-game/src/client/main.c draws, as symbols.
use software_development_pla.Common.{
  ℕ, zero, suc, ◌+◌, ◌*◌, ◌<◌, ◌≡◌, refl, ap, ◌∙◌, sym, List, [], ◌∷◌, ◌++◌, length, arith, update,
  update_self, update-ne,
}
use software_development_pla.Game.Client.Updates.{
  Ink, cell, newline, Dimensions, print_row, print_rows, print_board, store,
}

-- The symbols, without the colours and the ends of the lines.
unfoldable pub symbols : List Ink → List ℕ
symbols [] = []
symbols (cell colour c ∷ inks) = c ∷ symbols inks
symbols (newline ∷ inks) = symbols inks

-- The `n` bytes of the buffer from `i` on.
unfoldable pub window : (ℕ → ℕ) → ℕ → ℕ → List ℕ
window buf i zero = []
window buf i (suc n) = buf i ∷ window buf (i + 1) n

symbols-append : (xs ys : List Ink) → symbols (xs ++ ys) ≡ symbols xs ++ symbols ys
unfolding symbols
symbols-append [] ys = refl
symbols-append (cell colour c ∷ xs) ys = ap (λ t. c ∷ t) (symbols-append xs ys)
symbols-append (newline ∷ xs) ys = symbols-append xs ys

window-cong : (buf : ℕ → ℕ) {i i' n n' : ℕ} → i ≡ i' → n ≡ n' → window buf i n ≡ window buf i' n'
window-cong buf p q = cc (p, q)

window-add :
    (buf : ℕ → ℕ) (i m n : ℕ) → window buf i (m + n) ≡ window buf i m ++ window buf (i + m) n
unfolding window
window-add buf i zero n = window-cong buf (omega arith) (omega arith)
window-add buf i (suc m) n =
    let shift : i + 1 + m ≡ i + suc m = omega arith in
    let more : suc m + n ≡ suc (m + n) = omega arith in
    window-cong buf {i = i} refl more
    ∙ ap (λ t. buf i ∷ t) (window-add buf (i + 1) m n ∙ rw (shift) refl)

symbols-print_row :
    (dim : Dimensions) (buf : ℕ → ℕ) (i j n : ℕ)
    → symbols (print_row dim buf i j n) ≡ window buf (i * dim.width + j) n
unfolding symbols window print_row
symbols-print_row dim buf i j zero = refl
symbols-print_row dim buf i j (suc n) =
    ap (λ t. buf (i * dim.width + j) ∷ t)
      (symbols-print_row dim buf i (j + 1) n ∙ ap (λ k. window buf k n) (omega arith))

symbols-print_rows :
    (dim : Dimensions) (buf : ℕ → ℕ) (i m : ℕ)
    → symbols (print_rows dim buf i m) ≡ window buf (i * dim.width) (m * dim.width)
unfolding symbols window print_rows
symbols-print_rows dim buf i zero =
    let none_left : 0 ≡ zero * dim.width = ground arith in
    window-cong buf {i = i * dim.width} refl none_left
symbols-print_rows dim buf i (suc m) =
    let w = dim.width in
    let first : i * w + 0 ≡ i * w = ground arith in
    let second : (i + 1) * w ≡ i * w + w = ground arith in
    let total : suc m * w ≡ w + m * w = ground arith in
    symbols-append (print_row dim buf i 0 w) (print_rows dim buf (i + 1) m)
    ∙ rw (symbols-print_row dim buf i 0 w, symbols-print_rows dim buf (i + 1) m, first, second)
        (sym (window-add buf (i * w) w (m * w)) ∙ window-cong buf {i = i * w} refl (sym total))

pub symbols-print_board :
    (dim : Dimensions) (buf : ℕ → ℕ)
    → symbols (print_board dim buf) ≡ window buf 0 (dim.height * dim.width)
unfolding print_board
symbols-print_board dim buf =
    symbols-print_rows dim buf 0 dim.height ∙ window-cong buf (omega arith) refl

store-below : (buf : ℕ → ℕ) (i : ℕ) (bs : List ℕ) (j : ℕ) → j < i → store buf i bs j ≡ buf j
unfolding store
store-below buf i [] j h = refl
store-below buf i (b ∷ bs) j h =
    store-below (update buf i b) (i + 1) bs j (omega arith)
    ∙ update-ne buf i b j (λ e. absurd (omega arith))

-- Bytes that were read into the buffer stand in it.
pub window-store : (buf : ℕ → ℕ) (i : ℕ) (bs : List ℕ) → window (store buf i bs) i (length bs) ≡ bs
unfolding window store
window-store buf i [] = refl
window-store buf i (b ∷ bs) =
    ap (λ k. k ∷ window (store (update buf i b) (i + 1) bs) (i + 1) (length bs))
      (store-below (update buf i b) (i + 1) bs i (omega arith) ∙ update_self buf i b)
    ∙ ap (λ t. b ∷ t) (window-store (update buf i b) (i + 1) bs)
