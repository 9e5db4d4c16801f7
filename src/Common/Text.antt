-- ===== src/Common/Text.antt =====
-- atoi(3) and the conversion `%d` of sprintf(3), on texts as lists of codes.
use Prim.Native.Nat.{ℕ, zero, suc, ◌+◌, ◌-◌, ◌*◌, ◌/◌, ◌%◌, ◌≤◌, ◌<◌}
use mathlib.Core.Path.{◌≡◌, refl, ap, sym, ◌∙◌}
use mathlib.Core.Logic.{inl, inr}
use mathlib.Core.Bool.{true, false, ◌&&◌, ◌||◌}
use mathlib.Core.List.{List, [], ◌∷◌, ◌++◌, append_assoc}
use native.Mathlib.Omega.{arith}
use software_development_pla.Common.Tests.{leb, ltb, ◌==◌, if◌then◌else◌, Bool-cases}
use software_development_pla.Common.Int.{ℤ, pos, negsuc}

-- The digits at the front, after the number `n`.
unfoldable pub digits : ℕ → List ℕ → ℕ
digits n [] = n
digits n (c ∷ cs) =
    let rest = digits (n * 10 + (c - b'0')) cs in if leb b'0' c && leb c b'9' then rest else n

abbrev pub negate : ℕ → ℤ
negate n = elim n [ zero ↦ pos 0 | suc m ↦ negsuc m ]

-- atoi of the C locale, for numbers that fit an int
unfoldable pub atoi : List ℕ → ℤ
unfolding digits
atoi [] = pos 0
atoi (c ∷ cs) =
    let rest = atoi cs in
    if c == b' ' || (leb 9 c && leb c 13)
    then rest
    else if c == b'-'
    then negate (digits 0 cs)
    else if c == b'+'
    then pos (digits 0 cs)
    else pos (digits 0 (c ∷ cs))

-- Of a number below `fuel`.
unfoldable pub decimal_digits : ℕ → ℕ → List ℕ
decimal_digits zero n = []
decimal_digits (suc fuel) n =
    let rest = decimal_digits fuel (n / 10) in
    if ltb n 10 then (b'0' + n) ∷ [] else rest ++ ((b'0' + n % 10) ∷ [])

unfoldable pub decimal : ℕ → List ℕ
unfolding decimal_digits
decimal n = decimal_digits (n + 1) n

digits-digit :
    (n d : ℕ) (rest : List ℕ) → d < 10 → digits n ((b'0' + d) ∷ rest) ≡ digits (n * 10 + d) rest
unfolding digits
digits-digit n d rest h =
    let low : leb b'0' (b'0' + d) ≡ true = ground arith in
    let high : leb (b'0' + d) b'9' ≡ true = ground arith in
    let same : n * 10 + (b'0' + d - b'0') ≡ n * 10 + d = omega arith in rw (low, high, same) refl

digits-decimal_digits :
    (fuel n : ℕ) (rest : List ℕ)
    → n < fuel
    → digits 0 (decimal_digits fuel n ++ rest) ≡ digits n rest
unfolding decimal_digits
digits-decimal_digits zero n rest h = absurd (omega arith)
digits-decimal_digits (suc fuel) n rest h = elim (Bool-cases (ltb n 10)) [
  | inl small ↦
      let below : n < 10 = ground arith in
      let same : 0 * 10 + n ≡ n = omega arith in
      rw (small) (digits-digit 0 n rest below ∙ ap (λ k. digits k rest) same)
  | inr big ↦
      let above : 10 ≤ n = ground arith in
      let less : n / 10 < fuel = omega arith in
      let whole : n / 10 * 10 + n % 10 ≡ n = omega arith in
      rw (big) (
        ap (digits 0) (append_assoc (decimal_digits fuel (n / 10)) ((b'0' + n % 10) ∷ []) rest)
        ∙ digits-decimal_digits fuel (n / 10) ((b'0' + n % 10) ∷ rest) less
        ∙ digits-digit (n / 10) (n % 10) rest (omega arith)
        ∙ ap (λ k. digits k rest) whole)
]

-- The first code is a digit.
first_digit :
    (fuel n : ℕ)
    → n < fuel
    → (d : ℕ) × (cs : List ℕ) × (decimal_digits fuel n ≡ (b'0' + d) ∷ cs) × (d < 10)
unfolding decimal_digits
first_digit zero n h = absurd (omega arith)
first_digit (suc fuel) n h = elim (Bool-cases (ltb n 10)) [
  | inl small ↦ (n, [], rw (decimal_digits, small) refl, ground arith)
  | inr big ↦
      let above : 10 ≤ n = ground arith in
      let (d, cs, e, below) = first_digit fuel (n / 10) (omega arith) in
      (d, cs ++ ((b'0' + n % 10) ∷ []), rw (decimal_digits, big, e) refl, below)
]

atoi-digit :
    (d : ℕ) (cs : List ℕ) → d < 10 → atoi ((b'0' + d) ∷ cs) ≡ pos (digits 0 ((b'0' + d) ∷ cs))
unfolding atoi
atoi-digit d cs h =
    let no_blank : (b'0' + d == b' ') ≡ false = ground arith in
    let no_space : leb (b'0' + d) 13 ≡ false = ground arith in
    let some_space : leb 9 (b'0' + d) ≡ true = ground arith in
    let no_minus : (b'0' + d == b'-') ≡ false = ground arith in
    let no_plus : (b'0' + d == b'+') ≡ false = ground arith in
    rw (no_blank, some_space, no_space, no_minus, no_plus) refl

digits-nul : (n : ℕ) (rest : List ℕ) → digits n (0 ∷ rest) ≡ n
unfolding digits
digits-nul n rest = refl

-- atoi reads back what `%d` printed, up to the NUL behind it.
pub atoi-decimal : (n : ℕ) (rest : List ℕ) → atoi (decimal n ++ (0 ∷ rest)) ≡ pos n
unfolding decimal
atoi-decimal n rest =
    let (d, cs, e, below) = first_digit (n + 1) n (omega arith) in
    let text : decimal_digits (n + 1) n ++ (0 ∷ rest) ≡ (b'0' + d) ∷ (cs ++ (0 ∷ rest)) =
      ap (λ t. t ++ (0 ∷ rest)) e in
    ap atoi text
    ∙ atoi-digit d (cs ++ (0 ∷ rest)) below
    ∙ ap (λ t. pos (digits 0 t)) (sym text)
    ∙ ap pos (digits-decimal_digits (n + 1) n (0 ∷ rest) (omega arith) ∙ digits-nul n rest)
