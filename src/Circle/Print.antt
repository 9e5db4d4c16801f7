-- ===== src/Circle/Print.antt =====
-- `printBoard` of traffic_cycle.c.
use software_development_pla.Common.{
  ℕ, zero, suc, ◌+◌, ◌*◌, if◌then◌else◌, not, Option, none, some, List, [], ◌∷◌, ◌++◌, pos,
}
use software_development_pla.Circle.Types.{circle_size, Circle}
use software_development_pla.Circle.Geometry.{is_on_border}

abbrev pub inner_cell_symbol : ℕ
inner_cell_symbol = b'@'

abbrev pub empty_cell_symbol : ℕ
empty_cell_symbol = b' '

abbrev pub occupied_cell : ℕ
occupied_cell = b'*'

unfoldable pub cell_symbol : ℕ → ℕ → Option ℕ → ℕ
unfolding is_on_border
cell_symbol i j car =
    if not (is_on_border (pos i) (pos j))
    then inner_cell_symbol
    else elim car [ none ↦ empty_cell_symbol | some _ ↦ occupied_cell ]

-- The inner loop, with `n` columns left from `j` on.
unfoldable pub print_row : ℕ → ℕ → ℕ → Circle → List ℕ
print_row i j zero s = b'\n' ∷ []
print_row i j (suc n) s = cell_symbol i j (s.board (i * circle_size + j)) ∷ print_row i (j + 1) n s

unfoldable pub print_rows : ℕ → ℕ → Circle → List ℕ
print_rows i zero s = b'\n' ∷ []
print_rows i (suc n) s = print_row i 0 circle_size s ++ print_rows (i + 1) n s

unfoldable pub print_board : Circle → List ℕ
print_board s = print_rows 0 circle_size s
