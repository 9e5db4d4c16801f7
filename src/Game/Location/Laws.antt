-- ===== src/Game/Location/Laws.antt =====
-- One step on the board, which wraps round at its edges.
use software_development_pla.Common.{◌<◌, ◌*◌, ◌≡◌, ◌≢◌, refl, true, some, arith}
use software_development_pla.Game.Protocol.{Direction, up, down, left, right, invalid_move, stopped}
use software_development_pla.Game.Types.{board_width, board_height, Location}
use software_development_pla.Game.State.{at}
use software_development_pla.Game.Location.{calculate_next_location, InBounds, is_move, opposite}

-- From a place on the board each of the four directions leads to another place on the board, and the
-- opposite direction leads back from there.
pub next-opposite :
    (l : Location) (d : Direction)
    → is_move d ≡ true
    → InBounds l
    → (l' : Location) × (calculate_next_location l d ≡ some l')
      × InBounds l'
      × (at l ≢ at l')
      × (calculate_next_location l' (opposite d) ≡ some l)
unfolding calculate_next_location
next-opposite l up h b = (_, refl, ground arith, ground arith, ground arith)
next-opposite l down h b = (_, refl, ground arith, ground arith, ground arith)
next-opposite l left h b = (_, refl, ground arith, ground arith, ground arith)
next-opposite l right h b = (_, refl, ground arith, ground arith, ground arith)
next-opposite l invalid_move h b = absurd (ground arith)
next-opposite l stopped h b = absurd (ground arith)

-- Every step that is made stays on the board and leaves its place.
pub next-InBounds :
    (l l' : Location) (d : Direction)
    → InBounds l
    → calculate_next_location l d ≡ some l'
    → InBounds l' × (at l ≢ at l')
unfolding calculate_next_location
next-InBounds l l' d b e = ground arith

pub at-lt : (l : Location) → InBounds l → at l < board_height * board_width
at-lt l b = omega arith
