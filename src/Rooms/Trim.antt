-- ===== src/Rooms/Trim.antt =====
-- `String.prototype.trim`: the white space and the line ends of the standard, off both ends.
use Prim.Native.Char.{Char, code}
use ccn.Prelude.{ℕ, ◌≡◌, refl, Bool, ◌||◌, ◌&&◌, String, List, [], ◌∷◌, leb, eqb, if◌then◌else◌}
use mathlib.Core.List.{reverse}

is_space : ℕ → Bool
is_space c =
    (leb 9 c && leb c 13)
    || eqb c 32
    || eqb c 0xa0
    || eqb c 0x1680
    || (leb 0x2000 c && leb c 0x200a)
    || eqb c 0x2028
    || eqb c 0x2029
    || eqb c 0x202f
    || eqb c 0x205f
    || eqb c 0x3000
    || eqb c 0xfeff

chars : String → List Char
chars String.[] = []
chars (String.◌∷◌ c s) = c ∷ chars s

from_chars : List Char → String
from_chars [] = String.[]
from_chars (c ∷ cs) = String.◌∷◌ c (from_chars cs)

skip_spaces : List Char → List Char
unfolding is_space
skip_spaces [] = []
skip_spaces (c ∷ cs) = if is_space (code c) then skip_spaces cs else c ∷ cs

unfoldable pub trim : String → String
unfolding chars from_chars skip_spaces
trim s = from_chars (reverse (skip_spaces (reverse (skip_spaces (chars s)))))

trim_test : (trim "  a b " ≡ "a b") × (trim "   " ≡ "")
unfolding trim
trim_test = (refl, refl)
