-- ===== src/Prelude/Texts.antt =====
-- strings.TrimSpace of Go's standard library.
use Prim.Native.Nat.{ℕ}
use Prim.Native.Char.{code}
use Prim.Native.String.{String}
use mathlib.Core.Bool.{Bool, ◌&&◌, ◌||◌}
use mathlib.Core.List.{List, [], ◌∷◌}
use akoflow.Prelude.Tests.{leb, if◌then◌else◌}
use akoflow.Prelude.Keys.{◌==◌, contains, string_eq, nat_eq}

-- The code points that unicode.IsSpace accepts, but for the range from 0x2000 to 0x200a.
abbrev white_space : List ℕ
white_space =
    9 ∷ 10 ∷ 11 ∷ 12 ∷ 13 ∷ 32 ∷ 0x85 ∷ 0xa0 ∷ 0x1680 ∷ 0x2028 ∷ 0x2029 ∷ 0x202f ∷ 0x205f ∷ 0x3000
    ∷ []

is_space : ℕ → Bool
is_space c = contains white_space c || leb 0x2000 c && leb c 0x200a

trim_left : String → String
unfolding is_space
trim_left String.[] = String.[]
trim_left (String.◌∷◌ c s) =
    let rest = trim_left s in if is_space (code c) then rest else String.◌∷◌ c s

trim_right : String → String
unfolding is_space
trim_right String.[] = String.[]
trim_right (String.◌∷◌ c s) =
    let rest = trim_right s in if is_space (code c) && rest == "" then "" else String.◌∷◌ c rest

unfoldable pub trim_space : String → String
unfolding trim_left trim_right
trim_space s = trim_right (trim_left s)
