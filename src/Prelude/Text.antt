-- ===== src/Prelude/Text.antt =====
-- strings.TrimSpace on native texts.
use Prim.Native.Nat.{ℕ}
use Prim.Native.Char.{Char, code}
use Prim.Native.String.{String}
use mathlib.Core.Bool.{Bool, ◌&&◌, ◌||◌}
use mathlib.Core.List.{List, [], ◌∷◌}
use simple_up_manage.Prelude.Tests.{leb, ◌==◌, if◌then◌else◌}

-- unicode.IsSpace.
pub is_space : ℕ → Bool
is_space c =
    leb 9 c && leb c 13
    || c == 0x20
    || c == 0x85
    || c == 0xa0
    || c == 0x1680
    || leb 0x2000 c && leb c 0x200a
    || c == 0x2028
    || c == 0x2029
    || c == 0x202f
    || c == 0x205f
    || c == 0x3000

pub trim_left : String → String
trim_left String.[] = String.[]
trim_left (String.◌∷◌ c s) = if is_space (code c) then trim_left s else String.◌∷◌ c s

-- The text without its last spaces: a space is kept only before something that is kept.
pub trim_right : String → String
trim_right String.[] = String.[]
trim_right (String.◌∷◌ c s) = keep (trim_right s)
  where
    keep : String → String
    keep String.[] = if is_space (code c) then String.[] else String.◌∷◌ c String.[]
    keep (String.◌∷◌ d t) = String.◌∷◌ c (String.◌∷◌ d t)

unfoldable pub trim_space : String → String
unfolding trim_left trim_right is_space
trim_space s = trim_right (trim_left s)

-- strings.Split by a separator of one character.
push_first : Char → List String → List String
push_first c [] = String.◌∷◌ c String.[] ∷ []
push_first c (p ∷ ps) = String.◌∷◌ c p ∷ ps

unfoldable pub split_on : ℕ → String → List String
unfolding push_first
split_on sep String.[] = String.[] ∷ []
split_on sep (String.◌∷◌ c s) =
    let rest = split_on sep s in if code c == sep then String.[] ∷ rest else push_first c rest
