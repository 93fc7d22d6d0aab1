-- ===== src/Shared/Texts.antt =====
-- Go strings as native texts: `strings.TrimSpace`, and membership in a list of texts.
use Prim.Native.Nat.{ℕ}
use Prim.Native.Char.{Char, code}
use Prim.Native.String.{String}
use mathlib.Core.Path.{◌≡◌, refl}
use mathlib.Core.Bool.{Bool, false, ◌||◌, ◌&&◌}
use mathlib.Core.List.{List, [], ◌∷◌}
use text.Mathlib.Text.{◌==◌ as str_eq}
use komari_agent.Shared.Tests.{leb, ◌==◌, if◌then◌else◌}

-- `unicode.IsSpace`
is_space : ℕ → Bool
is_space c =
    (leb 9 c && leb c 13)
    || c == 32
    || c == 0x85
    || c == 0xA0
    || c == 0x1680
    || (leb 0x2000 c && leb c 0x200a)
    || c == 0x2028
    || c == 0x2029
    || c == 0x202f
    || c == 0x205f
    || c == 0x3000

trim_left : String → String
unfolding is_space
trim_left String.[] = String.[]
trim_left (String.◌∷◌ c s) =
    let rest = trim_left s in if is_space (code c) then rest else String.◌∷◌ c s

-- A character is dropped at the right end when only spaces follow it.
push_trimmed : Char → String → String
unfolding is_space
push_trimmed c String.[] = if is_space (code c) then String.[] else String.◌∷◌ c String.[]
push_trimmed c s = String.◌∷◌ c s

trim_right : String → String
unfolding push_trimmed
trim_right String.[] = String.[]
trim_right (String.◌∷◌ c s) = push_trimmed c (trim_right s)

unfoldable pub trim_space : String → String
unfolding trim_left trim_right
trim_space s = trim_right (trim_left s)

trim_space_runs : trim_space " a b " ≡ "a b"
unfolding trim_space
trim_space_runs = refl

abbrev pub contains : List String → String → Bool
contains [] s = false
contains (x ∷ xs) s = str_eq x s || contains xs s
