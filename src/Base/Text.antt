-- ===== src/Base/Text.antt =====
-- JavaScript's text functions that the code uses, over code points.
use Prim.Native.Char.{Char, code}
use Prim.Native.String
use Prim.Native.Nat.{ℕ, ◌-◌, ◌+◌}
use Prim.Native.String.{String, [], ◌∷◌, char_at}
use text.Mathlib.Text.{find?}
use mathlib.Core.Bool.{Bool, false, ◌&&◌, ◌||◌, not}
use nangman_note.Base.Tests.{leb, ◌==◌, truthy, is_some, if◌then◌else◌}

-- The white space and line ends that `trim` removes.
unfoldable pub is_space : Char → Bool
is_space c =
    let n = code c in
    (leb 9 n && leb n 13)
    || n == 32
    || n == 160
    || n == 0x1680
    || (leb 0x2000 n && leb n 0x200a)
    || n == 0x2028
    || n == 0x2029
    || n == 0x202f
    || n == 0x205f
    || n == 0x3000
    || n == 0xfeff

unfoldable pub trim_start : String → String
trim_start [] = []
trim_start (c ∷ s) = let rest = trim_start s in if is_space c then rest else c ∷ s

unfoldable pub trim_end : String → String
trim_end [] = []
trim_end (c ∷ s) = let rest = trim_end s in if is_space c && not (truthy rest) then [] else c ∷ rest

unfoldable pub trim : String → String
unfolding trim_start trim_end is_space
trim s = trim_end (trim_start s)

-- `s.includes(c)` for one character of a set.
abbrev pub includes_any : (Char → Bool) → String → Bool
includes_any p [] = false
includes_any p (c ∷ s) = p c || includes_any p s

infixr 65 ◌<>◌
abbrev pub ◌<>◌ : String → String → String
s <> t = String.◌++◌ s t

-- `toLowerCase`, for the letters that become ASCII letters: A to Z, and the Kelvin sign.
unfoldable pub lower_char : Char → Char
lower_char c =
    let n = code c in
    if leb 65 n && leb n 90
    then char_at "abcdefghijklmnopqrstuvwxyz" (n - 65)
    else (if n == 0x212a then "k" else c)

unfoldable pub to_lower : String → String
unfolding lower_char
to_lower [] = []
to_lower (c ∷ s) = lower_char c ∷ to_lower s

-- `s.includes(t)`.
abbrev pub includes : String → String → Bool
includes t s = is_some (find? s t)

-- `s.length`, in units of 16 bits.
unfoldable pub utf16_length : String → ℕ
utf16_length [] = 0
utf16_length (c ∷ s) = (if leb 0x10000 (code c) then 2 else 1) + utf16_length s
