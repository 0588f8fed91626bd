-- ===== src/Base/Strings.antt =====
-- Laws of the Boolean tests on texts.
use Prim.Native.String
use Prim.Native.String.{String}
use mathlib.Core.Path.{◌≡◌, refl}
use mathlib.Core.Bool.{true}
use text.Mathlib.Text.{◌==◌, starts_with}
use text.Mathlib.TextEquality.{eq_iff, starts_with_iff}

pub str_eq_refl : (s : String) → (s == s) ≡ true
str_eq_refl s = (eq_iff s s).1 refl

pub starts_with-append : (s t : String) → starts_with (String.◌++◌ s t) s ≡ true
starts_with-append s t = (starts_with_iff (String.◌++◌ s t) s).1 (t, refl)
