-- ===== src/Base/Text.antt =====
-- Texts: concatenation, and the native comparison as a decision.
use Prim.Native.String.{String}
use text.Mathlib.Text.{◌==◌}
use text.Mathlib.TextEquality.{eq_iff}
use mathlib.Core.Path.{◌≡◌}
use mathlib.Core.Logic.{◌≢◌}
use mathlib.Core.Bool.{true, false}
use native.Mathlib.Omega.{arith}

pub eq_self : (s : String) → (s == s) ≡ true
eq_self s = (eq_iff s s).1 (λ i. s)

pub ne_of_false : (s t : String) → (s == t) ≡ false → s ≢ t
ne_of_false s t h = ground (arith, eq_iff s t)

pub false_of_ne : (s t : String) → s ≢ t → (s == t) ≡ false
false_of_ne s t h = ground (arith, eq_iff s t)
