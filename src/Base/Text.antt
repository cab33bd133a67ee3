-- ===== src/Base/Text.antt =====
-- Texts that the program only compares: names, kinds, identifiers.
use Prim.Native.String.{String}
use mathlib.Core.Path.{◌≡◌}
use mathlib.Core.Logic.{ite, inl, inr}
use mathlib.Core.Bool.{Bool, true, false}
use text.Mathlib.Text.{◌==◌}
use text.Mathlib.TextEquality.{eq_iff}
use native.Mathlib.Omega.{arith}
use kvisor.Base.Tests.{Bool-cases}

pub differs : (a b : String) → (a == b) ≡ false → ¬ (a ≡ b)
differs a b h e = ground (arith, (eq_iff a b).1 e)

unfoldable pub str_dec : Discrete String
unfolding differs
str_dec a b = elim (Bool-cases (a == b)) [
  | inl same ↦ yes ((eq_iff a b).0 same)
  | inr other ↦ no (differs a b other)
]

-- `a == b` on strings.
abbrev pub eq_str : String → String → Bool
eq_str a b = ite (str_dec a b) true false

-- Of literals, the test on the right evaluates.
pub eq_str-test : (a b : String) → eq_str a b ≡ (a == b)
eq_str-test a b = ground (arith, eq_iff a b)
