-- ===== src/Base/Text.antt =====
-- Texts are compared only: equality of strings as a test and as a decision.
use Prim.Native.String.{String}
use mathlib.Core.Path.{◌≡◌, refl}
use mathlib.Core.Bool.{Bool, true, false}
use text.Mathlib.Text.{◌==◌ as text_eq}
use text.Mathlib.TextEquality.{eq_iff}
use simperby.Base.Tests.{Bool-cases}
use mathlib.Core.Logic.{inl, inr}

abbrev pub str_eq : String → String → Bool
str_eq a b = text_eq a b

pub str_eq→eq : (a b : String) → str_eq a b ≡ true → a ≡ b
str_eq→eq a b h = (eq_iff a b).0 h

pub str_eq_self : (a : String) → str_eq a a ≡ true
str_eq_self a = (eq_iff a a).1 refl

unfoldable pub String-discrete : Discrete String
String-discrete a b = elim (Bool-cases (str_eq a b)) [
  | inl same ↦ yes ((eq_iff a b).0 same)
  | inr other ↦ no (λ e. absurd (differ a b other e))
]
  where
    differ : (a b : String) → str_eq a b ≡ false → ¬ (a ≡ b)
    differ a b other e = let same = (eq_iff a b).1 e in cc
