-- ===== src/Base/Word.antt =====
-- 64-bit machine integers. Unsigned values are natural numbers below `u64_mod`, and arithmetic
-- wraps as in a release build; signed values are integers, and a cast keeps the bit pattern.
use Prim.Native.Nat.{ℕ, suc, ◌+◌, ◌-◌, ◌*◌, ◌%◌, ◌^◌, ◌<◌}
use mathlib.Core.Path.{◌≡◌}
use mathlib.Core.List.{List, [], ◌∷◌}
use native.Mathlib.Omega.{arith}
use native.Mathlib.Nat.{mod-eq_of_lt}
use simperby.Base.Int.{ℤ, pos, negsuc, sub_ℕ}

abbrev pub u64_mod : ℕ
u64_mod = 2 ^ 64

abbrev pub i64_half : ℕ
i64_half = 2 ^ 63

unfoldable pub add_u64 : ℕ → ℕ → ℕ
add_u64 a b = (a + b) % u64_mod

unfoldable pub mul_u64 : ℕ → ℕ → ℕ
mul_u64 a b = (a * b) % u64_mod

-- `x as i64` for an unsigned `x`.
unfoldable pub as_i64 : ℕ → ℤ
as_i64 n = sub_ℕ ((n + i64_half) % u64_mod) i64_half

-- The bit pattern of an integer.
unfoldable pub to_bits : ℤ → ℕ
to_bits (pos n) = n % u64_mod
to_bits (negsuc n) = (u64_mod - (suc n % u64_mod)) % u64_mod

-- `a + b` on `i64`.
unfoldable pub add_i64 : ℤ → ℤ → ℤ
unfolding to_bits as_i64
add_i64 a b = as_i64 (to_bits a + to_bits b)

-- `a * b` on `i64`.
unfoldable pub mul_i64 : ℤ → ℤ → ℤ
unfolding to_bits as_i64
mul_i64 a b = as_i64 (to_bits a * to_bits b)

-- `Iterator::sum`, which adds from the left.
unfoldable pub sum_from : ℕ → List ℕ → ℕ
unfolding add_u64
sum_from acc [] = acc
sum_from acc (x ∷ xs) = sum_from (add_u64 acc x) xs

unfoldable pub sum_u64 : List ℕ → ℕ
unfolding sum_from
sum_u64 xs = sum_from 0 xs

-- The mathematical sum.
abbrev pub sum : List ℕ → ℕ
sum [] = 0
sum (x ∷ xs) = x + sum xs

pub sum_from-eq : (acc : ℕ) (xs : List ℕ) → acc + sum xs < u64_mod → sum_from acc xs ≡ acc + sum xs
unfolding sum_from
sum_from-eq acc [] h = omega arith
sum_from-eq acc (x ∷ xs) h =
    let e : (acc + x) % u64_mod ≡ acc + x = mod-eq_of_lt (omega arith) in
    simp (e, sum_from-eq (acc + x) xs (omega arith)) (omega arith)

-- Without overflow the machine's sum is the sum.
pub sum_u64-eq-sum : (xs : List ℕ) → sum xs < u64_mod → sum_u64 xs ≡ sum xs
unfolding sum_u64
sum_u64-eq-sum xs h = omega (arith, sum_from-eq 0 xs)
