-- ===== src/Base/Round.antt =====
-- Division with the two rounding modes of `decimal` that the program uses.
use Prim.Native.Nat.{ℕ, zero, suc, ◌+◌, ◌*◌, ◌/◌, ◌%◌, ◌≤◌, ◌<◌}
use mathlib.Core.Path.{◌≡◌, refl}
use native.Mathlib.Omega.{arith}
use native.Mathlib.Nat.{
  le-div_iff_mul-le, div-mul-le_self, lt-div-mul-add, le_trans, div-add-mod, mod-lt,
  mul-div-mul_right,
}
use gs_erp.Base.Tests.{ltb, if◌then◌else◌}
use gs_erp.Base.Int.{ℤ, pos, negsuc, neg_ℕ, ◌≤ℤ◌, ◌*ℤ◌}

-- n / d to the nearest number, a tie upwards.
unfoldable pub half_up : ℕ → ℕ → ℕ
half_up n d = (2 * n + d) / (2 * d)

-- n / d to the nearest number, a tie to the even neighbour.
unfoldable pub half_even : ℕ → ℕ → ℕ
half_even n d =
    let q = n / d in
    let r = 2 * (n % d) in if ltb r d then q else if ltb d r then q + 1 else q + q % 2

-- `ROUND_HALF_UP` rounds the magnitude: a tie goes away from zero.
unfoldable pub round_half_up : ℤ → ℕ → ℤ
round_half_up (pos n) d = pos (half_up n d)
round_half_up (negsuc n) d = neg_ℕ (half_up (suc n) d)

unfoldable pub round_half_even : ℤ → ℕ → ℤ
round_half_even (pos n) d = pos (half_even n d)
round_half_even (negsuc n) d = neg_ℕ (half_even (suc n) d)

pub div_mono : (m n d : ℕ) → 0 < d → m ≤ n → m / d ≤ n / d
div_mono m n d h le = (le-div_iff_mul-le h).1 (le_trans (div-mul-le_self m d) le)

pub half_up_mono : (m n d : ℕ) → 0 < d → m ≤ n → half_up m d ≤ half_up n d
unfolding half_up
half_up_mono m n d h le = div_mono _ _ _ (omega arith) (omega arith)

-- The rounded value is within half a unit of the exact one.
pub half_up_nearest :
    (n d : ℕ) → 0 < d → (2 * (half_up n d * d) ≤ 2 * n + d) × (2 * n < 2 * (half_up n d * d) + d)
unfolding half_up
half_up_nearest n d h =
    let low = div-mul-le_self (2 * n + d) (2 * d) in
    let high = lt-div-mul-add {a = 2 * n + d} {b = 2 * d} (omega arith) in
    (omega arith, omega arith)

-- A bound of the exact value that is a whole number bounds the rounded one.
pub half_up-le : (n d k : ℕ) → 0 < d → n ≤ k * d → half_up n d ≤ k
half_up-le n d k h le = grind (arith, half_up_nearest n d h)

pub le-half_up : (n d k : ℕ) → 0 < d → k * d ≤ n → k ≤ half_up n d
le-half_up n d k h le = grind (arith, half_up_nearest n d h)

pub half_up-mul : (k d : ℕ) → 0 < d → half_up (k * d) d ≡ k
half_up-mul k d h = omega (arith, half_up-le (k * d) d k h, le-half_up (k * d) d k h)

-- Rounding keeps the order, also across zero.
pub round_half_up_mono : (a b : ℤ) (d : ℕ) → 0 < d → a ≤ℤ b → round_half_up a d ≤ℤ round_half_up b d
unfolding round_half_up
round_half_up_mono (pos m) (pos n) d h le = omega (arith, half_up_mono m n d h)
round_half_up_mono (negsuc m) (pos n) d h le = ground arith
round_half_up_mono (pos m) (negsuc n) d h le = absurd (omega arith)
round_half_up_mono (negsuc m) (negsuc n) d h le = ground (arith, half_up_mono (suc n) (suc m) d h)

-- The two modes differ only at a tie.
pub half_even_near :
    (n d : ℕ)
    → 0 < d
    → (2 * (half_even n d * d) ≤ 2 * n + d) × (2 * n ≤ 2 * (half_even n d * d) + d)
unfolding half_even
half_even_near n d h = grind (arith, div-add-mod n d, mod-lt n {m = d} h)

-- A common factor does not change the rounded value.
pub half_up_scale : (n d m : ℕ) → 0 < m → half_up (n * m) (d * m) ≡ half_up n d
unfolding half_up
half_up_scale n d m h =
    let top : 2 * (n * m) + d * m ≡ (2 * n + d) * m = grind arith in
    let bottom : 2 * (d * m) ≡ 2 * d * m = grind arith in
    rw (top, bottom) (mul-div-mul_right (2 * n + d) (2 * d) h)

pub zero-half_up : (d : ℕ) → 0 < d → half_up 0 d ≡ 0
zero-half_up d h = omega (arith, half_up-le 0 d 0 h)

pub neg-*ℤ : (a b : ℕ) → neg_ℕ a *ℤ pos b ≡ neg_ℕ (a * b)
unfolding ◌*ℤ◌
neg-*ℤ zero b = grind arith
neg-*ℤ (suc a) b = refl

-- Rounding commutes with the sign.
pub round_half_up-neg : (n d : ℕ) → 0 < d → round_half_up (neg_ℕ n) d ≡ neg_ℕ (half_up n d)
unfolding round_half_up
round_half_up-neg zero d h = rw (zero-half_up d h)
round_half_up-neg (suc n) d h = refl
