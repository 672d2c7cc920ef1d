-- ===== src/Core/Number.antt =====
-- Decimal values and their coercion: `_STORAGE_QUANT` and `_coerce_decimal` of
-- apps/core/domain/value_objects.py, and the exact arithmetic of `decimal.Decimal`.
use gs_erp.Base.{
  ℕ, ◌+◌, ◌*◌, ◌^◌, ◌<◌, ◌≤◌, zero, suc, String, ◌≡◌, Bool, Option, none, some, arith, ℤ, pos,
  negsuc, neg_ℕ, ◌*ℤ◌, leb_ℤ, ltb_ℤ, round_half_up, half_up, half_up-le, half_up_scale, ap, Error,
  Result, ok, err, neg-*ℤ, round_half_up-neg, refl, ◌≤ℤ◌,
}
use native.Mathlib.Nat.{pow-suc, mul_assoc, mul-le-mul_left, add-zero, add-suc}

-- coef / 10 ^ places
pub record Decimal : Type 0 where
  pub coef : ℤ
  pub places : ℕ

-- A `Decimal` object; `nan` is the quiet one.
pub data Number : Type 0 where
  finite : Decimal → Number
  infinite nan : Number

-- What a caller may pass where a number is wanted.
pub data Value : Type 0 where
  decimal : Number → Value
  int : ℤ → Value
  text : String → Value
  other : Value

-- A number held at the storage precision, as a count of 0.0001.
abbrev pub at_storage : ℤ → Decimal
at_storage n = record { coef = n; places = 4 }

abbrev pub whole : ℤ → Decimal
whole n = record { coef = n; places = 0 }

-- `a * b`
abbrev pub product : Decimal → Decimal → Decimal
product a b = record { coef = a.coef *ℤ b.coef; places = a.places + b.places }

-- `a / Decimal("100")`
abbrev pub percent : Decimal → Decimal
percent a = record { coef = a.coef; places = a.places + 2 }

-- `a <= n`, for a whole number `n`
abbrev pub le_whole : Decimal → ℕ → Bool
le_whole a n = leb_ℤ a.coef (pos (n * 10 ^ a.places))

abbrev pub is_negative : Decimal → Bool
is_negative a = ltb_ℤ a.coef (pos 0)

-- `a.quantize(Decimal(10) ** -k, rounding=ROUND_HALF_UP)`, as a count of 10 ^ -k
unfoldable pub quantize : ℕ → Decimal → ℤ
quantize k a = round_half_up (a.coef *ℤ pos (10 ^ k)) (10 ^ a.places)

-- `Decimal(text)` is the standard library's.
module _ (parse : String → Option Number) where
  unfoldable pub coerce_decimal : Error → Value → Result Number
  coerce_decimal e (decimal n) = ok n
  coerce_decimal e (int n) = ok (finite (whole n))
  coerce_decimal e (text s) = elim (parse s) [ some n ↦ ok n | none ↦ err e ]
  coerce_decimal e other = err e

pub pow10_pos : (k : ℕ) → 0 < 10 ^ k
pow10_pos zero = omega arith
pow10_pos (suc k) = grind (arith, pow-suc 10 k, pow10_pos k)

pub pow10-add : (j k : ℕ) → 10 ^ (j + k) ≡ 10 ^ j * 10 ^ k
pow10-add j zero = grind (arith, add-zero j)
pow10-add j (suc k) =
    rw (add-suc, pow-suc 10 (j + k), pow-suc 10 k, pow10-add j k) (mul_assoc (10 ^ j) (10 ^ k) 10)

-- `a * (d / 100)` at the storage precision, for an amount and a percentage that are not negative.
pub quantize-percent :
    (n c p : ℕ)
    → quantize 4 (product (at_storage (pos n)) (percent (record { coef = pos c; places = p })))
      ≡ pos (half_up (n * c) (10 ^ p * 100))
unfolding quantize round_half_up ◌*ℤ◌
quantize-percent n c p =
    let e : 10 ^ (4 + (p + 2)) ≡ 10 ^ p * 100 * 10000 =
      grind (arith, pow10-add 4 (p + 2), pow10-add p 2) in
    rw e (ap pos (half_up_scale (n * c) (10 ^ p * 100) 10000 (omega arith)))

-- `a * d` at the storage precision, for numbers that are not negative.
pub quantize-product :
    (n c p : ℕ)
    → quantize 4 (product (at_storage (pos n)) (record { coef = pos c; places = p }))
      ≡ pos (half_up (n * c) (10 ^ p))
unfolding quantize round_half_up ◌*ℤ◌
quantize-product n c p =
    let e : 10 ^ (4 + p) ≡ 10 ^ p * 10000 = grind (arith, pow10-add 4 p) in
    rw e (ap pos (half_up_scale (n * c) (10 ^ p) 10000 (omega arith)))

-- A percentage of at most 100 takes at most the whole amount.
pub half_up-percent-le : (n c p : ℕ) → c ≤ 100 * 10 ^ p → half_up (n * c) (10 ^ p * 100) ≤ n
half_up-percent-le n c p h =
    half_up-le (n * c) (10 ^ p * 100) n (grind (arith, pow10_pos p))
      (grind (arith, mul-le-mul_left n h))

pub quantize_neg :
    (k n p : ℕ)
    → quantize k (record { coef = neg_ℕ n; places = p }) ≡ neg_ℕ (half_up (n * 10 ^ k) (10 ^ p))
unfolding quantize
quantize_neg k n p = rw neg-*ℤ (round_half_up-neg (n * 10 ^ k) (10 ^ p) (pow10_pos p))

pub quantize_pos :
    (k n p : ℕ)
    → quantize k (record { coef = pos n; places = p }) ≡ pos (half_up (n * 10 ^ k) (10 ^ p))
unfolding quantize round_half_up ◌*ℤ◌
quantize_pos k n p = refl

-- A number of at most four places goes to the storage precision and back without loss.
pub half_up_storage :
    (n m : ℕ) → m ≤ 4 → half_up (half_up (n * 10 ^ 4) (10 ^ m) * 10 ^ m) (10 ^ 4) ≡ n
unfolding half_up
half_up_storage n zero h = omega arith
half_up_storage n (suc zero) h = omega arith
half_up_storage n (suc (suc zero)) h = omega arith
half_up_storage n (suc (suc (suc zero))) h = omega arith
half_up_storage n (suc (suc (suc (suc zero)))) h = omega arith
half_up_storage n (suc (suc (suc (suc (suc m))))) h = absurd (omega arith)

pub quantize-storage :
    (n : ℤ) (m : ℕ)
    → m ≤ 4
    → quantize m (at_storage (quantize 4 (record { coef = n; places = m }))) ≡ n
quantize-storage (pos n) m h = rw (quantize_pos, quantize_pos) (ap pos (half_up_storage n m h))
quantize-storage (negsuc n) m h =
    rw (quantize_neg 4 (suc n) m, quantize_neg) (ap neg_ℕ (half_up_storage (suc n) m h))

-- A product of numbers that are not negative is not negative.
pub product_nonneg :
    (x c : ℤ) (p : ℕ)
    → pos 0 ≤ℤ x
    → pos 0 ≤ℤ c
    → pos 0 ≤ℤ quantize 4 (product (at_storage x) (record { coef = c; places = p }))
product_nonneg (pos n) (pos c) p h k = rw (quantize-product n c p) (omega arith)
product_nonneg (pos n) (negsuc c) p h k = absurd (omega arith)
product_nonneg (negsuc n) c p h k = absurd (omega arith)

-- A share of between 0 and 100 percent lies between nothing and the whole.
pub share_bounds :
    (x c : ℤ) (p : ℕ)
    → pos 0 ≤ℤ x
    → pos 0 ≤ℤ c
    → c ≤ℤ pos (100 * 10 ^ p)
    → let s = quantize 4 (product (at_storage x) (percent (record { coef = c; places = p }))) in
      (pos 0 ≤ℤ s) × (s ≤ℤ x)
share_bounds (pos n) (pos c) p h k le =
    rw (quantize-percent n c p) (omega arith, omega (arith, half_up-percent-le n c p))
share_bounds (pos n) (negsuc c) p h k le = absurd (omega arith)
share_bounds (negsuc n) c p h k le = absurd (omega arith)
