-- ===== src/Core/Quantity.antt =====
-- `Quantity` of apps/core/domain/value_objects.py. A value is never negative, and is held as a
-- count of 0.0001.
use gs_erp.Base.{
  ℕ, ◌+◌, ◌-◌, String, ◌≡◌, Bool, Option, arith, ltb, ◌==◌, if◌then◌else◌, pos, pos_part, Result,
  ok, err, ◌>>=◌, ◌>>◌, guard, raise_if, is_empty_text, str_eq, invalid_quantity, uom_mismatch,
  invalid_operation,
}
use gs_erp.Core.Number.{
  Decimal, Number, Value, finite, infinite, nan, product, at_storage, is_negative, quantize,
  coerce_decimal,
}

pub record Quantity : Type 0 where
  pub value : ℕ
  pub uom_code : String

-- The checks of `__post_init__` on a finite value, which is quantized after the test of its sign.
unfoldable pub of_decimal : Decimal → String → Result Quantity
of_decimal d uom = do
  raise_if (is_empty_text uom) invalid_quantity
  raise_if (is_negative d) invalid_quantity
  ok (record { value = pos_part (quantize 4 d); uom_code = uom })

abbrev of_number : Number → String → Result Quantity
of_number (finite d) uom = of_decimal d uom
of_number infinite uom = err invalid_quantity
of_number nan uom = err invalid_quantity

-- `__add__`
unfoldable pub add : Quantity → Quantity → Result Quantity
add a b = do
  guard (str_eq a.uom_code b.uom_code) uom_mismatch
  ok (record { value = a.value + b.value; uom_code = a.uom_code })

-- `__sub__`
unfoldable pub sub : Quantity → Quantity → Result Quantity
sub a b = do
  guard (str_eq a.uom_code b.uom_code) uom_mismatch
  raise_if (ltb a.value b.value) invalid_quantity
  ok (record { value = a.value - b.value; uom_code = a.uom_code })

abbrev pub is_zero : Quantity → Bool
is_zero a = a.value == 0

abbrev pub is_positive : Quantity → Bool
is_positive a = ltb 0 a.value

module _ (parse : String → Option Number) where
  -- `Quantity(value, uom_code)` of any object.
  unfoldable pub make_quantity : Value → String → Result Quantity
  make_quantity value uom = do
    raise_if (is_empty_text uom) invalid_quantity
    n ← coerce_decimal parse invalid_quantity value
    of_number n uom

  -- A comparison of NaN with a number is an invalid operation, and so is zero times infinity.
  abbrev scaled : Quantity → Number → Result Quantity
  scaled a (finite d) = do
    raise_if (is_negative d) invalid_quantity
    of_decimal (product (at_storage (pos a.value)) d) a.uom_code
  scaled a infinite = if is_zero a then err invalid_operation else err invalid_quantity
  scaled a nan = err invalid_operation

  -- `__mul__`
  unfoldable pub mul : Quantity → Value → Result Quantity
  mul a factor = do n ← coerce_decimal parse invalid_quantity factor; scaled a n

-- What a difference returns, added back, is the first quantity; a difference below zero and a
-- mix of units raise, so that subtraction succeeds exactly when units agree and stock suffices.
pub add-sub :
    (a b : Quantity)
    → (sub a b >>= λ d. add d b) ≡ (
        if str_eq a.uom_code b.uom_code
        then (if ltb a.value b.value then err invalid_quantity else ok a)
        else err uom_mismatch)
unfolding add sub
add-sub a b = ground arith
