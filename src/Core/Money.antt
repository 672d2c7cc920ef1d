-- ===== src/Core/Money.antt =====
-- `Money` of apps/core/domain/value_objects.py. `Money.amount` is quantized to 0.0001 when a value
-- is built, so it is held as a count of 0.0001; a sum of two such counts needs no rounding.
use gs_erp.Base.{
  ℕ, ◌+◌, ◌*◌, ◌-◌, ◌^◌, ◌≤◌, ◌≡◌, refl, ap, String, Bool, true, false, Option, arith, ℤ, pos, ◌+ℤ◌,
  ◌-ℤ◌, ◌*ℤ◌, neg, ltb_ℤ, eqb_ℤ, round_half_up, Result, ok, err, guard, ◌>>=◌, ◌>>◌, int_laws,
  invalid_money_amount, currency_mismatch, if◌then◌else◌, invalid_operation,
}
use gs_erp.Core.Number.{
  Decimal, Number, Value, finite, infinite, nan, product, at_storage, quantize, coerce_decimal,
}
use gs_erp.Core.Currency.{Currency, same_currency}
pub mod Laws

pub record Money : Type 0 where
  pub amount : ℤ
  pub currency : Currency

-- `Money(amount, currency)` of a finite `Decimal`.
abbrev pub of_decimal : Decimal → Currency → Money
of_decimal d c = record { amount = quantize 4 d; currency = c }

-- The tail of `__post_init__`: NaN and the infinities are refused, the rest is quantized.
abbrev pub of_number : Number → Currency → Result Money
of_number (finite d) c = ok (of_decimal d c)
of_number infinite c = err invalid_money_amount
of_number nan c = err invalid_money_amount

abbrev pub money_zero : Currency → Money
money_zero c = record { amount = pos 0; currency = c }

-- `from_minor_units`
unfoldable pub from_minor_units : ℤ → Currency → Money
from_minor_units minor c = of_decimal (record { coef = minor; places = c.minor_units }) c

-- `__add__`, `__sub__`
unfoldable pub add : Money → Money → Result Money
add a b = do
  guard (same_currency a.currency b.currency) currency_mismatch
  ok (record { amount = a.amount +ℤ b.amount; currency = a.currency })

unfoldable pub sub : Money → Money → Result Money
sub a b = do
  guard (same_currency a.currency b.currency) currency_mismatch
  ok (record { amount = a.amount -ℤ b.amount; currency = a.currency })

-- `Money * Decimal`
unfoldable pub times : Money → Decimal → Money
times a d = of_decimal (product (at_storage a.amount) d) a.currency

-- `__neg__`
unfoldable pub negate : Money → Money
negate a = record a { amount = neg a.amount }

abbrev pub is_zero : Money → Bool
is_zero a = eqb_ℤ a.amount (pos 0)

abbrev pub is_positive : Money → Bool
is_positive a = ltb_ℤ (pos 0) a.amount

abbrev pub is_negative : Money → Bool
is_negative a = ltb_ℤ a.amount (pos 0)

-- `to_minor_units`
unfoldable pub to_minor_units : Money → ℤ
to_minor_units a = quantize a.currency.minor_units (at_storage a.amount)

-- `rounded_to_minor_units`
unfoldable pub rounded_to_minor_units : Money → Money
rounded_to_minor_units a =
    of_decimal
      (record {
        coef = quantize a.currency.minor_units (at_storage a.amount);
        places = a.currency.minor_units;
      })
      a.currency

module _ (parse : String → Option Number) where
  -- `Money(value, currency)` of any object.
  unfoldable pub make_money : Value → Currency → Result Money
  make_money value c = do n ← coerce_decimal parse invalid_money_amount value; of_number n c

  -- The product of an amount with a `Decimal`, zero times infinity being an invalid operation.
  abbrev scaled : Money → Number → Result Money
  scaled a (finite d) = ok (times a d)
  scaled a infinite = if is_zero a then err invalid_operation else err invalid_money_amount
  scaled a nan = err invalid_money_amount

  -- `__mul__`
  unfoldable pub mul : Money → Value → Result Money
  mul a factor = do n ← coerce_decimal parse invalid_money_amount factor; scaled a n
