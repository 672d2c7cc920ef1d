-- ===== src/Core/Money/Laws.antt =====
-- The laws of `Money`: exact sums, round trips through minor units, bounds of a rounded product.
use gs_erp.Base.{
  ◌≤◌, ◌≡◌, inl, inr, if◌then◌else◌, Bool-cases, ℤ, +ℤ-cancel, ok, err, ◌>>=◌, currency_mismatch,
  ◌+ℤ◌, ◌-ℤ◌, pos, refl, ◌≤ℤ◌, ◌*◌, ◌^◌,
}
use gs_erp.Core.Number.{Decimal, percent, quantize-storage, product_nonneg, share_bounds}
use gs_erp.Core.Currency.{Currency, same_currency, same_currency_iff}
use gs_erp.Core.Money.{
  Money, add, sub, from_minor_units, to_minor_units, rounded_to_minor_units, times,
}

-- Subtracting what was added gives the first amount back, in the same currency; over two
-- currencies both operations raise `CurrencyMismatchError`.
pub sub-add :
    (a b : Money)
    → (add a b >>= λ c. sub c b)
      ≡ (if same_currency a.currency b.currency then ok a else err currency_mismatch)
unfolding add sub
sub-add a b = elim (Bool-cases (same_currency a.currency b.currency)) [
  | inl same ↦ rw (same, same, +ℤ-cancel)
  | inr other ↦ rw other
]

-- An integer number of minor units survives the way through `Money`.
pub to-from_minor_units :
    (n : ℤ) (c : Currency) → c.minor_units ≤ 4 → to_minor_units (from_minor_units n c) ≡ n
unfolding to_minor_units from_minor_units
to-from_minor_units n c h = quantize-storage n c.minor_units h

-- Rounding to minor units twice is rounding once.
pub rounded_idempotent :
    (a : Money)
    → a.currency.minor_units ≤ 4
    → rounded_to_minor_units (rounded_to_minor_units a) ≡ rounded_to_minor_units a
unfolding rounded_to_minor_units
rounded_idempotent a h = rw (quantize-storage _ a.currency.minor_units h)

-- Where the currencies agree a sum and a difference are exact.
pub add_same :
    (a b : Money)
    → a.currency ≡ b.currency
    → add a b ≡ ok (record { amount = a.amount +ℤ b.amount; currency = a.currency })
unfolding add
add_same a b h = rw ((same_currency_iff a.currency b.currency).1 h)

pub sub_same :
    (a b : Money)
    → a.currency ≡ b.currency
    → sub a b ≡ ok (record { amount = a.amount -ℤ b.amount; currency = a.currency })
unfolding sub
sub_same a b h = rw ((same_currency_iff a.currency b.currency).1 h)

pub currency-times : (a : Money) (d : Decimal) → (times a d).currency ≡ a.currency
unfolding times
currency-times a d = refl

pub times_nonneg :
    (a : Money) (d : Decimal) → pos 0 ≤ℤ a.amount → pos 0 ≤ℤ d.coef → pos 0 ≤ℤ (times a d).amount
unfolding times
times_nonneg a d h k = product_nonneg a.amount d.coef d.places h k

pub times-percent_bounds :
    (a : Money) (d : Decimal)
    → pos 0 ≤ℤ a.amount
    → pos 0 ≤ℤ d.coef
    → d.coef ≤ℤ pos (100 * 10 ^ d.places)
    → (pos 0 ≤ℤ (times a (percent d)).amount) × ((times a (percent d)).amount ≤ℤ a.amount)
unfolding times
times-percent_bounds a d h k le = share_bounds a.amount d.coef d.places h k le
