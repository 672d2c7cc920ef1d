-- ===== src/Sales/Line/Bounds.antt =====
-- What construction guarantees of a line: its amounts exist, share the line's currency and lie in
-- the ranges that the totals rest on.
use gs_erp.Base.{
  ◌*◌, ◌^◌, ◌<◌, ◌≡◌, inl, inr, false, arith, Bool-cases, pos, ◌≤ℤ◌, eqb_ℤ, ok, ◌-ℤ◌, ◌+ℤ◌, ◌∙◌,
  sym, int_laws,
}
use gs_erp.Core.Number.{Decimal}
use gs_erp.Core.Money.{Money}
use gs_erp.Core.Money.Laws.{add_same, sub_same, currency-times, times_nonneg, times-percent_bounds}
use gs_erp.Sales.Line.{
  SaleLineSpec, out_of_percent_range, make_line, percent_of, line_subtotal, line_discount,
  line_after_discount, line_tax, line_total,
}

pub record IsPercent (d : Decimal) : Type 0 where
  pub low : pos 0 ≤ℤ d.coef
  pub high : d.coef ≤ℤ pos (100 * 10 ^ d.places)

pub record IsLine (l : SaleLineSpec) : Type 0 where
  pub has_quantity : 0 < l.quantity.value
  pub has_price : pos 0 ≤ℤ l.unit_price.amount
  pub has_discount : IsPercent l.discount_percent
  pub has_tax : IsPercent l.tax_rate_percent

IsPercent-in_range : (d : Decimal) → out_of_percent_range d ≡ false → IsPercent d
IsPercent-in_range d h = record { low = ground arith; high = ground arith }

pub make_line-IsLine : (l m : SaleLineSpec) → make_line l ≡ ok m → (m ≡ l) × IsLine l
unfolding make_line
make_line-IsLine l m h = ground arith

pub percent_of_bounds :
    (m : Money) (d : Decimal)
    → pos 0 ≤ℤ m.amount
    → IsPercent d
    → (pos 0 ≤ℤ (percent_of m d).amount) × ((percent_of m d).amount ≤ℤ m.amount)
unfolding percent_of
percent_of_bounds m d h p = elim (Bool-cases (eqb_ℤ d.coef (pos 0))) [
  | inl none_taken ↦ rw none_taken (omega arith, omega arith)
  | inr taken ↦ rw taken (times-percent_bounds m d h p.low p.high)
]

pub currency-percent_of : (m : Money) (d : Decimal) → (percent_of m d).currency ≡ m.currency
unfolding percent_of
currency-percent_of m d = elim (Bool-cases (eqb_ℤ d.coef (pos 0))) [
  | inl none_taken ↦ rw none_taken
  | inr taken ↦ rw taken (currency-times m _)
]

-- The amounts as plain functions, which the fallible ones return.
module _ (l : SaleLineSpec) where
  unfoldable pub net : Money
  net = record {
    amount = (line_subtotal l).amount -ℤ (line_discount l).amount;
    currency = l.unit_price.currency;
  }

  unfoldable pub tax : Money
  unfolding net
  tax = percent_of net l.tax_rate_percent

  unfoldable pub gross : Money
  unfolding net tax
  gross = record { amount = net.amount +ℤ tax.amount; currency = l.unit_price.currency }

  pub currency-line_subtotal : (line_subtotal l).currency ≡ l.unit_price.currency
  unfolding line_subtotal
  currency-line_subtotal = currency-times l.unit_price _

  pub currency-line_discount : (line_discount l).currency ≡ l.unit_price.currency
  unfolding line_discount
  currency-line_discount =
      currency-percent_of (line_subtotal l) l.discount_percent ∙ currency-line_subtotal

  pub currency-tax : tax.currency ≡ l.unit_price.currency
  unfolding tax
  currency-tax = currency-percent_of net l.tax_rate_percent

  pub line_after_discount_lem : line_after_discount l ≡ ok net
  unfolding line_after_discount net
  line_after_discount_lem =
      sub_same (line_subtotal l) (line_discount l)
        (currency-line_subtotal ∙ sym currency-line_discount)
      ∙ rw currency-line_subtotal

  pub line_tax_lem : line_tax l ≡ ok tax
  unfolding line_tax tax
  line_tax_lem = rw line_after_discount_lem

  pub line_total_lem : line_total l ≡ ok gross
  unfolding line_total gross
  line_total_lem = rw (line_after_discount_lem, line_tax_lem) (add_same net tax (sym currency-tax))

  pub line_subtotal_nonneg : IsLine l → pos 0 ≤ℤ (line_subtotal l).amount
  unfolding line_subtotal
  line_subtotal_nonneg v = times_nonneg l.unit_price _ v.has_price (omega arith)

  pub line_discount_bounds :
      IsLine l
      → (pos 0 ≤ℤ (line_discount l).amount) × ((line_discount l).amount ≤ℤ (line_subtotal l).amount)
  unfolding line_discount
  line_discount_bounds v =
      percent_of_bounds (line_subtotal l) l.discount_percent (line_subtotal_nonneg v) v.has_discount

  pub net_nonneg : IsLine l → pos 0 ≤ℤ net.amount
  unfolding net
  net_nonneg v = omega (int_laws, line_discount_bounds v)

  pub tax_bounds : IsLine l → (pos 0 ≤ℤ tax.amount) × (tax.amount ≤ℤ net.amount)
  unfolding tax
  tax_bounds v = percent_of_bounds net l.tax_rate_percent (net_nonneg v) v.has_tax
