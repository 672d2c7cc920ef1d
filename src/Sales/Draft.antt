-- ===== src/Sales/Draft.antt =====
-- `SaleDraft`, `SaleTotals` and `derive_payment_status` of apps/sales/domain/entities.py.
pub mod Totals
pub mod Payment
use gs_erp.Base.{
  ℕ, ◌+◌, ◌-◌, ◌/◌, String, Bool, false, ◌||◌, List, [], ◌∷◌, ◌++◌, map, ◌==◌, if◌then◌else◌, all,
  is_empty, ℤ, pos, ◌+ℤ◌, ltb_ℤ, eqb_ℤ, Result, ok, err, ◌>>=◌, ◌>>◌, guard, raise_if, empty_sale,
  invalid_sale, sale_currency_mismatch, index_error,
}
use gs_erp.Core.Currency.{Currency, same_currency}
use gs_erp.Core.Money.{Money, add, sub, is_negative, is_zero}
use gs_erp.Sales.Line.{SaleLineSpec, line_subtotal, line_discount, line_after_discount, line_tax}

pub record SaleDraft : Type 0 where
  pub lines : List SaleLineSpec
  pub order_discount : Money
  pub shipping : Money
  pub memo : String

pub record SaleTotals : Type 0 where
  pub currency : Currency
  pub total_quantity : ℕ
  pub lines_subtotal : Money
  pub lines_discount : Money
  pub lines_tax : Money
  pub order_discount : Money
  pub shipping : Money
  pub grand_total : Money

-- `len(set(currencies)) == 1`
abbrev pub one_currency : List Currency → Bool
one_currency [] = false
one_currency (c ∷ cs) = all (same_currency c) cs

abbrev pub line_currency : SaleLineSpec → Currency
line_currency l = l.unit_price.currency

-- `sum((f(line).amount for line in lines), start=Decimal("0"))`
unfoldable pub sum_of : (SaleLineSpec → Result Money) → List SaleLineSpec → Result ℤ
sum_of f [] = ok (pos 0)
sum_of f (l ∷ ls) = do m ← f l; rest ← sum_of f ls; ok (m.amount +ℤ rest)

abbrev pub sum_quantity : List SaleLineSpec → ℕ
sum_quantity [] = 0
sum_quantity (l ∷ ls) = l.quantity.value + sum_quantity ls

-- `__post_init__`
unfoldable pub make_draft : SaleDraft → Result SaleDraft
make_draft d = do
  raise_if (is_empty d.lines) empty_sale
  guard
      (one_currency
        (map line_currency d.lines ++ d.order_discount.currency ∷ d.shipping.currency ∷ []))
      sale_currency_mismatch
  raise_if (is_negative d.order_discount || is_negative d.shipping) invalid_sale
  lines_after_discount ← sum_of line_after_discount d.lines
  raise_if (ltb_ℤ lines_after_discount d.order_discount.amount) invalid_sale
  ok d

-- `lines[0].currency`; an empty tuple has no first line (`IndexError`).
abbrev pub first_currency : List SaleLineSpec → Result Currency
first_currency [] = err index_error
first_currency (l ∷ ls) = ok (line_currency l)

unfoldable pub compute_totals : SaleDraft → Result SaleTotals
compute_totals d = do
  cur ← first_currency d.lines
  subtotal ← sum_of (λ l. ok (line_subtotal l)) d.lines
  discount ← sum_of (λ l. ok (line_discount l)) d.lines
  tax ← sum_of line_tax d.lines
  let lines_subtotal : Money = record { amount = subtotal; currency = cur }
  let lines_discount : Money = record { amount = discount; currency = cur }
  let lines_tax : Money = record { amount = tax; currency = cur }
  after_lines ← sub lines_subtotal lines_discount
  after_order ← sub after_lines d.order_discount
  with_tax ← add after_order lines_tax
  grand_total ← add with_tax d.shipping
  ok (record {
    currency = cur;
    total_quantity = sum_quantity d.lines;
    lines_subtotal = lines_subtotal;
    lines_discount = lines_discount;
    lines_tax = lines_tax;
    order_discount = d.order_discount;
    shipping = d.shipping;
    grand_total = grand_total;
  })

-- `SaleTotals.net_revenue`
unfoldable pub net_revenue : SaleTotals → Result Money
net_revenue t = do
  a ← sub t.lines_subtotal t.lines_discount
  b ← sub a t.order_discount
  add b t.shipping

pub data PaymentStatus : Type 0 where
  unpaid partial paid overpaid refunded : PaymentStatus

-- `derive_payment_status`
unfoldable pub derive_payment_status : Money → Money → Result PaymentStatus
derive_payment_status grand_total amount_paid = do
  guard (same_currency grand_total.currency amount_paid.currency) sale_currency_mismatch
  if is_zero amount_paid
      then ok unpaid
      else if ltb_ℤ amount_paid.amount grand_total.amount
      then ok partial
      else if eqb_ℤ amount_paid.amount grand_total.amount
      then ok paid
      else ok overpaid
