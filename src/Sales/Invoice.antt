-- ===== src/Sales/Invoice.antt =====
-- `CalculateSalesInvoiceTotals` of apps/sales/domain/invoice_calculator.py. Amounts are counts of
-- 0.0001 once `_q` has been applied.
pub mod Totals
use gs_erp.Base.{◌+◌, ◌-◌, ◌/◌, List, [], ◌∷◌, ◌++◌, ℤ, pos, ◌+ℤ◌, ◌-ℤ◌, max_ℤ}
use gs_erp.Core.Number.{Decimal, product, percent, at_storage, quantize}

pub record InvoiceLineSpec : Type 0 where
  pub quantity : Decimal
  pub unit_price : Decimal
  pub discount_amount : Decimal
  pub tax_rate : Decimal

pub record InvoiceLineResult : Type 0 where
  pub line_subtotal : ℤ
  pub discount_amount : ℤ
  pub taxable_amount : ℤ
  pub tax_amount : ℤ
  pub line_total : ℤ

pub record InvoiceTotals : Type 0 where
  pub subtotal : ℤ
  pub discount_total : ℤ
  pub tax_total : ℤ
  pub grand_total : ℤ
  pub lines : List InvoiceLineResult

-- `_q`
abbrev pub q : Decimal → ℤ
q = quantize 4

-- One round of the loop.
unfoldable pub line_result : InvoiceLineSpec → InvoiceLineResult
line_result spec =
    let line_sub = q (product (at_storage (q spec.quantity)) (at_storage (q spec.unit_price))) in
    let disc = q spec.discount_amount in
    let taxable = max_ℤ (line_sub -ℤ disc) (pos 0) in
    let tax = q (product (at_storage taxable) (percent (at_storage (q spec.tax_rate)))) in
    record {
      line_subtotal = line_sub;
      discount_amount = disc;
      taxable_amount = taxable;
      tax_amount = tax;
      line_total = taxable +ℤ tax;
    }

-- The loop, over what has been accumulated; `line_results.append` adds at the end.
unfoldable pub accumulate : InvoiceTotals → List InvoiceLineSpec → InvoiceTotals
accumulate t [] = t
accumulate t (spec ∷ specs) =
    let r = line_result spec in
    accumulate
      (record t {
        subtotal = t.subtotal +ℤ r.line_subtotal;
        discount_total = t.discount_total +ℤ r.discount_amount;
        tax_total = t.tax_total +ℤ r.tax_amount;
        lines = t.lines ++ r ∷ [];
      })
      specs

abbrev pub no_totals : InvoiceTotals
no_totals = record {
  subtotal = pos 0;
  discount_total = pos 0;
  tax_total = pos 0;
  grand_total = pos 0;
  lines = [];
}

unfoldable pub calculate : List InvoiceLineSpec → InvoiceTotals
unfolding accumulate
calculate [] = no_totals
calculate (spec ∷ specs) =
    let t = accumulate no_totals (spec ∷ specs) in
    record t { grand_total = t.subtotal -ℤ t.discount_total +ℤ t.tax_total }
