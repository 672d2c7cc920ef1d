-- ===== src/Sales/Tests.antt =====
-- Sales at concrete inputs.
use gs_erp.Base.{
  zero, ◌-◌, ◌≤◌, ◌<◌, ◌≡◌, refl, ◌↔◌, none, List, [], ◌∷◌, map, arith, length, ℤ, pos, negsuc,
  ◌-ℤ◌, ◌<ℤ◌, ok, total, false,
}
use gs_erp.Core.Number.{Decimal, whole}
use gs_erp.Core.Currency.{Currency}
use gs_erp.Core.Money.{Money, money_zero}
use gs_erp.Sales.Line.{SaleLineSpec, make_line}
use gs_erp.Sales.Line.Bounds.{IsLine, make_line-IsLine}
use gs_erp.Sales.Draft.{
  SaleDraft, SaleTotals, make_draft, compute_totals, PaymentStatus, paid, overpaid,
  derive_payment_status,
}
use gs_erp.Sales.Draft.Totals.{AddsUp, compute_totals-AddsUp}
use gs_erp.Sales.Invoice.{InvoiceLineSpec, calculate, line_result}
use gs_erp.Sales.Invoice.Totals.{grand_total-lines, column, excess}
use gs_erp.Sales.Status.{SaleStatus, can_transition_to}

abbrev sar : Currency
sar = record { code = "SAR"; minor_units = 2 }

abbrev riyals : ℤ → Money
riyals n = record { amount = n; currency = sar }

-- Two and a half pieces at 40, less 10 percent, with 15 percent tax.
abbrev cloth : SaleLineSpec
cloth = record {
  product_id = pos 7;
  warehouse_id = pos 1;
  quantity = record { value = 25000; uom_code = "PCS" };
  unit_price = riyals (pos 400000);
  discount_percent = whole (pos 10);
  tax_rate_percent = whole (pos 15);
  variant_id = none;
}

-- With an order discount of 5 and a shipping of 12.
abbrev sale : SaleDraft
sale = record {
  lines = cloth ∷ cloth ∷ [];
  order_discount = riyals (pos 50000);
  shipping = riyals (pos 120000);
  memo = "";
}

cloth_made : make_line cloth ≡ ok cloth
unfolding make_line
cloth_made = refl

cloth-IsLine : IsLine cloth
cloth-IsLine = (make_line-IsLine cloth cloth cloth_made).1

sale_made : make_draft sale ≡ ok sale
unfolding make_draft gs_erp.Sales.Draft.sum_of gs_erp.Sales.Line.line_after_discount
    gs_erp.Core.Money.sub gs_erp.Sales.Line.line_subtotal gs_erp.Core.Money.times
    gs_erp.Sales.Line.line_discount gs_erp.Base.◌+ℤ◌ ◌-ℤ◌ gs_erp.Core.Number.quantize
    gs_erp.Base.round_half_up gs_erp.Base.◌*ℤ◌ gs_erp.Base.half_up
sale_made = refl

compute_totals-AddsUp_example : (t : SaleTotals) × (compute_totals sale ≡ ok t) × AddsUp sale t
compute_totals-AddsUp_example =
    compute_totals-AddsUp sale sale (cloth-IsLine, (cloth-IsLine, tt)) sale_made

-- A discount of 30 on a line of 20.
abbrev promotion : InvoiceLineSpec
promotion = record {
  quantity = whole (pos 2);
  unit_price = whole (pos 10);
  discount_amount = whole (pos 30);
  tax_rate = whole (pos 15);
}

grand_total-lines_example :
    ((calculate (promotion ∷ [])).lines ≡ map line_result (promotion ∷ []))
    × ((calculate (promotion ∷ [])).grand_total
        ≡ column (λ r. r.line_total) (promotion ∷ []) -ℤ column excess (promotion ∷ []))
grand_total-lines_example = grand_total-lines (promotion ∷ [])

-- Ten below zero, although the line's total is zero.
promotion_total : (calculate (promotion ∷ [])).grand_total ≡ negsuc 99999
unfolding calculate gs_erp.Base.◌+ℤ◌ ◌-ℤ◌ line_result gs_erp.Core.Number.quantize
    gs_erp.Base.round_half_up gs_erp.Base.◌*ℤ◌ gs_erp.Base.half_up
promotion_total = refl

-- A posted sale is not cancelled.
posted_cancel : can_transition_to SaleStatus.posted SaleStatus.cancelled ≡ false
unfolding can_transition_to
posted_cancel = refl
