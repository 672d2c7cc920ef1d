-- ===== src/Sales/Invoice/Totals.antt =====
-- The grand total of an invoice against the sum of its lines.
use gs_erp.Base.{
  ◌≡◌, List, [], ◌∷◌, ◌++◌, map, ℤ, pos, ◌+ℤ◌, ◌-ℤ◌, max_ℤ, int_laws, sym, +ℤ_zero, refl, ◌∙◌,
  +ℤ_assoc,
}
use mathlib.Core.List.{append-nil, append_assoc}
use gs_erp.Sales.Invoice.{
  InvoiceLineSpec, InvoiceLineResult, InvoiceTotals, line_result, accumulate, no_totals, calculate,
}

abbrev pub column : (InvoiceLineResult → ℤ) → List InvoiceLineSpec → ℤ
column f [] = pos 0
column f (s ∷ ss) = f (line_result s) +ℤ column f ss

-- What a discount takes beyond its line's subtotal.
abbrev pub excess : InvoiceLineResult → ℤ
excess r = max_ℤ (r.discount_amount -ℤ r.line_subtotal) (pos 0)

clamp_lem : (a b t : ℤ) → max_ℤ (a -ℤ b) (pos 0) +ℤ t ≡ a -ℤ b +ℤ t +ℤ max_ℤ (b -ℤ a) (pos 0)
clamp_lem a b t = grind int_laws

line_total_lem :
    (s : InvoiceLineSpec)
    → let r = line_result s in
      r.line_total ≡ r.line_subtotal -ℤ r.discount_amount +ℤ r.tax_amount +ℤ excess r
unfolding line_result
line_total_lem s = clamp_lem _ _ _

accumulate_lem :
    (ss : List InvoiceLineSpec) (t : InvoiceTotals)
    → ((accumulate t ss).subtotal ≡ t.subtotal +ℤ column (λ r. r.line_subtotal) ss)
      × ((accumulate t ss).discount_total ≡ t.discount_total +ℤ column (λ r. r.discount_amount) ss)
      × ((accumulate t ss).tax_total ≡ t.tax_total +ℤ column (λ r. r.tax_amount) ss)
      × ((accumulate t ss).lines ≡ t.lines ++ map line_result ss)
unfolding accumulate
accumulate_lem [] t = (sym (+ℤ_zero _), sym (+ℤ_zero _), sym (+ℤ_zero _), sym (append-nil t.lines))
accumulate_lem (s ∷ ss) t =
    let r = line_result s in
    let (a, b, c, d) = accumulate_lem ss (record t {
      subtotal = t.subtotal +ℤ r.line_subtotal;
      discount_total = t.discount_total +ℤ r.discount_amount;
      tax_total = t.tax_total +ℤ r.tax_amount;
      lines = t.lines ++ r ∷ [];
    }) in
    (
      a ∙ +ℤ_assoc _ _ _,
      b ∙ +ℤ_assoc _ _ _,
      c ∙ +ℤ_assoc _ _ _,
      d ∙ append_assoc t.lines (r ∷ []) (map line_result ss),
    )

column-line_total :
    (ss : List InvoiceLineSpec)
    → column (λ r. r.line_total) ss
      ≡ column (λ r. r.line_subtotal) ss
        -ℤ column (λ r. r.discount_amount) ss
        +ℤ column (λ r. r.tax_amount) ss
        +ℤ column excess ss
column-line_total [] = omega int_laws
column-line_total (s ∷ ss) = rw (column-line_total ss, line_total_lem s) (omega int_laws)

zero_add : (a : ℤ) → pos 0 +ℤ a ≡ a
zero_add a = omega int_laws

-- The invoice's totals: one result for each line, in order; the grand total is the sum of the line
-- totals less what discounts take beyond their lines' subtotals. So it is the sum of the line
-- totals exactly when no discount exceeds its line.
pub grand_total-lines :
    (ss : List InvoiceLineSpec)
    → ((calculate ss).lines ≡ map line_result ss)
      × ((calculate ss).grand_total ≡ column (λ r. r.line_total) ss -ℤ column excess ss)
unfolding calculate
grand_total-lines [] = (refl, omega int_laws)
grand_total-lines (s ∷ ss) =
    let (a, b, c, d) = accumulate_lem (s ∷ ss) no_totals in
    (d, rw (a, b, c, column-line_total (s ∷ ss)) (omega int_laws))
