-- ===== src/Sales/Draft/Totals.antt =====
-- The totals of an accepted sale: they exist, add up line by line, and are not negative.
use gs_erp.Base.{
  ◌≡◌, refl, Bool, true, List, [], ◌∷◌, ◌++◌, arith, all, All, ℤ, pos, ◌+ℤ◌, ◌-ℤ◌, ◌≤ℤ◌, int_laws,
  Result, ok, String, map,
}
use gs_erp.Core.Currency.{Currency, same_currency, same_currency_iff}
use gs_erp.Core.Money.{Money}
use gs_erp.Core.Money.Laws.{add_same, sub_same}
use gs_erp.Sales.Line.{SaleLineSpec, line_subtotal, line_discount, line_after_discount, line_tax}
use gs_erp.Sales.Line.Bounds.{
  IsLine, net, tax, gross, tax_bounds, line_after_discount_lem, line_tax_lem,
}
use gs_erp.Sales.Draft.{
  SaleDraft, SaleTotals, line_currency, sum_of, make_draft, compute_totals, net_revenue,
  sum_quantity,
}

-- A column of a sale: one amount for each line.
abbrev column : (SaleLineSpec → Money) → List SaleLineSpec → ℤ
column g [] = pos 0
column g (l ∷ ls) = (g l).amount +ℤ column g ls

sum_of-column :
    (f : SaleLineSpec → Result Money) (g : SaleLineSpec → Money) (ls : List SaleLineSpec)
    → ((l : SaleLineSpec) → f l ≡ ok (g l))
    → sum_of f ls ≡ ok (column g ls)
unfolding sum_of
sum_of-column f g [] h = refl
sum_of-column f g (l ∷ ls) h = rw (h l, sum_of-column f g ls h)

column-net :
    (ls : List SaleLineSpec) → column net ls ≡ column line_subtotal ls -ℤ column line_discount ls
unfolding net
column-net [] = omega int_laws
column-net (l ∷ ls) = rw (column-net ls) (omega int_laws)

column-gross : (ls : List SaleLineSpec) → column gross ls ≡ column net ls +ℤ column tax ls
unfolding gross
column-gross [] = omega int_laws
column-gross (l ∷ ls) = rw (column-gross ls) (omega int_laws)

column-tax_nonneg : (ls : List SaleLineSpec) → All IsLine ls → pos 0 ≤ℤ column tax ls
column-tax_nonneg [] h = omega arith
column-tax_nonneg (l ∷ ls) h = omega (int_laws, (tax_bounds l h.0).0, column-tax_nonneg ls h.1)

all-last :
    (p : Currency → Bool) (xs : List Currency) (a b : Currency)
    → all p (xs ++ a ∷ b ∷ []) ≡ true
    → (p a ≡ true) × (p b ≡ true)
all-last p [] a b h = ground arith
all-last p (x ∷ xs) a b h = all-last p xs a b (ground arith)

-- What `__post_init__` has checked of a draft whose first line is `l`.
pub record IsDraft (l : SaleLineSpec) (ls : List SaleLineSpec) (order_discount shipping : Money)
    : Type 0 where
  pub order_currency : line_currency l ≡ order_discount.currency
  pub shipping_currency : line_currency l ≡ shipping.currency
  pub order_nonneg : pos 0 ≤ℤ order_discount.amount
  pub shipping_nonneg : pos 0 ≤ℤ shipping.amount
  pub order_fits : order_discount.amount ≤ℤ column net (l ∷ ls)

make_draft-IsDraft :
    (l : SaleLineSpec) (ls : List SaleLineSpec) (order shipping : Money) (memo : String)
    (d : SaleDraft)
    → make_draft
        (record { lines = l ∷ ls; order_discount = order; shipping = shipping; memo = memo })
      ≡ ok d
    → IsDraft l ls order shipping
unfolding make_draft
make_draft-IsDraft l ls order shipping memo d h =
    let last =
      all-last (same_currency (line_currency l)) (map line_currency ls) order.currency
        shipping.currency in
    let total = sum_of-column line_after_discount net (l ∷ ls) line_after_discount_lem in
    record {
      order_currency =
          (same_currency_iff (line_currency l) order.currency).0 (last (ground arith)).0;
      shipping_currency =
          (same_currency_iff (line_currency l) shipping.currency).0 (last (ground arith)).1;
      order_nonneg = ground (arith, total);
      shipping_nonneg = ground (arith, total);
      order_fits = ground (arith, total);
    }

abbrev money : SaleLineSpec → ℤ → Money
money l amount = record { amount = amount; currency = line_currency l }

module _ (l : SaleLineSpec) (ls : List SaleLineSpec) (order shipping : Money) where
  abbrev discounted : ℤ
  discounted = column line_subtotal (l ∷ ls) -ℤ column line_discount (l ∷ ls)

  abbrev revenue : ℤ
  revenue = discounted -ℤ order.amount

  abbrev grand : ℤ
  grand = revenue +ℤ column tax (l ∷ ls) +ℤ shipping.amount

  abbrev draft_of : String → SaleDraft
  draft_of memo = record {
    lines = l ∷ ls;
    order_discount = order;
    shipping = shipping;
    memo = memo;
  }

  abbrev totals : SaleTotals
  totals = record {
    currency = line_currency l;
    total_quantity = sum_quantity (l ∷ ls);
    lines_subtotal = money l (column line_subtotal (l ∷ ls));
    lines_discount = money l (column line_discount (l ∷ ls));
    lines_tax = money l (column tax (l ∷ ls));
    order_discount = order;
    shipping = shipping;
    grand_total = money l grand;
  }

  module _ (v : IsDraft l ls order shipping) where
    compute_totals_lem : (memo : String) → compute_totals (draft_of memo) ≡ ok totals
    unfolding compute_totals
    compute_totals_lem memo = rw (
      sum_of-column (λ k. ok (line_subtotal k)) line_subtotal (l ∷ ls) (λ k. refl),
      sum_of-column (λ k. ok (line_discount k)) line_discount (l ∷ ls) (λ k. refl),
      sum_of-column line_tax tax (l ∷ ls) line_tax_lem,
      sub_same (money l (column line_subtotal (l ∷ ls))) (money l (column line_discount (l ∷ ls)))
          refl,
      sub_same (money l discounted) order v.order_currency,
      add_same (money l revenue) (money l (column tax (l ∷ ls))) refl,
      add_same (money l (revenue +ℤ column tax (l ∷ ls))) shipping v.shipping_currency,
    )

    net_revenue_lem : net_revenue totals ≡ ok (money l (revenue +ℤ shipping.amount))
    unfolding net_revenue
    net_revenue_lem = rw (
      sub_same (money l (column line_subtotal (l ∷ ls))) (money l (column line_discount (l ∷ ls)))
          refl,
      sub_same (money l discounted) order v.order_currency,
      add_same (money l revenue) shipping v.shipping_currency,
    )

    grand_lines : grand ≡ column gross (l ∷ ls) -ℤ order.amount +ℤ shipping.amount
    grand_lines = rw (column-gross (l ∷ ls), column-net (l ∷ ls)) (omega int_laws)

    revenue_nonneg : pos 0 ≤ℤ revenue
    revenue_nonneg = let fits = rw (column-net (l ∷ ls)) at v.order_fits in omega (int_laws, fits)

-- The totals of an accepted sale, read line by line: the grand total is the sum of the line totals
-- less the order discount plus the shipping, and it splits into net revenue and tax.
pub record AddsUp (d : SaleDraft) (t : SaleTotals) : Type 0 where
  pub grand_of_lines :
      t.grand_total.amount ≡ column gross d.lines -ℤ d.order_discount.amount +ℤ d.shipping.amount
  pub revenue : Money
  pub has_revenue : net_revenue t ≡ ok revenue
  pub revenue_and_tax : t.grand_total.amount ≡ revenue.amount +ℤ t.lines_tax.amount
  pub shipping_covered : d.shipping.amount ≤ℤ revenue.amount
  pub tax_nonneg : pos 0 ≤ℤ t.lines_tax.amount
  pub grand_nonneg : pos 0 ≤ℤ t.grand_total.amount

totals_of_lines :
    (ls : List SaleLineSpec) (order shipping : Money) (memo : String) (e : SaleDraft)
    → let d : SaleDraft = record {
      lines = ls;
      order_discount = order;
      shipping = shipping;
      memo = memo;
    } in
      All IsLine ls
      → make_draft d ≡ ok e
      → (t : SaleTotals) × (compute_totals d ≡ ok t) × AddsUp d t
unfolding make_draft
totals_of_lines [] order shipping memo e valid h = cc
totals_of_lines (l ∷ ls) order shipping memo e valid h =
    let v = make_draft-IsDraft l ls order shipping memo e h in
    let rest = revenue_nonneg l ls order shipping v in
    let taxes = column-tax_nonneg (l ∷ ls) valid in
    (
      totals l ls order shipping,
      compute_totals_lem l ls order shipping v memo,
      record {
        grand_of_lines = grand_lines l ls order shipping v;
        revenue = money l (revenue l ls order shipping +ℤ shipping.amount);
        has_revenue = net_revenue_lem l ls order shipping v;
        revenue_and_tax = omega int_laws;
        shipping_covered = omega (int_laws, rest);
        tax_nonneg = taxes;
        grand_nonneg = omega (int_laws, rest, taxes, v.shipping_nonneg);
      },
    )

-- For every sale that `SaleDraft` accepts, with lines that `SaleLineSpec` accepts, `compute_totals`
-- raises nothing, and its result adds up: the grand total is the sum of the line totals less the
-- order discount plus the shipping; it is net revenue plus tax; net revenue covers the shipping;
-- tax and grand total are not negative.
pub compute_totals-AddsUp :
    (d e : SaleDraft)
    → All IsLine d.lines
    → make_draft d ≡ ok e
    → (t : SaleTotals) × (compute_totals d ≡ ok t) × AddsUp d t
compute_totals-AddsUp d e valid h =
    totals_of_lines d.lines d.order_discount d.shipping d.memo e valid h
