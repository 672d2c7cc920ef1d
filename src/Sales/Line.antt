-- ===== src/Sales/Line.antt =====
-- `SaleLineSpec` of apps/sales/domain/entities.py. The `isinstance` checks hold by the types.
pub mod Bounds
use gs_erp.Base.{
  ◌-◌, ◌*◌, ◌/◌, ◌<◌, Bool, false, not, ◌||◌, Option, none, some, ◌==◌, if◌then◌else◌, ℤ, pos,
  leb_ℤ, eqb_ℤ, Result, ok, raise_if, invalid_sale_line, ◌>>◌, ◌>>=◌,
}
use gs_erp.Core.Number.{Decimal, at_storage, percent, le_whole, is_negative}
use gs_erp.Core.Currency.{Currency}
use gs_erp.Core.Money.{Money, money_zero, sub, add, times}
use gs_erp.Core.Money
use gs_erp.Core.Quantity.{Quantity, is_zero}

pub record SaleLineSpec : Type 0 where
  pub product_id : ℤ
  pub warehouse_id : ℤ
  pub quantity : Quantity
  pub unit_price : Money
  pub discount_percent : Decimal
  pub tax_rate_percent : Decimal
  pub variant_id : Option ℤ

-- `value < Decimal("0") or value > Decimal("100")`
abbrev pub out_of_percent_range : Decimal → Bool
out_of_percent_range d = is_negative d || not (le_whole d 100)

-- `variant_id is not None and variant_id <= 0`
abbrev pub is_bad_id : Option ℤ → Bool
is_bad_id none = false
is_bad_id (some v) = leb_ℤ v (pos 0)

-- `__post_init__`
unfoldable pub make_line : SaleLineSpec → Result SaleLineSpec
make_line l = do
  raise_if (leb_ℤ l.product_id (pos 0)) invalid_sale_line
  raise_if (leb_ℤ l.warehouse_id (pos 0)) invalid_sale_line
  raise_if (is_zero l.quantity) invalid_sale_line
  raise_if (Money.is_negative l.unit_price) invalid_sale_line
  raise_if (out_of_percent_range l.discount_percent) invalid_sale_line
  raise_if (out_of_percent_range l.tax_rate_percent) invalid_sale_line
  raise_if (is_bad_id l.variant_id) invalid_sale_line
  ok l

-- `percent == Decimal("0")` takes nothing; otherwise `m * (percent / 100)`.
unfoldable pub percent_of : Money → Decimal → Money
percent_of m d = if eqb_ℤ d.coef (pos 0) then money_zero m.currency else times m (percent d)

unfoldable pub line_subtotal : SaleLineSpec → Money
line_subtotal l = times l.unit_price (at_storage (pos l.quantity.value))

unfoldable pub line_discount : SaleLineSpec → Money
unfolding percent_of line_subtotal
line_discount l = percent_of (line_subtotal l) l.discount_percent

unfoldable pub line_after_discount : SaleLineSpec → Result Money
line_after_discount l = sub (line_subtotal l) (line_discount l)

unfoldable pub line_tax : SaleLineSpec → Result Money
line_tax l = do after ← line_after_discount l; ok (percent_of after l.tax_rate_percent)

unfoldable pub line_total : SaleLineSpec → Result Money
line_total l = do after ← line_after_discount l; tax ← line_tax l; add after tax
