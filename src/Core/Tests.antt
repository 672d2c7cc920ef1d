-- ===== src/Core/Tests.antt =====
-- The value objects at concrete inputs.
use gs_erp.Base.{◌≡◌, refl, arith, pos, negsuc, ok, ◌>>=◌}
use gs_erp.Core.Currency.{Currency}
use gs_erp.Core.Money.{Money, rounded_to_minor_units}
use gs_erp.Core.Quantity.{Quantity}

abbrev sar : Currency
sar = record { code = "SAR"; minor_units = 2 }

abbrev kwd : Currency
kwd = record { code = "KWD"; minor_units = 3 }

-- 12.3456
abbrev price : Money
price = record { amount = pos 123456; currency = sar }

abbrev fee : Money
fee = record { amount = pos 50000; currency = sar }

rounded_price : rounded_to_minor_units price ≡ record { amount = pos 123500; currency = sar }
unfolding rounded_to_minor_units gs_erp.Core.Number.quantize gs_erp.Base.round_half_up
    gs_erp.Base.◌*ℤ◌ gs_erp.Base.half_up
rounded_price = refl

abbrev box : Quantity
box = record { value = 30000; uom_code = "BOX" }

abbrev half_box : Quantity
half_box = record { value = 5000; uom_code = "BOX" }
