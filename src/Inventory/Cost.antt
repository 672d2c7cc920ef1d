-- ===== src/Inventory/Cost.antt =====
-- `ComputeAverageCost` of apps/inventory/application/use_cases/compute_average_cost.py, over a row
-- of `StockOnHand` (apps/inventory/infrastructure/models.py). Quantities and costs are counts of
-- 0.0001. A quotient of decimals is taken exactly before it is rounded.
pub mod Average
use gs_erp.Base.{
  ◌+◌, ◌-◌, ◌*◌, ◌/◌, ◌^◌, String, Option, none, some, if◌then◌else◌, ℤ, pos, pos_part, ◌+ℤ◌, ◌-ℤ◌,
  ◌*ℤ◌, abs, ltb_ℤ, leb_ℤ, round_half_up, Result, ok, ◌>>=◌, ◌>>◌, raise_if, value_error,
}

pub record StockOnHand : Type 0 where
  pub quantity : ℤ
  pub uom_code : String
  pub average_cost : ℤ
  pub inventory_value : ℤ

-- `(quantity * cost).quantize(_PRECISION, ROUND_HALF_UP)`
abbrev pub value_at : ℤ → ℤ → ℤ
value_at quantity cost = round_half_up (quantity *ℤ cost) (10 ^ 4)

-- The new average cost of `on_inbound`.
unfoldable pub new_average : StockOnHand → ℤ → ℤ → ℤ
new_average soh inbound_qty unit_cost =
    if leb_ℤ soh.quantity (pos 0)
    then unit_cost
    else round_half_up (soh.quantity *ℤ soh.average_cost +ℤ inbound_qty *ℤ unit_cost)
        (pos_part (soh.quantity +ℤ inbound_qty))

unfoldable pub on_inbound : StockOnHand → ℤ → ℤ → StockOnHand
on_inbound soh inbound_qty unit_cost =
    let new_avg = new_average soh inbound_qty unit_cost in
    record soh {
      average_cost = new_avg;
      inventory_value = value_at (soh.quantity +ℤ inbound_qty) new_avg;
    }

unfoldable pub on_outbound : StockOnHand → ℤ → Result StockOnHand
on_outbound soh outbound_qty = do
  raise_if (ltb_ℤ soh.quantity outbound_qty) value_error
  ok (record soh { inventory_value = value_at (soh.quantity -ℤ outbound_qty) soh.average_cost })

abbrev pub or_average : StockOnHand → Option ℤ → ℤ
or_average soh none = soh.average_cost
or_average soh (some cost) = cost

unfoldable pub on_adjustment : StockOnHand → ℤ → Option ℤ → Result StockOnHand
unfolding on_outbound on_inbound
on_adjustment soh signed_qty unit_cost =
    if ltb_ℤ (pos 0) signed_qty
    then ok (on_inbound soh signed_qty (or_average soh unit_cost))
    else on_outbound soh (pos (abs signed_qty))
