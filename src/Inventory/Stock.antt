-- ===== src/Inventory/Stock.antt =====
-- `RecordStockMovement` of apps/inventory/application/use_cases/record_stock_movement.py over the
-- rows of apps/inventory/infrastructure/models.py: the movement log and its on-hand projection.
pub mod Projection
pub mod Validity
use gs_erp.Base.{
  ℕ, ◌+◌, ◌-◌, ◌*◌, ◌/◌, ◌^◌, String, Bool, true, false, ◌&&◌, Option, none, some, List, [], ◌∷◌,
  ◌++◌, ◌==◌, if◌then◌else◌, length, ℤ, pos, ◌+ℤ◌, ◌*ℤ◌, neg, ltb_ℤ, leb_ℤ, round_half_even, Result,
  ok, ◌>>=◌, ◌>>◌, guard, raise_if, or_raise, insufficient_stock, non_stockable_product,
  warehouse_not_found, Rows,
}
use gs_erp.Core.Quantity.{Quantity}
use gs_erp.Inventory.Movement.{
  MovementType, adjustment, MovementSpec, is_adjustment, type_direction, direction,
}
use gs_erp.Inventory.Cost.{StockOnHand, on_inbound, on_outbound}

pub data ProductType : Type 0 where
  standard combo service digital : ProductType

pub record Product : Type 0 where
  pub type : ProductType
  pub is_active : Bool
  pub inventory_account : Option ℕ
  pub cogs_account : Option ℕ
  pub purchase_account : Option ℕ

pub record StockMovement : Type 0 where
  pub product_id : ℕ
  pub warehouse_id : ℕ
  pub movement_type : MovementType
  pub quantity : ℕ
  pub uom_code : String
  pub reference : String
  pub source_type : String
  pub source_id : Option ℕ
  pub transfer_id : Option ℕ
  pub adjustment_sign : ℤ
  pub unit_cost : Option ℤ
  pub total_cost : Option ℤ

-- The tables; the log is in the order of insertion, and a row's key is its place.
pub record Stock : Type 0 where
  pub products : Rows Product
  pub active_warehouses : ℕ → Bool
  pub on_hand : ℕ → Rows StockOnHand
  pub movements : List StockMovement

pub record RecordedMovement : Type 0 where
  pub movement_id : ℕ
  pub product_id : ℕ
  pub warehouse_id : ℕ
  pub new_on_hand : ℤ
  pub unit_cost : Option ℤ

-- `product.type in _STOCKABLE_TYPES`
abbrev pub is_stockable : ProductType → Bool
is_stockable standard = true
is_stockable _ = false

-- `Product.objects.get(pk=..., is_active=True)`
abbrev pub active_product : Option Product → Option Product
active_product none = none
active_product (some p) = if p.is_active then some p else none

-- `get_or_create`, with its defaults.
abbrev pub or_created : Option StockOnHand → String → StockOnHand
or_created none uom = record {
  quantity = pos 0;
  uom_code = uom;
  average_cost = pos 0;
  inventory_value = pos 0;
}
or_created (some soh) uom = soh

-- The cost of an inbound movement: the one given, or else a positive average.
abbrev pub inbound_cost : StockOnHand → Option ℤ → Option ℤ
inbound_cost soh (some cost) = some cost
inbound_cost soh none = if ltb_ℤ (pos 0) soh.average_cost then some soh.average_cost else none

abbrev pub with_inbound : StockOnHand → ℕ → Option ℤ → StockOnHand
with_inbound soh qty none = soh
with_inbound soh qty (some cost) = on_inbound soh (pos qty) cost

-- `_update_cost`
unfoldable pub update_cost : StockOnHand → MovementSpec → ℕ → ℤ → Result (StockOnHand × Option ℤ)
update_cost soh spec qty dir =
    if ltb_ℤ (pos 0) dir
    then (let cost = inbound_cost soh spec.unit_cost in ok (with_inbound soh qty cost, cost))
    else if ltb_ℤ dir (pos 0)
    then (if ltb_ℤ (pos 0) soh.average_cost
        then (do t ← on_outbound soh (pos qty); ok (t, some soh.average_cost))
        else ok (soh, none))
    else ok (soh, none)

-- `(unit_cost * qty).quantize(_PRECISION)`: no rounding mode is given, so ties go to even.
abbrev pub total_cost_of : Option ℤ → ℕ → Option ℤ
total_cost_of none qty = none
total_cost_of (some cost) qty = some (round_half_even (cost *ℤ pos qty) (10 ^ 4))

abbrev pub delta : MovementSpec → ℤ
delta spec =
    if leb_ℤ (pos 0) (direction spec)
    then pos spec.quantity.value
    else neg (pos spec.quantity.value)

abbrev pub movement_row : MovementSpec → Option ℤ → StockMovement
movement_row spec cost = record {
  product_id = spec.product_id;
  warehouse_id = spec.warehouse_id;
  movement_type = spec.movement_type;
  quantity = spec.quantity.value;
  uom_code = spec.quantity.uom_code;
  reference = spec.reference;
  source_type = spec.source_type;
  source_id = spec.source_id;
  transfer_id = spec.transfer_id;
  adjustment_sign = if is_adjustment spec.movement_type then spec.signed_for_adjustment else pos 0;
  unit_cost = cost;
  total_cost = total_cost_of cost spec.quantity.value;
}

-- What is written for the row that was found or created, once its cost is known.
abbrev pub recorded :
    MovementSpec → StockOnHand → Stock → StockOnHand × Option ℤ → Stock × RecordedMovement
recorded spec soh s (costed, cost) = (
  record s {
    movements = s.movements ++ movement_row spec cost ∷ [];
    on_hand = λ p w.
        if p == spec.product_id && w == spec.warehouse_id
        then some (record costed { quantity = soh.quantity +ℤ delta spec })
        else s.on_hand p w;
  },
  record {
    movement_id = length s.movements;
    product_id = spec.product_id;
    warehouse_id = spec.warehouse_id;
    new_on_hand = soh.quantity +ℤ delta spec;
    unit_cost = cost;
  },
)

-- A movement is saved, and the row of its product and warehouse is written.
abbrev pub write_stock : StockMovement → StockOnHand → Stock → Stock
write_stock m row s = record s {
  movements = s.movements ++ m ∷ [];
  on_hand = λ p w. if p == m.product_id && w == m.warehouse_id then some row else s.on_hand p w;
}

-- The part inside the transaction.
unfoldable pub move_row : MovementSpec → StockOnHand → Stock → Result (Stock × RecordedMovement)
move_row spec soh s = do
  raise_if (ltb_ℤ (soh.quantity +ℤ delta spec) (pos 0)) insufficient_stock
  costed ← update_cost soh spec spec.quantity.value (direction spec)
  ok (recorded spec soh s costed)

unfoldable pub execute : MovementSpec → Stock → Result (Stock × RecordedMovement)
unfolding move_row
execute spec s = do
  product ← or_raise (active_product (s.products spec.product_id)) non_stockable_product
  guard (is_stockable product.type) non_stockable_product
  guard (s.active_warehouses spec.warehouse_id) warehouse_not_found
  move_row spec (or_created (s.on_hand spec.product_id spec.warehouse_id) spec.quantity.uom_code) s
