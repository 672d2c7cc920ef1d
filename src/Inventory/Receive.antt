-- ===== src/Inventory/Receive.antt =====
-- `ReceivePurchasedInventory` of
-- apps/inventory/application/use_cases/receive_purchased_inventory.py: a purchase's lines enter the
-- stock at their invoice cost. A quantity is a count of 0.0001 and is not negative. Time stamps and
-- the keys of purchase lines are left out.
pub mod Effect
use gs_erp.Base.{
  ℕ, ◌+◌, ◌-◌, ◌/◌, String, not, none, some, List, [], ◌∷◌, ◌++◌, ◌==◌, length, ℤ, pos, ◌+ℤ◌,
  Result, ok, ◌>>=◌, ◌>>◌, raise_if, integrity_error, each,
}
use gs_erp.Inventory.Movement.{MovementType}
use gs_erp.Inventory.Cost.{StockOnHand, on_inbound}
use gs_erp.Inventory.Stock.{Product, StockMovement, Stock, write_stock, or_created}
use gs_erp.Inventory.Issue.{cost_of, issuable}

pub record PurchaseLineSpec : Type 0 where
  pub product_id : ℕ
  pub warehouse_id : ℕ
  pub quantity : ℕ
  pub uom_code : String
  pub unit_cost : ℤ

pub record ReceivedLine : Type 0 where
  pub product_id : ℕ
  pub warehouse_id : ℕ
  pub movement_id : ℕ
  pub quantity : ℕ
  pub unit_cost : ℤ
  pub total_cost : ℤ
  pub new_average_cost : ℤ
  pub new_inventory_value : ℤ

-- The arguments that are the same for every line.
pub record Bought : Type 0 where
  pub source_type : String
  pub source_id : ℕ
  pub reference : String

pub record Received : Type 0 where
  pub stock : Stock
  pub lines : List ReceivedLine

abbrev pub inbound_row : Bought → PurchaseLineSpec → StockMovement
inbound_row d l = record {
  product_id = l.product_id;
  warehouse_id = l.warehouse_id;
  movement_type = MovementType.inbound;
  quantity = l.quantity;
  uom_code = l.uom_code;
  reference = d.reference;
  source_type = d.source_type;
  source_id = some d.source_id;
  transfer_id = none;
  adjustment_sign = pos 0;
  unit_cost = some l.unit_cost;
  total_cost = some (cost_of l.unit_cost l.quantity);
}

abbrev pub received_line : PurchaseLineSpec → ℕ → StockOnHand → ReceivedLine
received_line l movement_id costed = record {
  product_id = l.product_id;
  warehouse_id = l.warehouse_id;
  movement_id = movement_id;
  quantity = l.quantity;
  unit_cost = l.unit_cost;
  total_cost = cost_of l.unit_cost l.quantity;
  new_average_cost = costed.average_cost;
  new_inventory_value = costed.inventory_value;
}

-- One line of a stockable product.
unfoldable pub receive_product : Bought → Received → PurchaseLineSpec → Result Received
receive_product d a l = do
  let soh = or_created (a.stock.on_hand l.product_id l.warehouse_id) l.uom_code
  let costed = on_inbound soh (pos l.quantity) l.unit_cost
  raise_if (l.quantity == 0) integrity_error
  ok (record {
    stock =
        write_stock (inbound_row d l) (record costed { quantity = soh.quantity +ℤ pos l.quantity })
          a.stock;
    lines = a.lines ++ received_line l (length a.stock.movements) costed ∷ [];
  })

abbrev pub receive_line : Bought → Received → PurchaseLineSpec → Result Received
receive_line d a l = elim (issuable a.stock l.product_id) [
  | none ↦ ok a
  | some product ↦ receive_product d a l
]

-- `ReceivePurchasedInventory.execute`
unfoldable pub receive_purchased_inventory :
    Bought → List PurchaseLineSpec → Stock → Result Received
unfolding receive_product
receive_purchased_inventory d lines s =
    each (receive_line d) (record { stock = s; lines = [] }) lines
