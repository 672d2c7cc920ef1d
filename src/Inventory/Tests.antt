-- ===== src/Inventory/Tests.antt =====
-- Stock movements and transfers at concrete inputs.
mod Documents
use gs_erp.Base.{
  value_of, ℕ, ◌+◌, ◌-◌, ◌*◌, ◌≤◌, ◌<◌, ◌≡◌, refl, true, ◌||◌, none, some, [], ◌∷◌, arith, ◌==◌,
  if◌then◌else◌, pos, ◌+ℤ◌, ◌*ℤ◌, ◌≤ℤ◌, min_ℤ, max_ℤ, half_up, round_half_up, Result, ok,
  transfer_already_posted,
}
use gs_erp.Inventory.Movement.{
  MovementType, MovementSpec, IsMovement, make_movement, make_movement-IsMovement,
}
use gs_erp.Inventory.Cost.{StockOnHand, on_inbound, value_at}
use gs_erp.Inventory.Cost.Average.{on_inbound_nearest}
use gs_erp.Inventory.Stock
use gs_erp.Inventory.Stock.{Product, ProductType, Stock, StockMovement, RecordedMovement}
use gs_erp.Inventory.Stock.Projection.{IsProjection, execute-IsProjection}
use gs_erp.Inventory.Stock.Validity.{IsCost, AllStock, execute-AllStock}
use gs_erp.Inventory.Transfer.{
  TransferSpec, Transfers, PostedTransfer, make_transfer, post_transfer, post_transfer_by_id,
}
use gs_erp.Inventory.Transfer.Effect.{level, shift, sent, post_transfer-moves, post_transfer-once}

-- A delivery of 10 pieces at 4.
abbrev delivery : MovementSpec
delivery = record {
  product_id = 1;
  warehouse_id = 1;
  movement_type = MovementType.inbound;
  quantity = record { value = 100000; uom_code = "PCS" };
  reference = "PO-1";
  source_type = "";
  source_id = none;
  transfer_id = none;
  signed_for_adjustment = pos 0;
  unit_cost = some (pos 40000);
}

delivery_made : make_movement delivery ≡ ok delivery
unfolding make_movement gs_erp.Base.is_blank
delivery_made = refl

delivery-IsMovement : IsMovement delivery
delivery-IsMovement = (make_movement-IsMovement delivery delivery delivery_made).1

abbrev desk_lamp : Product
desk_lamp = record {
  type = ProductType.standard;
  is_active = true;
  inventory_account = some 1;
  cogs_account = some 2;
  purchase_account = some 3;
}

-- One product, two warehouses and no stock.
abbrev empty : Stock
empty = record {
  products = λ p. if p == 1 then some desk_lamp else none;
  active_warehouses = λ w. w == 1 || w == 2;
  on_hand = λ p w. none;
  movements = [];
}

empty-IsProjection : IsProjection empty
empty-IsProjection p w = refl

empty-AllStock : AllStock empty
empty-AllStock p w soh h = cc

abbrev no_movement : RecordedMovement
no_movement = record {
  movement_id = 0;
  product_id = 0;
  warehouse_id = 0;
  new_on_hand = pos 0;
  unit_cost = none;
}

unfoldable received : Stock × RecordedMovement
unfolding Stock.execute
received = value_of (empty, no_movement) (Stock.execute delivery empty)

received_done : Stock.execute delivery empty ≡ ok (received.0, received.1)
unfolding received ◌+ℤ◌ gs_erp.Inventory.Movement.direction Stock.update_cost
received_done = refl

execute-IsProjection_example : IsProjection received.0
execute-IsProjection_example =
    execute-IsProjection delivery empty received.0 received.1 delivery-IsMovement empty-IsProjection
      received_done

execute-AllStock_example : AllStock received.0 × IsCost received.1.unit_cost
execute-AllStock_example =
    execute-AllStock delivery empty received.0 received.1 delivery-IsMovement (omega arith)
      empty-AllStock received_done

-- 10 pieces at 4.
abbrev shelf : StockOnHand
shelf = record {
  quantity = pos 100000;
  uom_code = "PCS";
  average_cost = pos 40000;
  inventory_value = pos 400000;
}

-- 5 more at 7.
on_inbound_nearest_example :
    let t = on_inbound shelf (pos 50000) (pos 70000) in
    (avg : ℕ) × (v : ℕ) × (t.average_cost ≡ pos avg)
    × (2 * (avg * 150000) ≤ 2 * 7500000000 + 150000)
    × (2 * 7500000000 < 2 * (avg * 150000) + 150000)
    × (min_ℤ (pos 40000) (pos 70000) ≤ℤ t.average_cost)
    × (t.average_cost ≤ℤ max_ℤ (pos 40000) (pos 70000))
    × (t.inventory_value ≡ pos v)
    × (2 * (v * 10_000) ≤ 2 * (150000 * avg) + 10_000)
    × (2 * (150000 * avg) < 2 * (v * 10_000) + 10_000)
on_inbound_nearest_example =
    on_inbound_nearest shelf 100000 40000 50000 70000 refl refl (omega arith)

-- 3 pieces to the second warehouse.
abbrev transfer : TransferSpec
transfer = record {
  reference = "T-1";
  source_warehouse_id = 1;
  destination_warehouse_id = 2;
  lines = record { product_id = 1; quantity = record { value = 30000; uom_code = "PCS" } } ∷ [];
}

transfer_made : make_transfer transfer ≡ ok transfer
unfolding make_transfer gs_erp.Base.is_blank
transfer_made = refl

unfoldable desk : Transfers
unfolding received
desk = record { stock = received.0; headers = []; next_pk = 1 }

desk-IsProjection : IsProjection desk.stock
unfolding desk
desk-IsProjection =
    execute-IsProjection delivery empty received.0 received.1 delivery-IsMovement empty-IsProjection
      received_done

abbrev no_transfer : PostedTransfer
no_transfer = record {
  transfer_id = 0;
  reference = "";
  out_movement_ids = [];
  in_movement_ids = [];
}

unfoldable moved : Transfers × PostedTransfer
unfolding post_transfer
moved = value_of (desk, no_transfer) (post_transfer transfer desk)

moved_done : post_transfer transfer desk ≡ ok (moved.0, moved.1)
unfolding moved desk make_movement gs_erp.Base.is_blank gs_erp.Base.str ◌+ℤ◌
    gs_erp.Inventory.Movement.direction Stock.update_cost on_inbound
    gs_erp.Inventory.Cost.new_average gs_erp.Inventory.Cost.on_outbound
moved_done = refl

post_transfer-moves_example :
    ((p w : ℕ)
      → level moved.0.stock p w ≡ level desk.stock p w +ℤ shift 1 2 w (sent p transfer.lines))
    × IsProjection moved.0.stock
post_transfer-moves_example =
    post_transfer-moves transfer desk moved.0 moved.1 desk-IsProjection moved_done
