-- ===== src/Inventory/Issue.antt =====
-- `IssueSoldInventory` of apps/inventory/application/use_cases/issue_sold_inventory.py: a sale's
-- lines leave the stock at average cost, and their cost is posted. A quantity is a count of 0.0001
-- and is not negative. Time stamps are left out.
pub mod Books
use gs_erp.Base.{
  ℕ, ◌+◌, ◌-◌, ◌*◌, ◌/◌, ◌^◌, String, Bool, true, false, not, Option, none, some, List, [], ◌∷◌,
  ◌++◌, ◌==◌, if◌then◌else◌, length, ℤ, pos, ◌+ℤ◌, ◌-ℤ◌, ◌*ℤ◌, ltb_ℤ, round_half_even, Result, ok,
  ◌>>=◌, ◌>>◌, raise_if, or_raise, insufficient_stock, value_error, integrity_error, each,
}
use gs_erp.Core.Date.{Date}
use gs_erp.Core.Currency.{Unicode}
use gs_erp.Finance.Ledger.{Ledger}
use gs_erp.Inventory.Movement.{MovementType}
use gs_erp.Inventory.Cost.{StockOnHand, on_outbound}
use gs_erp.Inventory.Stock.{Product, StockMovement, Stock, is_stockable, write_stock}
use gs_erp.Inventory.Gl.{PostInventoryGlCommand, InventoryGlResult, truthy, post_inventory_gl}

pub record SaleLineSpec : Type 0 where
  pub product_id : ℕ
  pub warehouse_id : ℕ
  pub quantity : ℕ
  pub uom_code : String

pub record IssuedLine : Type 0 where
  pub product_id : ℕ
  pub warehouse_id : ℕ
  pub movement_id : ℕ
  pub quantity : ℕ
  pub unit_cost : ℤ
  pub total_cost : ℤ
  pub cogs_journal_id : Option ℕ

-- The arguments that are the same for every line.
pub record Sold : Type 0 where
  pub source_type : String
  pub source_id : ℕ
  pub reference : String
  pub sale_date : Date
  pub currency_code : String

-- `IssueResult`
pub record IssueResult : Type 0 where
  pub lines : List IssuedLine
  pub total_cogs : ℤ

-- The stock, the ledger and the result so far.
pub record Issued : Type 0 where
  pub stock : Stock
  pub ledger : Ledger
  pub result : IssueResult

-- `not product.inventory_account_id`
abbrev pub is_unset : Option ℕ → Bool
is_unset k = elim (truthy k) [ none ↦ true | some a ↦ false ]

-- `(unit_cost * line.quantity).quantize(Decimal("0.0001"))`, a tie to even.
abbrev pub cost_of : ℤ → ℕ → ℤ
cost_of unit_cost quantity = round_half_even (unit_cost *ℤ pos quantity) (10 ^ 4)

abbrev pub outbound_row : Sold → SaleLineSpec → StockOnHand → StockMovement
outbound_row d l soh = record {
  product_id = l.product_id;
  warehouse_id = l.warehouse_id;
  movement_type = MovementType.outbound;
  quantity = l.quantity;
  uom_code = l.uom_code;
  reference = d.reference;
  source_type = d.source_type;
  source_id = some d.source_id;
  transfer_id = none;
  adjustment_sign = pos 0;
  unit_cost = some soh.average_cost;
  total_cost = some (cost_of soh.average_cost l.quantity);
}

abbrev pub cogs_command : Sold → ℕ → PostInventoryGlCommand
cogs_command d movement_id = record {
  movement_id = movement_id;
  entry_date = d.sale_date;
  currency_code = d.currency_code;
  credit_account_id = none;
  skip_if_transfer = true;
}

abbrev pub journal_of : Option InventoryGlResult → Option ℕ
journal_of none = none
journal_of (some r) = some r.journal_entry_id

abbrev pub issued_line : SaleLineSpec → StockOnHand → ℕ → Option InventoryGlResult → IssuedLine
issued_line l soh movement_id gl = record {
  product_id = l.product_id;
  warehouse_id = l.warehouse_id;
  movement_id = movement_id;
  quantity = l.quantity;
  unit_cost = soh.average_cost;
  total_cost = cost_of soh.average_cost l.quantity;
  cogs_journal_id = journal_of gl;
}

abbrev pub add_issued : IssueResult → IssuedLine → IssueResult
add_issued r l = record { lines = r.lines ++ l ∷ []; total_cogs = r.total_cogs +ℤ l.total_cost }

-- One line of a stockable product.
unfoldable pub issue_product : Unicode → Sold → Issued → SaleLineSpec → Product → Result Issued
issue_product u d a l product = do
  raise_if (is_unset product.inventory_account) value_error
  raise_if (is_unset product.cogs_account) value_error
  soh ← or_raise (a.stock.on_hand l.product_id l.warehouse_id) insufficient_stock
  raise_if (ltb_ℤ soh.quantity (pos l.quantity)) insufficient_stock
  raise_if (l.quantity == 0) integrity_error
  costed ← on_outbound soh (pos l.quantity)
  let stock =
      write_stock (outbound_row d l soh)
        (record costed { quantity = soh.quantity -ℤ pos l.quantity }) a.stock
  (ledger, gl) ← post_inventory_gl u (cogs_command d (length a.stock.movements)) stock a.ledger
  ok (record {
    stock = stock;
    ledger = ledger;
    result = add_issued a.result (issued_line l soh (length a.stock.movements) gl);
  })

-- `products.get(line.product_id)`, when its type is a stockable one.
abbrev pub issuable : Stock → ℕ → Option Product
issuable s id = elim (s.products id) [
  | none ↦ none
  | some p ↦ if is_stockable p.type then some p else none
]

abbrev pub issue_line : Unicode → Sold → Issued → SaleLineSpec → Result Issued
issue_line u d a l = elim (issuable a.stock l.product_id) [
  | none ↦ ok a
  | some product ↦ issue_product u d a l product
]

-- `IssueSoldInventory.execute`
unfoldable pub issue_sold_inventory :
    Unicode → Sold → List SaleLineSpec → Stock → Ledger → Result Issued
unfolding issue_product
issue_sold_inventory u d lines s g =
    each (issue_line u d)
      (record { stock = s; ledger = g; result = record { lines = []; total_cogs = pos 0 } }) lines
