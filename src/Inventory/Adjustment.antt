-- ===== src/Inventory/Adjustment.antt =====
-- apps/inventory/domain/adjustment.py, and `RecordAdjustment` of
-- apps/inventory/application/use_cases/record_adjustment.py, which calls `RecordStockMovement` and,
-- when a currency is given, `PostInventoryGL`. Memos, actors and time stamps are left out.
pub mod Effect
pub mod Books
use gs_erp.Base.{
  ℕ, suc, ◌+◌, ◌-◌, ◌/◌, String, Bool, true, false, none, some, List, [], ◌∷◌, ◌++◌, ◌==◌,
  if◌then◌else◌, any, is_empty, ℤ, pos, negsuc, abs, ltb_ℤ, eqb_ℤ, Result, ok, ◌>>=◌, ◌>>◌, guard,
  raise_if, or_raise, is_blank, is_empty_text, str_eq, Table, lookup, insert, invalid_quantity,
  invalid_adjustment_line, empty_adjustment, adjustment_already_posted, does_not_exist, each,
  concat, str,
}
use gs_erp.Core.Date.{Date}
use gs_erp.Core.Currency.{Unicode}
use gs_erp.Core.Quantity.{Quantity}
use gs_erp.Finance.Ledger.{Ledger}
use gs_erp.Inventory.Movement.{MovementType, MovementSpec, make_movement}
use gs_erp.Inventory.Stock
use gs_erp.Inventory.Stock.{Stock, RecordedMovement}
use gs_erp.Inventory.Gl.{PostInventoryGlCommand, post_inventory_gl}

pub data AdjustmentReason : Type 0 where
  shrinkage damage write_off correction other : AdjustmentReason

pub data AdjustmentStatus : Type 0 where
  draft posted cancelled : AdjustmentStatus

abbrev pub is_draft : AdjustmentStatus → Bool
is_draft draft = true
is_draft _ = false

-- `signed_quantity` is a count of 0.0001.
pub record AdjustmentLineSpec : Type 0 where
  pub product_id : ℕ
  pub signed_quantity : ℤ
  pub uom_code : String

-- `AdjustmentLineSpec.__post_init__`
unfoldable pub make_adjustment_line : AdjustmentLineSpec → Result AdjustmentLineSpec
make_adjustment_line l = do
  raise_if (l.product_id == 0) invalid_adjustment_line
  raise_if (eqb_ℤ l.signed_quantity (pos 0)) invalid_adjustment_line
  raise_if (is_empty_text l.uom_code) invalid_adjustment_line
  ok l

-- `AdjustmentLineSpec.sign`
abbrev pub sign : ℤ → ℤ
sign q = if ltb_ℤ (pos 0) q then pos 1 else negsuc 0

-- `Quantity(abs(signed_quantity), uom_code)`
unfoldable pub magnitude : AdjustmentLineSpec → Result Quantity
magnitude l = do
  raise_if (is_empty_text l.uom_code) invalid_quantity
  ok (record { value = abs l.signed_quantity; uom_code = l.uom_code })

pub record AdjustmentSpec : Type 0 where
  pub reference : String
  pub adjustment_date : Date
  pub warehouse_id : ℕ
  pub reason : AdjustmentReason
  pub lines : List AdjustmentLineSpec
  pub currency_code : String

-- `AdjustmentSpec.__post_init__`
unfoldable pub make_adjustment : AdjustmentSpec → Result AdjustmentSpec
make_adjustment a = do
  raise_if (is_blank a.reference) invalid_adjustment_line
  raise_if (a.warehouse_id == 0) invalid_adjustment_line
  raise_if (is_empty a.lines) empty_adjustment
  ok a

-- A row of `StockAdjustment` with its lines; a line has the key of its movement once it is posted.
pub record StockAdjustment : Type 0 where
  pub reference : String
  pub adjustment_date : Date
  pub warehouse_id : ℕ
  pub reason : AdjustmentReason
  pub status : AdjustmentStatus
  pub lines : List AdjustmentLineSpec
  pub movement_ids : List ℕ

pub record Adjustments : Type 0 where
  pub stock : Stock
  pub ledger : Ledger
  pub headers : Table StockAdjustment
  pub next_pk : ℕ

pub record PostedAdjustment : Type 0 where
  pub adjustment_id : ℕ
  pub reference : String
  pub movement_ids : List ℕ

-- The movement of a line.
abbrev pub movement_of : ℕ → ℕ → AdjustmentLineSpec → Quantity → MovementSpec
movement_of warehouse pk l quantity = record {
  product_id = l.product_id;
  warehouse_id = warehouse;
  movement_type = MovementType.adjustment;
  quantity = quantity;
  reference = concat "ADJ-" (str pk);
  source_type = "stock_adjustment";
  source_id = some pk;
  transfer_id = none;
  signed_for_adjustment = sign l.signed_quantity;
  unit_cost = none;
}

abbrev pub gl_command : String → Date → ℕ → PostInventoryGlCommand
gl_command code date movement_id = record {
  movement_id = movement_id;
  entry_date = date;
  currency_code = code;
  credit_account_id = none;
  skip_if_transfer = false;
}

-- The stock, the ledger and the keys of the movements so far.
pub record Adjusted : Type 0 where
  pub stock : Stock
  pub ledger : Ledger
  pub movement_ids : List ℕ

-- `if spec.currency_code: _post_inventory_gl.execute(...)`
abbrev pub post_gl : Unicode → String → Date → ℕ → Stock → Ledger → Result Ledger
post_gl u code date movement_id s ledger =
    if is_empty_text code
    then ok ledger
    else (do out ← post_inventory_gl u (gl_command code date movement_id) s ledger; ok out.0)

-- One line: its movement, then the movement's entry.
abbrev pub adjust_line :
    Unicode → String → Date → ℕ → ℕ → Adjusted → AdjustmentLineSpec → Result Adjusted
adjust_line u code date warehouse pk a l = do
  quantity ← magnitude l
  spec ← make_movement (movement_of warehouse pk l quantity)
  (stock, recorded) ← Stock.execute spec a.stock
  ledger ← post_gl u code date recorded.movement_id stock a.ledger
  ok (record {
    stock = stock;
    ledger = ledger;
    movement_ids = a.movement_ids ++ recorded.movement_id ∷ [];
  })

-- `StockAdjustment.objects.filter(reference=...).exists()`
abbrev pub is_taken : String → Table StockAdjustment → Bool
is_taken reference headers = any (λ e. str_eq e.1.reference reference) headers

abbrev pub adjust_lines : Unicode → AdjustmentSpec → ℕ → Adjustments → Result Adjusted
adjust_lines u spec pk s =
    each (adjust_line u spec.currency_code spec.adjustment_date spec.warehouse_id pk)
      (record { stock = s.stock; ledger = s.ledger; movement_ids = [] }) spec.lines

abbrev pub header_of : AdjustmentSpec → List ℕ → StockAdjustment
header_of spec ids = record {
  reference = spec.reference;
  adjustment_date = spec.adjustment_date;
  warehouse_id = spec.warehouse_id;
  reason = spec.reason;
  status = posted;
  lines = spec.lines;
  movement_ids = ids;
}

-- `RecordAdjustment.execute`
unfoldable pub record_adjustment :
    Unicode → AdjustmentSpec → Adjustments → Result (Adjustments × PostedAdjustment)
unfolding magnitude
record_adjustment u spec s = do
  raise_if (is_taken spec.reference s.headers) adjustment_already_posted
  a ← adjust_lines u spec s.next_pk s
  ok (
    record {
      stock = a.stock;
      ledger = a.ledger;
      headers = insert s.next_pk (header_of spec a.movement_ids) s.headers;
      next_pk = suc s.next_pk;
    },
    record { adjustment_id = s.next_pk; reference = spec.reference; movement_ids = a.movement_ids },
  )

-- `execute_by_id`; the first argument after the classes is the organization's default currency code.
unfoldable pub record_adjustment_by_id :
    Unicode → String → ℕ → Adjustments → Result (Adjustments × PostedAdjustment)
unfolding magnitude
record_adjustment_by_id u default_currency_code id s = do
  header ← or_raise (lookup id s.headers) does_not_exist
  guard (is_draft header.status) adjustment_already_posted
  a ←
      each (adjust_line u default_currency_code header.adjustment_date header.warehouse_id id)
        (record { stock = s.stock; ledger = s.ledger; movement_ids = [] }) header.lines
  ok (
    record s {
      stock = a.stock;
      ledger = a.ledger;
      headers =
          insert id (record header { status = posted; movement_ids = a.movement_ids }) s.headers;
    },
    record { adjustment_id = id; reference = header.reference; movement_ids = a.movement_ids },
  )
