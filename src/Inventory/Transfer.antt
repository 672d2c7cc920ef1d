-- ===== src/Inventory/Transfer.antt =====
-- `TransferLineSpec` and `TransferSpec` of apps/inventory/domain/transfer.py, and `PostTransfer` of
-- apps/inventory/application/use_cases/post_transfer.py. Dates and memos are left out.
pub mod Effect
use gs_erp.Base.{
  ℕ, suc, String, Bool, true, false, ◌||◌, Option, none, some, List, [], ◌∷◌, ◌++◌, ◌==◌, any,
  is_empty, ℤ, pos, Result, ok, ◌>>=◌, ◌>>◌, guard, raise_if, or_raise, is_blank, is_empty_text,
  str_eq, Table, lookup, insert, invalid_quantity, invalid_transfer, empty_transfer,
  transfer_already_posted, does_not_exist, each, concat, str,
}
use gs_erp.Core.Quantity.{Quantity, is_zero}
use gs_erp.Inventory.Movement.{MovementType, transfer_out, transfer_in, MovementSpec, make_movement}
use gs_erp.Inventory.Stock
use gs_erp.Inventory.Stock.{Stock}

pub data TransferStatus : Type 0 where
  draft posted cancelled : TransferStatus

abbrev pub is_draft : TransferStatus → Bool
is_draft draft = true
is_draft _ = false

pub record TransferLineSpec : Type 0 where
  pub product_id : ℕ
  pub quantity : Quantity

-- `TransferLineSpec.__post_init__`
unfoldable pub make_transfer_line : TransferLineSpec → Result TransferLineSpec
make_transfer_line l = do
  raise_if (l.product_id == 0) invalid_transfer
  raise_if (is_zero l.quantity) invalid_transfer
  ok l

pub record TransferSpec : Type 0 where
  pub reference : String
  pub source_warehouse_id : ℕ
  pub destination_warehouse_id : ℕ
  pub lines : List TransferLineSpec

-- `TransferSpec.__post_init__`
unfoldable pub make_transfer : TransferSpec → Result TransferSpec
make_transfer t = do
  raise_if (is_blank t.reference) invalid_transfer
  raise_if (t.source_warehouse_id == 0 || t.destination_warehouse_id == 0) invalid_transfer
  raise_if (t.source_warehouse_id == t.destination_warehouse_id) invalid_transfer
  raise_if (is_empty t.lines) empty_transfer
  ok t

-- A row of `StockTransfer` with its lines.
pub record StockTransfer : Type 0 where
  pub spec : TransferSpec
  pub status : TransferStatus

pub record Transfers : Type 0 where
  pub stock : Stock
  pub headers : Table StockTransfer
  pub next_pk : ℕ

pub record PostedTransfer : Type 0 where
  pub transfer_id : ℕ
  pub reference : String
  pub out_movement_ids : List ℕ
  pub in_movement_ids : List ℕ

-- The spec of one side of a line.
abbrev pub side : TransferLineSpec → ℕ → MovementType → ℕ → Option ℤ → MovementSpec
side l warehouse type pk cost = record {
  product_id = l.product_id;
  warehouse_id = warehouse;
  movement_type = type;
  quantity = l.quantity;
  reference = concat "TRF-" (str pk);
  source_type = "stock_transfer";
  source_id = some pk;
  transfer_id = some pk;
  signed_for_adjustment = pos 0;
  unit_cost = cost;
}

-- The stock, and the keys of the movements so far.
pub record Moved : Type 0 where
  pub stock : Stock
  pub out_ids : List ℕ
  pub in_ids : List ℕ

-- One line: out of the source, then into the destination at the cost that the first one derived.
abbrev pub move_line : ℕ → ℕ → ℕ → Moved → TransferLineSpec → Result Moved
move_line source destination pk m l = do
  out_spec ← make_movement (side l source transfer_out pk none)
  (s1, out_rec) ← Stock.execute out_spec m.stock
  in_spec ← make_movement (side l destination transfer_in pk out_rec.unit_cost)
  (s2, in_rec) ← Stock.execute in_spec s1
  ok (record {
    stock = s2;
    out_ids = m.out_ids ++ out_rec.movement_id ∷ [];
    in_ids = m.in_ids ++ in_rec.movement_id ∷ [];
  })

abbrev pub move_lines : TransferSpec → ℕ → Stock → Result Moved
move_lines spec pk s =
    each (move_line spec.source_warehouse_id spec.destination_warehouse_id pk)
      (record { stock = s; out_ids = []; in_ids = [] }) spec.lines

-- `StockTransfer.objects.filter(reference=spec.reference).exists()`
abbrev pub is_taken : String → Table StockTransfer → Bool
is_taken reference headers = any (λ e. str_eq e.1.spec.reference reference) headers

-- `PostTransfer.execute`
unfoldable pub post_transfer : TransferSpec → Transfers → Result (Transfers × PostedTransfer)
post_transfer spec t = do
  raise_if (is_taken spec.reference t.headers) transfer_already_posted
  m ← move_lines spec t.next_pk t.stock
  ok (
    record {
      stock = m.stock;
      headers = insert t.next_pk (record { spec = spec; status = posted }) t.headers;
      next_pk = suc t.next_pk;
    },
    record {
      transfer_id = t.next_pk;
      reference = spec.reference;
      out_movement_ids = m.out_ids;
      in_movement_ids = m.in_ids;
    },
  )

-- `DomainQty(line.quantity, line.uom_code)`; the column has four decimals and is positive.
abbrev pub read_line : TransferLineSpec → Result TransferLineSpec
read_line l = do raise_if (is_empty_text l.quantity.uom_code) invalid_quantity; ok l

-- `execute_by_id`
unfoldable pub post_transfer_by_id : ℕ → Transfers → Result (Transfers × PostedTransfer)
post_transfer_by_id transfer_id t = do
  header ← or_raise (lookup transfer_id t.headers) does_not_exist
  guard (is_draft header.status) transfer_already_posted
  m ←
      each
        (λ m l. do
          read ← read_line l
          move_line header.spec.source_warehouse_id header.spec.destination_warehouse_id transfer_id
              m read)
        (record { stock = t.stock; out_ids = []; in_ids = [] }) header.spec.lines
  ok (
    record t {
      stock = m.stock;
      headers = insert transfer_id (record header { status = posted }) t.headers;
    },
    record {
      transfer_id = transfer_id;
      reference = header.spec.reference;
      out_movement_ids = m.out_ids;
      in_movement_ids = m.in_ids;
    },
  )
