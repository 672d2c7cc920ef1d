-- ===== src/Inventory/Count.antt =====
-- apps/inventory/domain/stock_count.py, and `FinaliseStockCount` of
-- apps/inventory/application/use_cases/finalise_stock_count.py, which corrects the stock through
-- `RecordAdjustment`. Memos and time stamps are left out.
pub mod Effect
use gs_erp.Base.{
  ℕ, ◌-◌, ◌/◌, String, Bool, true, false, not, Option, none, some, List, [], ◌∷◌, ◌==◌,
  if◌then◌else◌, is_empty, ℤ, pos, ◌-ℤ◌, ltb_ℤ, eqb_ℤ, Result, ok, ◌>>=◌, ◌>>◌, guard, raise_if,
  or_raise, is_blank, is_empty_text, Table, lookup, insert, invalid_stock_count_line,
  empty_stock_count, stock_count_already_finalised, does_not_exist,
}
use gs_erp.Core.Date.{Date}
use gs_erp.Core.Currency.{Unicode}
use gs_erp.Inventory.Adjustment.{
  AdjustmentReason, AdjustmentLineSpec, make_adjustment_line, AdjustmentSpec, make_adjustment,
  Adjustments, PostedAdjustment, record_adjustment,
}

pub data CountStatus : Type 0 where
  draft finalised cancelled : CountStatus

abbrev pub is_draft : CountStatus → Bool
is_draft draft = true
is_draft _ = false

-- The quantities are counts of 0.0001.
pub record CountLineSpec : Type 0 where
  pub product_id : ℕ
  pub expected_quantity : ℤ
  pub counted_quantity : ℤ
  pub uom_code : String

-- `CountLineSpec.__post_init__`
unfoldable pub make_count_line : CountLineSpec → Result CountLineSpec
make_count_line l = do
  raise_if (l.product_id == 0) invalid_stock_count_line
  raise_if (ltb_ℤ l.expected_quantity (pos 0)) invalid_stock_count_line
  raise_if (ltb_ℤ l.counted_quantity (pos 0)) invalid_stock_count_line
  raise_if (is_empty_text l.uom_code) invalid_stock_count_line
  ok l

-- `variance`
unfoldable pub variance : CountLineSpec → ℤ
variance l = l.counted_quantity -ℤ l.expected_quantity

-- `has_variance`
abbrev pub has_variance : CountLineSpec → Bool
has_variance l = not (eqb_ℤ (variance l) (pos 0))

pub record CountSpec : Type 0 where
  pub reference : String
  pub count_date : Date
  pub warehouse_id : ℕ
  pub lines : List CountLineSpec

-- `CountSpec.__post_init__`
unfoldable pub make_count : CountSpec → Result CountSpec
make_count c = do
  raise_if (is_blank c.reference) invalid_stock_count_line
  raise_if (c.warehouse_id == 0) invalid_stock_count_line
  raise_if (is_empty c.lines) empty_stock_count
  ok c

-- A row of `StockCount` with its lines.
pub record StockCount : Type 0 where
  pub spec : CountSpec
  pub status : CountStatus
  pub adjustment_id : Option ℕ

pub record Counts : Type 0 where
  pub adjustments : Adjustments
  pub counts : Table StockCount

pub record FinaliseStockCountCommand : Type 0 where
  pub count_id : ℕ
  pub adjustment_reference : String

pub record FinalisedStockCount : Type 0 where
  pub count_id : ℕ
  pub adjustment : Option PostedAdjustment

abbrev pub correction_line : CountLineSpec → AdjustmentLineSpec
correction_line l = record {
  product_id = l.product_id;
  signed_quantity = variance l;
  uom_code = l.uom_code;
}

-- The lines with a variance, in order.
unfoldable pub variance_lines : List CountLineSpec → Result (List AdjustmentLineSpec)
variance_lines [] = ok []
variance_lines (l ∷ ls) =
    let rest = variance_lines ls in
    if has_variance l
    then (do first ← make_adjustment_line (correction_line l); others ← rest; ok (first ∷ others))
    else rest

-- No currency is given, so that no entry is posted.
abbrev pub correction_of : String → CountSpec → List AdjustmentLineSpec → AdjustmentSpec
correction_of reference c ls = record {
  reference = reference;
  adjustment_date = c.count_date;
  warehouse_id = c.warehouse_id;
  reason = AdjustmentReason.correction;
  lines = ls;
  currency_code = "";
}

abbrev pub correct :
    Unicode
    → String
    → CountSpec
    → List AdjustmentLineSpec
    → Adjustments
    → Result (Adjustments × Option PostedAdjustment)
correct u reference c [] s = ok (s, none)
correct u reference c (l ∷ ls) s = do
  spec ← make_adjustment (correction_of reference c (l ∷ ls))
  (after, posted) ← record_adjustment u spec s
  ok (after, some posted)

abbrev pub adjustment_key : Option PostedAdjustment → Option ℕ → Option ℕ
adjustment_key none old = old
adjustment_key (some p) old = some p.adjustment_id

-- `FinaliseStockCount.execute`
unfoldable pub finalise_stock_count :
    Unicode → FinaliseStockCountCommand → Counts → Result (Counts × FinalisedStockCount)
unfolding variance variance_lines
finalise_stock_count u command s = do
  count ← or_raise (lookup command.count_id s.counts) does_not_exist
  guard (is_draft count.status) stock_count_already_finalised
  lines ← variance_lines count.spec.lines
  (after, posted) ← correct u command.adjustment_reference count.spec lines s.adjustments
  ok (
    record {
      adjustments = after;
      counts =
          insert command.count_id
            (record count {
              status = finalised;
              adjustment_id = adjustment_key posted count.adjustment_id;
            })
            s.counts;
    },
    record { count_id = command.count_id; adjustment = posted },
  )
