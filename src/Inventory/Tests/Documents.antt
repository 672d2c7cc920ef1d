-- ===== src/Inventory/Tests/Documents.antt =====
-- Adjustments, counts, receipts and issues at concrete inputs.
use mathlib.Core.Option.{some-injective}
use gs_erp.Base.{
  subst, ℕ, ◌+◌, ◌-◌, ◌≡◌, refl, inl, inr, true, not, ◌&&◌, ◌||◌, Option, none, some, List, [], ◌∷◌,
  arith, leb, ◌==◌, if◌then◌else◌, Bool-cases, pos, negsuc, ◌+ℤ◌, ◌-ℤ◌, ok, err, lookup,
  stock_count_already_finalised, value_of, All, ◌≢◌,
}
use gs_erp.Core.Currency.{Unicode}
use gs_erp.Core.Date.{Date}
use gs_erp.Finance.Journal.{AccountType}
use gs_erp.Finance.Ledger.{Ledger}
use gs_erp.Finance.Ledger.Sums.{balance}
use gs_erp.Finance.Ledger.History.{IsLedger}
use gs_erp.Inventory.Stock.{Stock, Product}
use gs_erp.Inventory.Stock.Projection.{IsProjection, execute-IsProjection}
use gs_erp.Inventory.Stock.Validity.{AllStock, execute-AllStock}
use gs_erp.Inventory.Transfer.Effect.{level}
use gs_erp.Inventory.Gl.Books.{IsSetUp}
use gs_erp.Inventory.Adjustment.{
  AdjustmentSpec, AdjustmentReason, Adjustments, PostedAdjustment, make_adjustment,
  record_adjustment,
}
use gs_erp.Inventory.Adjustment.Effect.{lines_change, record_adjustment-moves}
use gs_erp.Inventory.Adjustment.Books.{cost_sum, record_adjustment_in_step}
use gs_erp.Inventory.Count.{
  CountStatus, StockCount, Counts, FinaliseStockCountCommand, FinalisedStockCount,
  finalise_stock_count,
}
use gs_erp.Inventory.Count.Effect.{counted, expected, finalise_stock_count-moves}
use gs_erp.Inventory.Issue.{SaleLineSpec, Sold, Issued, issue_sold_inventory}
use gs_erp.Inventory.Issue.Books.{IsKeptOn, taken_by, issue_sold_inventory-books}
use gs_erp.Inventory.Receive.{PurchaseLineSpec, Bought, Received, receive_purchased_inventory}
use gs_erp.Inventory.Receive.Effect.{brought_by, receive_purchased_inventory-stock}
use gs_erp.Inventory.Tests.{
  delivery, delivery-IsMovement, empty, empty-IsProjection, empty-AllStock, desk_lamp, received,
  received_done,
}

-- The letters of ASCII.
abbrev ascii : Unicode
ascii = record {
  is_alpha = λ c. (leb 65 c && leb c 90) || (leb 97 c && leb c 122);
  is_upper = λ c. leb 65 c && leb c 90;
  is_lower_or_title = λ c. leb 97 c && leb c 122;
}

abbrev may : Date
may = record { year = 2026; month = 5; day = 4 }

abbrev books : Ledger
books = record {
  accounts =
      λ a. some (record { account_type = AccountType.asset; is_active = true; is_postable = true });
  calendar = record { fiscal_years = []; periods = []; next_period = 1 };
  entries = [];
  next_pk = 1;
}

books-IsLedger : IsLedger books
books-IsLedger = record { fresh = λ k h. refl; sound = tt }

-- 10 pieces at 4 stand in warehouse 1.
received-IsProjection : IsProjection received.0
received-IsProjection =
    execute-IsProjection delivery empty received.0 received.1 delivery-IsMovement empty-IsProjection
      received_done

received-AllStock : AllStock received.0
received-AllStock =
    (execute-AllStock delivery empty received.0 received.1 delivery-IsMovement (omega arith)
      empty-AllStock received_done).0

desk_lamp-IsSetUp : IsSetUp 1 desk_lamp
desk_lamp-IsSetUp = record {
  inv_key = omega arith;
  cogs = 2;
  purchase = 3;
  is_inventory = refl;
  is_cogs = refl;
  is_purchase = refl;
  cogs_key = omega arith;
  purchase_key = omega arith;
  cogs_apart = omega arith;
  purchase_apart = omega arith;
}

received-IsSetUp : (p : Product) → received.0.products 1 ≡ some p → IsSetUp 1 p
unfolding received ◌+ℤ◌ gs_erp.Inventory.Movement.direction gs_erp.Inventory.Stock.update_cost
received-IsSetUp p h = subst (IsSetUp 1) (some-injective _ _ h) desk_lamp-IsSetUp

-- 2 pieces broken, 1 piece found.
abbrev adjustment : AdjustmentSpec
adjustment = record {
  reference = "A-1";
  adjustment_date = may;
  warehouse_id = 1;
  reason = AdjustmentReason.damage;
  lines =
      record { product_id = 1; signed_quantity = negsuc 19999; uom_code = "PCS" }
      ∷ record { product_id = 1; signed_quantity = pos 10000; uom_code = "PCS" }
      ∷ [];
  currency_code = "USD";
}

adjustment_made : make_adjustment adjustment ≡ ok adjustment
unfolding make_adjustment gs_erp.Base.is_blank
adjustment_made = refl

unfoldable store : Adjustments
store = record { stock = received.0; ledger = books; headers = []; next_pk = 1 }

abbrev no_adjustment : PostedAdjustment
no_adjustment = record { adjustment_id = 0; reference = ""; movement_ids = [] }

unfoldable adjusted : Adjustments × PostedAdjustment
adjusted = value_of (store, no_adjustment) (record_adjustment ascii adjustment store)

adjusted_done : record_adjustment ascii adjustment store ≡ ok (adjusted.0, adjusted.1)
unfolding record_adjustment store gs_erp.Inventory.Movement.make_movement gs_erp.Base.is_blank
    gs_erp.Base.str gs_erp.Inventory.Stock.execute received ◌+ℤ◌ gs_erp.Inventory.Movement.direction
    gs_erp.Inventory.Stock.update_cost gs_erp.Inventory.Cost.on_inbound
    gs_erp.Inventory.Cost.new_average gs_erp.Inventory.Cost.on_outbound
    gs_erp.Inventory.Gl.post_inventory_gl gs_erp.Core.Currency.make_currency
    gs_erp.Finance.Posting.post_pair gs_erp.Base.round_half_even gs_erp.Base.◌*ℤ◌
    gs_erp.Base.half_even gs_erp.Finance.Journal.make_draft gs_erp.Finance.Ledger.post_journal_entry
    gs_erp.Finance.Fiscal.assert_period_open adjusted
adjusted_done = refl

record_adjustment-moves_example :
    ((p w : ℕ)
      → level adjusted.0.stock p w ≡ level store.stock p w +ℤ lines_change 1 p w adjustment.lines)
    × IsProjection adjusted.0.stock
unfolding store
record_adjustment-moves_example =
    record_adjustment-moves ascii adjustment store adjusted.0 adjusted.1 received-IsProjection
      adjusted_done

record_adjustment_in_step_example :
    (balance 1 adjusted.0.ledger.entries +ℤ cost_sum store.stock.movements
      ≡ balance 1 store.ledger.entries +ℤ cost_sum adjusted.0.stock.movements)
    × IsLedger adjusted.0.ledger
unfolding store
record_adjustment_in_step_example =
    record_adjustment_in_step ascii 1 adjustment store adjusted.0 adjusted.1 refl books-IsLedger
      (received-IsSetUp, (received-IsSetUp, tt)) adjusted_done

-- 10 pieces expected, 7 counted.
abbrev sheet : StockCount
sheet = record {
  spec = record {
    reference = "C-1";
    count_date = may;
    warehouse_id = 1;
    lines =
        record {
          product_id = 1;
          expected_quantity = pos 100000;
          counted_quantity = pos 70000;
          uom_code = "PCS";
        }
        ∷ [];
  };
  status = CountStatus.draft;
  adjustment_id = none;
}

unfoldable counting : Counts
counting = record { adjustments = store; counts = (5, sheet) ∷ [] }

abbrev finalise : FinaliseStockCountCommand
finalise = record { count_id = 5; adjustment_reference = "A-2" }

abbrev not_finalised : FinalisedStockCount
not_finalised = record { count_id = 0; adjustment = none }

unfoldable finalised : Counts × FinalisedStockCount
finalised = value_of (counting, not_finalised) (finalise_stock_count ascii finalise counting)

finalised_done : finalise_stock_count ascii finalise counting ≡ ok (finalised.0, finalised.1)
unfolding finalise_stock_count counting ◌-ℤ◌ gs_erp.Inventory.Adjustment.make_adjustment_line
    make_adjustment gs_erp.Base.is_blank record_adjustment store
    gs_erp.Inventory.Movement.make_movement gs_erp.Base.str gs_erp.Inventory.Stock.execute received
    ◌+ℤ◌ gs_erp.Inventory.Movement.direction gs_erp.Inventory.Stock.update_cost
    gs_erp.Inventory.Cost.on_inbound gs_erp.Inventory.Cost.new_average
    gs_erp.Inventory.Cost.on_outbound finalised
finalised_done = refl

sheet_found : lookup 5 counting.counts ≡ some sheet
unfolding counting
sheet_found = refl

finalise_stock_count-moves_example :
    ((p w : ℕ)
      → level finalised.0.adjustments.stock p w
        ≡ level counting.adjustments.stock p w
          +ℤ (if w == 1 then counted p sheet.spec.lines -ℤ expected p sheet.spec.lines else pos 0))
    × IsProjection finalised.0.adjustments.stock
    × (finalised.0.adjustments.ledger ≡ counting.adjustments.ledger)
    × (finalise_stock_count ascii finalise finalised.0 ≡ err stock_count_already_finalised)
unfolding counting store
finalise_stock_count-moves_example =
    finalise_stock_count-moves ascii finalise finalise sheet counting finalised.0 finalised.1
      received-IsProjection refl sheet_found finalised_done

-- 4 pieces sold.
abbrev sale : Sold
sale = record {
  source_type = "sales.sale";
  source_id = 9;
  reference = "S-1";
  sale_date = may;
  currency_code = "USD";
}

abbrev sale_lines : List SaleLineSpec
sale_lines = record { product_id = 1; warehouse_id = 1; quantity = 40000; uom_code = "PCS" } ∷ []

abbrev no_issue : Issued
no_issue = record {
  stock = empty;
  ledger = books;
  result = record { lines = []; total_cogs = pos 0 };
}

unfoldable issued : Issued
issued = value_of no_issue (issue_sold_inventory ascii sale sale_lines received.0 books)

issued_done : issue_sold_inventory ascii sale sale_lines received.0 books ≡ ok issued
unfolding issue_sold_inventory received ◌+ℤ◌ gs_erp.Inventory.Movement.direction
    gs_erp.Inventory.Stock.update_cost gs_erp.Inventory.Cost.on_outbound
    gs_erp.Inventory.Gl.post_inventory_gl gs_erp.Core.Currency.make_currency
    gs_erp.Finance.Posting.post_pair gs_erp.Base.round_half_even gs_erp.Base.◌*ℤ◌
    gs_erp.Inventory.Cost.on_inbound gs_erp.Inventory.Cost.new_average gs_erp.Base.half_even
    gs_erp.Finance.Journal.make_draft gs_erp.Finance.Ledger.post_journal_entry
    gs_erp.Finance.Fiscal.assert_period_open issued
issued_done = refl

issued_cost : issued.result.total_cogs ≡ pos 160000
unfolding issued issue_sold_inventory received ◌+ℤ◌ gs_erp.Inventory.Movement.direction
    gs_erp.Inventory.Stock.update_cost gs_erp.Inventory.Cost.on_outbound
    gs_erp.Inventory.Gl.post_inventory_gl gs_erp.Core.Currency.make_currency
    gs_erp.Finance.Posting.post_pair gs_erp.Base.round_half_even gs_erp.Base.◌*ℤ◌
    gs_erp.Inventory.Cost.on_inbound gs_erp.Inventory.Cost.new_average gs_erp.Base.half_even
    gs_erp.Finance.Journal.make_draft gs_erp.Finance.Ledger.post_journal_entry
    gs_erp.Finance.Fiscal.assert_period_open
issued_cost = refl

-- The desk lamp's stock is on account 1, and what is sold of it on account 2.
sale_lines-IsKeptOn : All (IsKeptOn 1 received.0) sale_lines
unfolding received ◌+ℤ◌ gs_erp.Inventory.Movement.direction gs_erp.Inventory.Stock.update_cost
sale_lines-IsKeptOn = (
  λ x h.
      subst (λ z. (z.inventory_account ≡ some 1) × (z.cogs_account ≢ some 1)) (some-injective _ _ h)
        (refl, λ e. absurd (omega (arith, some-injective _ _ e))),
  tt,
)

issue_sold_inventory-books_example :
    ((p w : ℕ)
      → level issued.stock p w +ℤ pos (taken_by received.0 p w sale_lines) ≡ level received.0 p w)
    × (balance 1 issued.ledger.entries +ℤ issued.result.total_cogs ≡ balance 1 books.entries)
    × IsProjection issued.stock
    × IsLedger issued.ledger
issue_sold_inventory-books_example =
    issue_sold_inventory-books 1 ascii sale sale_lines received.0 books issued books-IsLedger
      sale_lines-IsKeptOn received-IsProjection issued_done

-- 5 more pieces at 7, and a product that is not known.
abbrev purchase : Bought
purchase = record { source_type = "purchases.purchase"; source_id = 3; reference = "P-1" }

abbrev purchase_lines : List PurchaseLineSpec
purchase_lines =
    record {
      product_id = 1;
      warehouse_id = 1;
      quantity = 50000;
      uom_code = "PCS";
      unit_cost = pos 70000;
    }
    ∷ record {
      product_id = 8;
      warehouse_id = 1;
      quantity = 10000;
      uom_code = "PCS";
      unit_cost = pos 10000;
    }
    ∷ []

unfoldable bought : Received
bought =
    value_of (record { stock = empty; lines = [] })
      (receive_purchased_inventory purchase purchase_lines received.0)

bought_done : receive_purchased_inventory purchase purchase_lines received.0 ≡ ok bought
unfolding receive_purchased_inventory received ◌+ℤ◌ gs_erp.Inventory.Movement.direction
    gs_erp.Inventory.Stock.update_cost bought
bought_done = refl

receive_purchased_inventory-stock_example :
    ((p w : ℕ)
      → level bought.stock p w
        ≡ level received.0 p w +ℤ pos (brought_by received.0 p w purchase_lines))
    × IsProjection bought.stock
    × AllStock bought.stock
receive_purchased_inventory-stock_example =
    receive_purchased_inventory-stock purchase purchase_lines received.0 bought (omega arith)
      received-IsProjection received-AllStock bought_done
