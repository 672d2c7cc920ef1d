-- ===== src/Sales/Receipts/Unallocate.antt =====
-- `UnallocateReceipt` of apps/sales/application/use_cases/unallocate_receipt.py. The audit event
-- that follows the transaction is left out.
pub mod Laws
use gs_erp.Base.{
  ℕ, ◌+◌, ◌-◌, ◌/◌, List, [], ◌∷◌, ◌++◌, if◌then◌else◌, is_empty, ℤ, pos, ◌+ℤ◌, ◌-ℤ◌, leb_ℤ, max_ℤ,
  Result, ok, ◌>>=◌, ◌>>◌, guard, raise_if, or_raise, lookup, erase, account_not_found,
  journal_already_posted, does_not_exist, update, put, each,
}
use gs_erp.Sales.Receipts.Books.{
  SalesInvoiceStatus, issued, partially_paid, SalesInvoice, CustomerReceipt, Books,
}
use gs_erp.Sales.Receipts.Allocate.{is_posted}

pub record UnallocateReceiptCommand : Type 0 where
  pub receipt_id : ℕ
  pub invoice_ids : List ℕ

pub record UnallocateReceiptResult : Type 0 where
  pub receipt_id : ℕ
  pub total_released : ℤ
  pub invoices_updated : List ℕ

pub record Release : Type 0 where
  pub books : Books
  pub total_released : ℤ
  pub invoices_updated : List ℕ

-- The status of an invoice of which `new_alloc` is still allocated.
abbrev pub status_after : SalesInvoice → ℤ → SalesInvoiceStatus
status_after inv new_alloc =
    if leb_ℤ (inv.grand_total -ℤ new_alloc) (pos 0)
    then inv.status
    else if leb_ℤ new_alloc (pos 0)
    then issued
    else partially_paid

-- The body of the loop.
unfoldable pub release_invoice : ℕ → Release → ℕ → Result Release
release_invoice r p i = do
  released ← or_raise (lookup i (p.books.allocations r)) account_not_found
  inv ← or_raise (p.books.invoices i) does_not_exist
  let new_alloc = max_ℤ (inv.allocated_amount -ℤ released) (pos 0)
  ok (record {
    books = record (p.books) {
      allocations = put r (erase i (p.books.allocations r)) p.books.allocations;
      invoices =
          update i
            (record inv { allocated_amount = new_alloc; status = status_after inv new_alloc })
            p.books.invoices;
    };
    total_released = p.total_released +ℤ released;
    invoices_updated = p.invoices_updated ++ i ∷ [];
  })

-- What follows the loop.
abbrev pub finish : ℕ → CustomerReceipt → Release → Books × UnallocateReceiptResult
finish r receipt p =
    let new_receipt_alloc = max_ℤ (receipt.allocated_amount -ℤ p.total_released) (pos 0) in
    (
      record (p.books) {
        receipts =
            update r (record receipt { allocated_amount = new_receipt_alloc }) p.books.receipts;
      },
      record {
        receipt_id = r;
        total_released = p.total_released;
        invoices_updated = p.invoices_updated;
      },
    )

unfoldable pub execute : UnallocateReceiptCommand → Books → Result (Books × UnallocateReceiptResult)
execute c b = do
  raise_if (is_empty c.invoice_ids) account_not_found
  receipt ← or_raise (b.receipts c.receipt_id) account_not_found
  guard (is_posted receipt.status) journal_already_posted
  let start : Release = record { books = b; total_released = pos 0; invoices_updated = [] }
  p ← each (release_invoice c.receipt_id) start c.invoice_ids
  ok (finish c.receipt_id receipt p)
