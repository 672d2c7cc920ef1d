-- ===== src/Sales/Receipts/Allocate.antt =====
-- `AllocateReceiptService` of apps/sales/application/use_cases/allocate_receipt.py. An error leaves
-- the rows as they were, since the whole use case is one transaction.
pub mod Steps
pub mod Laws
pub mod Negative
use gs_erp.Base.{
  ℕ, ◌+◌, ◌-◌, ◌/◌, Bool, true, false, ◌||◌, List, [], ◌∷◌, ◌++◌, map, ◌==◌, if◌then◌else◌, any, ℤ,
  pos, ◌+ℤ◌, ◌-ℤ◌, ltb_ℤ, leb_ℤ, min_ℤ, max_ℤ, Result, ok, ◌>>=◌, ◌>>◌, guard, raise_if, or_raise,
  account_not_found, journal_already_posted, allocation_exceeds_receipt, update, put, each,
}
use gs_erp.Sales.Receipts.Books.{
  SalesInvoiceStatus, paid, cancelled, credited, partially_paid, ReceiptStatus, posted, NoteStatus,
  issued, applied, SalesInvoice, CustomerReceipt, DebitNote, Books, check_not_negative,
  upsert_allocation,
}

pub record AllocationSpec : Type 0 where
  pub document_id : ℕ
  pub amount : ℤ

pub record AllocateReceiptCommand : Type 0 where
  pub receipt_id : ℕ
  pub allocations : List AllocationSpec
  pub debit_note_allocations : List AllocationSpec

pub record AllocationResult : Type 0 where
  pub receipt_id : ℕ
  pub total_allocated : ℤ
  pub unallocated_remaining : ℤ
  pub invoices_updated : List ℕ

-- `len({ids}) != len(ids)`
abbrev pub has_duplicates : List ℕ → Bool
has_duplicates [] = false
has_duplicates (i ∷ is) = any (λ j. i == j) is || has_duplicates is

abbrev pub document_ids : List AllocationSpec → List ℕ
document_ids = map (λ s. s.document_id)

abbrev pub requested : List AllocationSpec → ℤ
requested [] = pos 0
requested (s ∷ ss) = s.amount +ℤ requested ss

-- The variables of the two loops.
pub record Progress : Type 0 where
  pub books : Books
  pub total_actually_allocated : ℤ
  pub invoices_updated : List ℕ

-- `status in (PAID, CANCELLED, CREDITED)`
abbrev pub is_closed : SalesInvoiceStatus → Bool
is_closed SalesInvoiceStatus.paid = true
is_closed SalesInvoiceStatus.cancelled = true
is_closed SalesInvoiceStatus.credited = true
is_closed _ = false

abbrev pub is_issued : NoteStatus → Bool
is_issued NoteStatus.issued = true
is_issued _ = false

abbrev pub is_posted : ReceiptStatus → Bool
is_posted ReceiptStatus.posted = true
is_posted _ = false

-- `Decimal("0.01")`
abbrev pub penny : ℤ
penny = pos 100

-- The body of the loop for an invoice that was found, with the capped amount.
unfoldable pub apply_to_invoice : ℕ → Progress → ℕ → SalesInvoice → ℤ → Result Progress
apply_to_invoice r p i invoice actual_amount = do
  rows ← upsert_allocation i actual_amount (p.books.allocations r)
  let new_inv_alloc = invoice.allocated_amount +ℤ actual_amount
  let new_open = invoice.grand_total -ℤ new_inv_alloc
  let new_status = if leb_ℤ new_open (pos 0) then paid else partially_paid
  check_not_negative new_inv_alloc
  ok (record {
    books = record (p.books) {
      allocations = put r rows p.books.allocations;
      invoices =
          update i (record invoice { allocated_amount = new_inv_alloc; status = new_status })
            p.books.invoices;
    };
    total_actually_allocated = p.total_actually_allocated +ℤ actual_amount;
    invoices_updated = p.invoices_updated ++ i ∷ [];
  })

unfoldable pub allocate_invoice : ℕ → Progress → AllocationSpec → Result Progress
unfolding apply_to_invoice
allocate_invoice r p spec = if leb_ℤ spec.amount (pos 0) then ok p else do
  invoice ← or_raise (p.books.invoices spec.document_id) account_not_found
  raise_if (is_closed invoice.status) allocation_exceeds_receipt
  let invoice_open = invoice.grand_total -ℤ invoice.allocated_amount
  raise_if (ltb_ℤ (invoice_open +ℤ penny) spec.amount) allocation_exceeds_receipt
  apply_to_invoice r p spec.document_id invoice (min_ℤ spec.amount invoice_open)

unfoldable pub apply_to_debit_note : ℕ → Progress → ℕ → DebitNote → ℤ → Result Progress
apply_to_debit_note r p n dn actual_dn = do
  rows ← upsert_allocation n actual_dn (p.books.debit_allocations r)
  let new_dn_alloc = dn.allocated_amount +ℤ actual_dn
  let new_dn_status = if leb_ℤ dn.grand_total new_dn_alloc then applied else NoteStatus.issued
  ok (record p {
    books = record (p.books) {
      debit_allocations = put r rows p.books.debit_allocations;
      debit_notes =
          update n (record dn { allocated_amount = new_dn_alloc; status = new_dn_status })
            p.books.debit_notes;
    };
    total_actually_allocated = p.total_actually_allocated +ℤ actual_dn;
  })

unfoldable pub allocate_debit_note : ℕ → Progress → AllocationSpec → Result Progress
unfolding apply_to_debit_note
allocate_debit_note r p spec = if leb_ℤ spec.amount (pos 0) then ok p else do
  dn ← or_raise (p.books.debit_notes spec.document_id) account_not_found
  guard (is_issued dn.status) allocation_exceeds_receipt
  let dn_open = dn.grand_total -ℤ dn.allocated_amount
  raise_if (ltb_ℤ (dn_open +ℤ penny) spec.amount) allocation_exceeds_receipt
  apply_to_debit_note r p spec.document_id dn (min_ℤ spec.amount dn_open)

unfoldable pub execute : AllocateReceiptCommand → Books → Result (Books × AllocationResult)
execute c b = do
  raise_if (has_duplicates (document_ids c.allocations)) allocation_exceeds_receipt
  let total_requested = requested c.allocations +ℤ requested c.debit_note_allocations
  receipt ← or_raise (b.receipts c.receipt_id) account_not_found
  guard (is_posted receipt.status) journal_already_posted
  let available = receipt.amount -ℤ receipt.allocated_amount
  raise_if (ltb_ℤ available total_requested) allocation_exceeds_receipt
  let start : Progress = record {
    books = b;
    total_actually_allocated = pos 0;
    invoices_updated = [];
  }
  p ← each (allocate_invoice c.receipt_id) start c.allocations
  q ← each (allocate_debit_note c.receipt_id) p c.debit_note_allocations
  let new_receipt_alloc = receipt.allocated_amount +ℤ q.total_actually_allocated
  check_not_negative new_receipt_alloc
  ok (
    record (q.books) {
      receipts =
          update c.receipt_id (record receipt { allocated_amount = new_receipt_alloc })
            q.books.receipts;
    },
    record {
      receipt_id = c.receipt_id;
      total_allocated = q.total_actually_allocated;
      unallocated_remaining = max_ℤ (receipt.amount -ℤ new_receipt_alloc) (pos 0);
      invoices_updated = q.invoices_updated;
    },
  )
