-- ===== src/Sales/Receipts/Allocate/Negative.antt =====
-- Negative amounts in a request: they count for the test against the receipt, and not in the loop.
use gs_erp.Base.{
  ℕ, ◌≡◌, ◌≢◌, true, false, some, [], ◌∷◌, arith, ◌==◌, if◌then◌else◌, ==_refl, ℤ, pos, ◌+ℤ◌, ◌-ℤ◌,
  ◌≤ℤ◌, ◌<ℤ◌, leb_ℤ, max_ℤ, int_laws, ok, Table, lookup, insert, value_or_zero, update, put,
  leb_ℤ_of_le, leb_ℤ_of_lt, ltb_ℤ_of_lt, ltb_ℤ_of_le, min_ℤ_of_le,
}
use gs_erp.Sales.Receipts.Books.{
  CustomerReceipt, SalesInvoice, paid, partially_paid, Books, upsert_allocation,
}
use gs_erp.Sales.Receipts.Allocate.{
  AllocateReceiptCommand, AllocationResult, Progress, is_posted, is_closed, allocate_invoice,
  execute,
}

-- Two requests: one for `x`, and one for the rest of the receipt, which may be negative.
abbrev pub split_command : ℕ → ℕ → ℕ → ℤ → ℤ → AllocateReceiptCommand
split_command r i j x available = record {
  receipt_id = r;
  allocations =
      record { document_id = i; amount = x }
      ∷ record { document_id = j; amount = available -ℤ x }
      ∷ [];
  debit_note_allocations = [];
}

-- The rows of a posted receipt and of an open invoice whose open amount exceeds what is left of
-- the receipt.
pub record Short (b : Books) (r i : ℕ) (receipt : CustomerReceipt) (invoice : SalesInvoice) (x : ℤ)
    : Type 0 where
  pub found : b.receipts r ≡ some receipt
  pub is_posted : is_posted receipt.status ≡ true
  pub spent : pos 0 ≤ℤ receipt.allocated_amount
  pub left : receipt.allocated_amount ≤ℤ receipt.amount
  pub invoice_found : b.invoices i ≡ some invoice
  pub is_open : is_closed invoice.status ≡ false
  pub invoice_spent : pos 0 ≤ℤ invoice.allocated_amount
  pub rows_nonneg : pos 0 ≤ℤ value_or_zero (lookup i (b.allocations r))
  pub short : receipt.amount -ℤ receipt.allocated_amount <ℤ x
  pub fits : x ≤ℤ invoice.grand_total -ℤ invoice.allocated_amount

-- A round for an amount that is not positive does nothing.
skipped :
    (r j : ℕ) (p : Progress) (y : ℤ)
    → y ≤ℤ pos 0
    → allocate_invoice r p (record { document_id = j; amount = y }) ≡ ok p
unfolding allocate_invoice
skipped r j p y h = rw (leb_ℤ_of_le y (pos 0) h)

module _ (b : Books) (r i : ℕ) (receipt : CustomerReceipt) (invoice : SalesInvoice) (x : ℤ)
    (s : Short b r i receipt invoice x) where
  abbrev rows : Table ℤ
  rows = insert i (value_or_zero (lookup i (b.allocations r)) +ℤ x) (b.allocations r)

  abbrev taken : Progress
  taken = record {
    books = record b {
      allocations = put r rows b.allocations;
      invoices =
          update i
            (record invoice {
              allocated_amount = invoice.allocated_amount +ℤ x;
              status =
                  if leb_ℤ (invoice.grand_total -ℤ (invoice.allocated_amount +ℤ x)) (pos 0)
                  then paid
                  else partially_paid;
            })
            b.invoices;
    };
    total_actually_allocated = pos 0 +ℤ x;
    invoices_updated = i ∷ [];
  }

  abbrev overdrawn : CustomerReceipt
  overdrawn = record receipt { allocated_amount = receipt.allocated_amount +ℤ (pos 0 +ℤ x) }

  abbrev begin : Progress
  begin = record { books = b; total_actually_allocated = pos 0; invoices_updated = [] }

  first_round : allocate_invoice r begin (record { document_id = i; amount = x }) ≡ ok taken
  unfolding allocate_invoice upsert_allocation
  first_round = rw (
    leb_ℤ_of_lt x (pos 0) (omega (int_laws, s.short, s.left)),
    s.invoice_found,
    s.is_open,
    ltb_ℤ_of_le (invoice.grand_total -ℤ invoice.allocated_amount +ℤ pos 100) x
        (omega (int_laws, s.fits)),
    min_ℤ_of_le x (invoice.grand_total -ℤ invoice.allocated_amount) s.fits,
    ltb_ℤ_of_lt (pos 0) (value_or_zero (lookup i (b.allocations r)) +ℤ x)
        (omega (int_laws, s.rows_nonneg, s.short, s.left)),
    leb_ℤ_of_le (pos 0) (invoice.allocated_amount +ℤ x)
        (omega (int_laws, s.invoice_spent, s.short, s.left)),
  )

-- A request for more than a receipt has left is accepted whenever a negative second request makes
-- up the difference: all of `x` is then allocated, and the receipt's allocated amount exceeds its
-- amount.
pub split_overdraws :
    (b : Books) (r i j : ℕ) (receipt : CustomerReceipt) (invoice : SalesInvoice) (x : ℤ)
    → i ≢ j
    → Short b r i receipt invoice x
    → (b' : Books) × (res : AllocationResult) × (after : CustomerReceipt) × (execute
          (split_command r i j x (receipt.amount -ℤ receipt.allocated_amount))
          b
        ≡ ok (b', res))
      × (res.total_allocated ≡ x)
      × (b'.receipts r ≡ some after)
      × (after.amount <ℤ after.allocated_amount)
unfolding execute
split_overdraws b r i j receipt invoice x ne s =
    let available = receipt.amount -ℤ receipt.allocated_amount in
    let distinct : (i == j) ≡ false = ground arith in
    let p = taken b r i receipt invoice x s in
    let spent : ℤ = receipt.allocated_amount +ℤ (pos 0 +ℤ x) in
    (
      record (p.books) { receipts = update r (overdrawn b r i receipt invoice x s) b.receipts },
      record {
        receipt_id = r;
        total_allocated = pos 0 +ℤ x;
        unallocated_remaining = max_ℤ (receipt.amount -ℤ spent) (pos 0);
        invoices_updated = i ∷ [];
      },
      overdrawn b r i receipt invoice x s,
      rw (
        distinct,
        s.found,
        s.is_posted,
        ltb_ℤ_of_le available (x +ℤ (available -ℤ x +ℤ pos 0) +ℤ pos 0) (omega int_laws),
        first_round b r i receipt invoice x s,
        skipped r j p (available -ℤ x) (omega (int_laws, s.short)),
        leb_ℤ_of_le (pos 0) spent (omega (int_laws, s.spent, s.short, s.left)),
      ),
      omega int_laws,
      rw (==_refl r),
      omega (int_laws, s.short),
    )
