-- ===== src/Sales/Receipts/Tests.antt =====
-- Receipts and credit notes at concrete inputs.
use gs_erp.Base.{
  value_of, none, some, [], ◌∷◌, ◌==◌, if◌then◌else◌, pos, ok, err, Rows, ◌≡◌, arith, ◌-ℤ◌, ◌+ℤ◌,
  ◌≤ℤ◌, int_laws, ◌<ℤ◌, refl, ◌↔◌, journal_already_posted, ◌⊎◌,
}
use gs_erp.Sales.Receipts.Books.{
  SalesInvoiceStatus, ReceiptStatus, NoteStatus, SalesInvoice, CustomerReceipt, DebitNote,
  CreditNote, Books, IsWithin, rows_total, applied, credited,
}
use gs_erp.Sales.Receipts.Allocate
use gs_erp.Sales.Receipts.Allocate.{AllocateReceiptCommand, AllocationResult}
use gs_erp.Sales.Receipts.Allocate.Laws.{execute_balances, execute-IsWithin, execute_covered}
use gs_erp.Sales.Receipts.Allocate.Negative.{split_overdraws, split_command, Short}
use gs_erp.Sales.Receipts.Unallocate
use gs_erp.Sales.Receipts.Unallocate.{UnallocateReceiptCommand, UnallocateReceiptResult}
use gs_erp.Sales.Receipts.Unallocate.Laws.{execute-InStep, InStep}
use gs_erp.Sales.Receipts.CreditNotes
use gs_erp.Sales.Receipts.CreditNotes.{
  ApplyCreditNoteCommand, AppliedCreditNote, Applies, execute-Applies,
}

-- A receipt of 100 of which nothing is allocated.
abbrev receipt : CustomerReceipt
receipt = record { status = ReceiptStatus.posted; amount = pos 1000000; allocated_amount = pos 0 }

-- An invoice of 250 of which nothing is paid.
abbrev invoice : SalesInvoice
invoice = record {
  customer_id = 5;
  status = SalesInvoiceStatus.issued;
  grand_total = pos 2500000;
  allocated_amount = pos 0;
}

abbrev debit_note : DebitNote
debit_note = record {
  status = NoteStatus.issued;
  grand_total = pos 300000;
  allocated_amount = pos 0;
}

-- A credit note of 400.
abbrev credit_note : CreditNote
credit_note = record {
  customer_id = 5;
  status = NoteStatus.issued;
  grand_total = pos 4000000;
  related_invoice = none;
}

abbrev only {ℓ} : {V : Type ℓ} → V → Rows V
only v k = if k == 1 then some v else none

abbrev books : Books
books = record {
  receipts = only receipt;
  invoices = only invoice;
  debit_notes = only debit_note;
  credit_notes = only credit_note;
  allocations = λ r. [];
  debit_allocations = λ r. [];
}

-- 60 to the invoice and 30 to the debit note.
abbrev command : AllocateReceiptCommand
command = record {
  receipt_id = 1;
  allocations = record { document_id = 1; amount = pos 600000 } ∷ [];
  debit_note_allocations = record { document_id = 1; amount = pos 300000 } ∷ [];
}

abbrev no_result : AllocationResult
no_result = record {
  receipt_id = 0;
  total_allocated = pos 0;
  unallocated_remaining = pos 0;
  invoices_updated = [];
}

unfoldable allocated : Books × AllocationResult
unfolding Allocate.execute
allocated = value_of (books, no_result) (Allocate.execute command books)

allocated_done : Allocate.execute command books ≡ ok (allocated.0, allocated.1)
unfolding allocated ◌-ℤ◌ ◌+ℤ◌ Allocate.allocate_invoice
    gs_erp.Sales.Receipts.Books.upsert_allocation Allocate.allocate_debit_note
allocated_done = refl

-- 90 of the receipt's 100 are allocated, and 10 remain.
allocated_rest : allocated.1.unallocated_remaining ≡ pos 100000
unfolding allocated ◌-ℤ◌ ◌+ℤ◌ Allocate.allocate_invoice
    gs_erp.Sales.Receipts.Books.upsert_allocation Allocate.allocate_debit_note
allocated_rest = refl

books-IsWithin : IsWithin books
books-IsWithin = record {
  invoice_within = λ i v h. ground arith;
  debit_note_within = λ i v h. ground arith;
}

execute_balances_example :
    (before after : CustomerReceipt) × (books.receipts 1 ≡ some before)
    × (allocated.0.receipts 1 ≡ some after)
    × (after.amount ≡ before.amount)
    × (after.allocated_amount ≡ before.allocated_amount +ℤ allocated.1.total_allocated)
    × (rows_total 1 allocated.0 ≡ rows_total 1 books +ℤ allocated.1.total_allocated)
execute_balances_example = execute_balances command books allocated.0 allocated.1 allocated_done

execute-IsWithin_example : IsWithin allocated.0
execute-IsWithin_example =
    execute-IsWithin command books allocated.0 allocated.1 books-IsWithin allocated_done

execute_covered_example :
    (after : CustomerReceipt) × (allocated.0.receipts 1 ≡ some after)
    × (after.allocated_amount ≤ℤ after.amount)
execute_covered_example =
    execute_covered command books allocated.0 allocated.1 (omega arith, tt) (omega arith, tt)
      allocated_done

books-Short : Short books 1 1 receipt invoice (pos 2000000)
unfolding ◌-ℤ◌
books-Short = record {
  found = refl;
  is_posted = refl;
  spent = omega arith;
  left = omega arith;
  invoice_found = refl;
  is_open = refl;
  invoice_spent = omega arith;
  rows_nonneg = omega arith;
  short = omega arith;
  fits = omega (arith, int_laws);
}

-- 200 of a receipt of 100 go to the invoice.
split_overdraws_example :
    (b' : Books) × (res : AllocationResult) × (after : CustomerReceipt) × (Allocate.execute
        (split_command 1 1 2 (pos 2000000) (receipt.amount -ℤ receipt.allocated_amount))
        books
      ≡ ok (b', res))
    × (res.total_allocated ≡ pos 2000000)
    × (b'.receipts 1 ≡ some after)
    × (after.amount <ℤ after.allocated_amount)
split_overdraws_example =
    split_overdraws books 1 1 2 receipt invoice (pos 2000000) (omega arith) books-Short

-- The receipt after that allocation, with its rows.
abbrev spent : CustomerReceipt
spent = record receipt { allocated_amount = pos 900000 }

abbrev held : Books
held = record books {
  receipts = only spent;
  invoices = only (record invoice { allocated_amount = pos 600000 });
  allocations = λ r. (1, pos 600000) ∷ [];
  debit_allocations = λ r. (1, pos 300000) ∷ [];
}

abbrev release : UnallocateReceiptCommand
release = record { receipt_id = 1; invoice_ids = 1 ∷ [] }

abbrev nothing_released : UnallocateReceiptResult
nothing_released = record { receipt_id = 0; total_released = pos 0; invoices_updated = [] }

unfoldable freed : Books × UnallocateReceiptResult
unfolding Unallocate.execute
freed = value_of (held, nothing_released) (Unallocate.execute release held)

freed_done : Unallocate.execute release held ≡ ok (freed.0, freed.1)
unfolding freed Unallocate.release_invoice
freed_done = refl

held-InStep : InStep 1 held spent
held-InStep = record {
  found = refl;
  counted = omega (arith, int_laws);
  rows_nonneg = (omega arith, tt);
  debit_rows_nonneg = (omega arith, tt);
}

execute-InStep_example :
    (after : CustomerReceipt) × InStep 1 freed.0 after
    × (after.allocated_amount ≡ spent.allocated_amount -ℤ freed.1.total_released)
    × (rows_total 1 freed.0 +ℤ freed.1.total_released ≡ rows_total 1 held)
execute-InStep_example = execute-InStep release held freed.0 freed.1 spent held-InStep freed_done

abbrev crediting : ApplyCreditNoteCommand
crediting = record { credit_note_id = 1; invoice_id = 1 }

abbrev nothing_applied : AppliedCreditNote
nothing_applied = record {
  credit_note_id = 0;
  invoice_id = 0;
  amount_applied = pos 0;
  invoice_new_status = SalesInvoiceStatus.issued;
  credit_note_new_status = NoteStatus.issued;
}

unfoldable credited_books : Books × AppliedCreditNote
unfolding CreditNotes.execute
credited_books = value_of (books, nothing_applied) (CreditNotes.execute crediting books)

credited_done : CreditNotes.execute crediting books ≡ ok (credited_books.0, credited_books.1)
unfolding credited_books ◌+ℤ◌ ◌-ℤ◌
credited_done = refl

books-Applies : Applies crediting books credit_note invoice
books-Applies = record {
  cn_found = refl;
  invoice_found = refl;
  invoice_spent = omega arith;
  invoice_within = omega arith;
}

execute-Applies_example :
    (after : SalesInvoice) × (credited_books.0.invoices 1 ≡ some after)
    × (after.allocated_amount ≡ invoice.allocated_amount +ℤ credited_books.1.amount_applied)
    × (after.grand_total ≡ invoice.grand_total)
    × (credited_books.1.amount_applied ≤ℤ credit_note.grand_total)
    × ((credited_books.1.amount_applied ≡ credit_note.grand_total)
        ⊎ (after.allocated_amount ≡ after.grand_total))
    × (credited_books.0.credit_notes 1
        ≡ some (record credit_note { status = NoteStatus.applied; related_invoice = some 1 }))
    × (after.allocated_amount ≤ℤ after.grand_total)
    × ((after.status ≡ credited) ↔ (after.allocated_amount ≡ after.grand_total))
    × (CreditNotes.execute crediting credited_books.0 ≡ err journal_already_posted)
execute-Applies_example =
    execute-Applies crediting books credited_books.0 credited_books.1 credit_note invoice
      books-Applies credited_done
