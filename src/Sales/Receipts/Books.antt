-- ===== src/Sales/Receipts/Books.antt =====
-- The rows that the receipt use cases read and write (apps/sales/infrastructure/invoice_models.py).
-- Amounts are `DecimalField(decimal_places=4)`, held as counts of 0.0001.
use gs_erp.Base.{
  ℕ, ◌≡◌, Option, some, ℤ, pos, ◌+ℤ◌, ◌≤ℤ◌, ltb_ℤ, leb_ℤ, Result, ok, ◌>>◌, guard, Table, lookup,
  insert, total, value_or_zero, integrity_error, Rows, int_laws, total-insert, arith, eq-sub_of_add,
  ◌∙◌,
}

pub data SalesInvoiceStatus : Type 0 where
  draft approved issued partially_paid paid cancelled credited : SalesInvoiceStatus

pub data ReceiptStatus : Type 0 where
  draft posted cancelled reversed : ReceiptStatus

pub data NoteStatus : Type 0 where
  draft issued applied cancelled : NoteStatus

pub record SalesInvoice : Type 0 where
  pub customer_id : ℕ
  pub status : SalesInvoiceStatus
  pub grand_total : ℤ
  pub allocated_amount : ℤ

pub record CustomerReceipt : Type 0 where
  pub status : ReceiptStatus
  pub amount : ℤ
  pub allocated_amount : ℤ

pub record DebitNote : Type 0 where
  pub status : NoteStatus
  pub grand_total : ℤ
  pub allocated_amount : ℤ

pub record CreditNote : Type 0 where
  pub customer_id : ℕ
  pub status : NoteStatus
  pub grand_total : ℤ
  pub related_invoice : Option ℕ

-- The allocation tables are unique per (receipt, document), so they are read by receipt: the rows
-- of a receipt are a table from documents to amounts.
pub record Books : Type 0 where
  pub receipts : Rows CustomerReceipt
  pub invoices : Rows SalesInvoice
  pub debit_notes : Rows DebitNote
  pub credit_notes : Rows CreditNote
  pub allocations : ℕ → Table ℤ
  pub debit_allocations : ℕ → Table ℤ

-- The check constraints `allocated_amount > 0` and `allocated_amount >= 0`.
abbrev pub check_positive : ℤ → Result (Unit {0})
check_positive n = guard (ltb_ℤ (pos 0) n) integrity_error

abbrev pub check_not_negative : ℤ → Result (Unit {0})
check_not_negative n = guard (leb_ℤ (pos 0) n) integrity_error

-- Add to the row of a document, or create it.
unfoldable pub upsert_allocation : ℕ → ℤ → Table ℤ → Result (Table ℤ)
upsert_allocation document amount rows = do
  let new_amount = value_or_zero (lookup document rows) +ℤ amount
  check_positive new_amount
  ok (insert document new_amount rows)

-- The receipt's allocated amount is the sum of its rows.
abbrev pub rows_total : ℕ → Books → ℤ
rows_total r b = total (b.allocations r) +ℤ total (b.debit_allocations r)

-- No document is allocated more than it is worth.
pub record IsWithin (b : Books) : Type 0 where
  pub invoice_within :
      (i : ℕ) (v : SalesInvoice) → b.invoices i ≡ some v → v.allocated_amount ≤ℤ v.grand_total
  pub debit_note_within :
      (n : ℕ) (v : DebitNote) → b.debit_notes n ≡ some v → v.allocated_amount ≤ℤ v.grand_total

pub upsert_allocation-total :
    (d : ℕ) (amount : ℤ) (rows rows' : Table ℤ)
    → upsert_allocation d amount rows ≡ ok rows'
    → total rows' ≡ total rows +ℤ amount
unfolding upsert_allocation
upsert_allocation-total d amount rows rows' h =
    let old = value_or_zero (lookup d rows) in
    let e : rows' ≡ insert d (old +ℤ amount) rows = ground arith in
    rw e (
      eq-sub_of_add (total (insert d (old +ℤ amount) rows)) old (total rows +ℤ (old +ℤ amount))
        (total-insert d (old +ℤ amount) rows)
      ∙ omega int_laws)
