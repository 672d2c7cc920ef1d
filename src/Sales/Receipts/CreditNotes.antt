-- ===== src/Sales/Receipts/CreditNotes.antt =====
-- `ApplyCreditNoteToInvoice` of apps/sales/application/use_cases/apply_credit_note.py. The rows are
-- read before the transaction and read again under the lock; one run sees the same rows twice.
use gs_erp.Base.{
  ℕ, ◌≡◌, ◌↔◌, Bool, true, false, Option, none, some, arith, ◌==◌, if◌then◌else◌, ℤ, pos, ◌+ℤ◌,
  ◌-ℤ◌, ◌≤ℤ◌, leb_ℤ, min_ℤ, Result, ok, err, ◌>>=◌, ◌>>◌, guard, raise_if, or_raise,
  account_not_found, journal_already_posted, allocation_exceeds_receipt, update, Bool-cases,
  min_ℤ-le, inl, int_laws, leb_ℤ_sub_iff, inr, ◌∙◌, ◌⊎◌, refl,
}
use gs_erp.Sales.Receipts.Books.{
  SalesInvoiceStatus, partially_paid, credited, NoteStatus, applied, SalesInvoice, CreditNote,
  Books, check_not_negative,
}
use gs_erp.Sales.Receipts.Allocate.{is_issued}

pub record ApplyCreditNoteCommand : Type 0 where
  pub credit_note_id : ℕ
  pub invoice_id : ℕ

pub record AppliedCreditNote : Type 0 where
  pub credit_note_id : ℕ
  pub invoice_id : ℕ
  pub amount_applied : ℤ
  pub invoice_new_status : SalesInvoiceStatus
  pub credit_note_new_status : NoteStatus

-- `related_invoice_id` is set (no row has the key 0).
abbrev pub is_linked : Option ℕ → Bool
is_linked none = false
is_linked (some i) = true

-- `status in (ISSUED, PARTIALLY_PAID)`
abbrev pub is_open : SalesInvoiceStatus → Bool
is_open SalesInvoiceStatus.issued = true
is_open SalesInvoiceStatus.partially_paid = true
is_open _ = false

unfoldable pub execute : ApplyCreditNoteCommand → Books → Result (Books × AppliedCreditNote)
execute c b = do
  cn ← or_raise (b.credit_notes c.credit_note_id) account_not_found
  guard (is_issued cn.status) journal_already_posted
  raise_if (is_linked cn.related_invoice) journal_already_posted
  invoice ← or_raise (b.invoices c.invoice_id) account_not_found
  guard (invoice.customer_id == cn.customer_id) allocation_exceeds_receipt
  guard (is_open invoice.status) allocation_exceeds_receipt
  let cn_available = cn.grand_total
  let inv_open = invoice.grand_total -ℤ invoice.allocated_amount
  raise_if (leb_ℤ cn_available (pos 0)) allocation_exceeds_receipt
  let amount_applied = min_ℤ cn_available inv_open
  let new_inv_alloc = invoice.allocated_amount +ℤ amount_applied
  let new_inv_open = invoice.grand_total -ℤ new_inv_alloc
  let new_inv_status = if leb_ℤ new_inv_open (pos 0) then credited else partially_paid
  check_not_negative new_inv_alloc
  ok (
    record b {
      invoices =
          update c.invoice_id
            (record invoice { allocated_amount = new_inv_alloc; status = new_inv_status })
            b.invoices;
      credit_notes =
          update c.credit_note_id
            (record cn { status = applied; related_invoice = some c.invoice_id }) b.credit_notes;
    },
    record {
      credit_note_id = c.credit_note_id;
      invoice_id = c.invoice_id;
      amount_applied = amount_applied;
      invoice_new_status = new_inv_status;
      credit_note_new_status = applied;
    },
  )

-- The rows that a credit note is applied to.
pub record Applies (c : ApplyCreditNoteCommand) (b : Books) (cn : CreditNote)
    (invoice : SalesInvoice) : Type 0 where
  pub cn_found : b.credit_notes c.credit_note_id ≡ some cn
  pub invoice_found : b.invoices c.invoice_id ≡ some invoice
  pub invoice_spent : pos 0 ≤ℤ invoice.allocated_amount
  pub invoice_within : invoice.allocated_amount ≤ℤ invoice.grand_total

covered_iff :
    (g a : ℤ)
    → a ≤ℤ g
    → ((if leb_ℤ (g -ℤ a) (pos 0) then credited else partially_paid) ≡ credited) ↔ (a ≡ g)
covered_iff g a h = elim (Bool-cases (leb_ℤ (g -ℤ a) (pos 0))) [
  | inl covered ↦ (λ _. (leb_ℤ_sub_iff g a h).0 covered, λ _. rw covered)
  | inr open_left ↦ (λ e. absurd (cc), λ e. cc ((leb_ℤ_sub_iff g a h).1 e))
]

-- The smaller of a total and an open amount is the one or fills the other.
smaller :
    (total g a n : ℤ) → n ≡ min_ℤ total (g -ℤ a) → (n ≡ total) ⊎ (a +ℤ min_ℤ total (g -ℤ a) ≡ g)
smaller total g a n h = elim (Bool-cases (leb_ℤ total (g -ℤ a))) [
  | inl whole ↦ inl (h ∙ rw whole refl)
  | inr part ↦ inr (rw part (omega int_laws))
]

-- An accepted application adds to the allocated amount of the invoice what it reports: no more than
-- the note's total, no more than the invoice has open, and one of both in full, so the smaller. The
-- invoice stays within its total and is credited exactly when it is fully covered; the note is
-- applied and linked to the invoice, so it is not accepted again. The invoice is not allocated
-- beyond its total before, and not negatively.
pub execute-Applies :
    (c : ApplyCreditNoteCommand) (b b' : Books) (res : AppliedCreditNote) (cn : CreditNote)
    (invoice : SalesInvoice)
    → Applies c b cn invoice
    → execute c b ≡ ok (b', res)
    → (after : SalesInvoice) × (b'.invoices c.invoice_id ≡ some after)
      × (after.allocated_amount ≡ invoice.allocated_amount +ℤ res.amount_applied)
      × (after.grand_total ≡ invoice.grand_total)
      × (res.amount_applied ≤ℤ cn.grand_total)
      × ((res.amount_applied ≡ cn.grand_total) ⊎ (after.allocated_amount ≡ after.grand_total))
      × (b'.credit_notes c.credit_note_id
          ≡ some (record cn { status = applied; related_invoice = some c.invoice_id }))
      × (after.allocated_amount ≤ℤ after.grand_total)
      × ((after.status ≡ credited) ↔ (after.allocated_amount ≡ after.grand_total))
      × (execute c b' ≡ err journal_already_posted)
unfolding execute
execute-Applies c b b' res cn invoice a h =
    let n = min_ℤ cn.grand_total (invoice.grand_total -ℤ invoice.allocated_amount) in
    let after : SalesInvoice = record invoice {
      allocated_amount = invoice.allocated_amount +ℤ n;
      status =
          if leb_ℤ (invoice.grand_total -ℤ (invoice.allocated_amount +ℤ n)) (pos 0)
          then credited
          else partially_paid;
    } in
    let taken : res.amount_applied ≡ n = ground (arith, a.cn_found, a.invoice_found) in
    let bounds = min_ℤ-le cn.grand_total (invoice.grand_total -ℤ invoice.allocated_amount) in
    let fits : invoice.allocated_amount +ℤ n ≤ℤ invoice.grand_total = omega (int_laws, bounds.1) in
    (
      after,
      ground (arith, a.cn_found, a.invoice_found),
      ground (arith, a.cn_found, a.invoice_found),
      refl,
      rw taken bounds.0,
      smaller cn.grand_total invoice.grand_total invoice.allocated_amount res.amount_applied taken,
      ground (arith, a.cn_found, a.invoice_found),
      fits,
      covered_iff invoice.grand_total (invoice.allocated_amount +ℤ n) fits,
      ground (arith, a.cn_found, a.invoice_found),
    )
