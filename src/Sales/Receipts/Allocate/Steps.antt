-- ===== src/Sales/Receipts/Allocate/Steps.antt =====
-- What one round of either loop of the allocation does.
use gs_erp.Base.{
  subst, ℕ, ◌≡◌, refl, inl, inr, arith, Bool-cases, Option-cases, ℤ, pos, ◌+ℤ◌, ◌-ℤ◌, ◌≤ℤ◌, leb_ℤ,
  min_ℤ, max_ℤ, int_laws, ok, >>=-eq-ok,
}
use gs_erp.Sales.Receipts.Books.{
  SalesInvoice, DebitNote, rows_total, IsWithin, upsert_allocation, upsert_allocation-total,
}
use gs_erp.Sales.Receipts.Allocate.{
  AllocationSpec, Progress, apply_to_invoice, allocate_invoice, apply_to_debit_note,
  allocate_debit_note,
}

-- What a round for an amount does to the books: the receipt's rows grow by what was counted, which
-- is at most the amount, and no document goes beyond its worth.
pub record Moves (r : ℕ) (p : Progress) (q : Progress) (limit : ℤ) : Type 0 where
  pub rows :
      rows_total r q.books -ℤ q.total_actually_allocated
      ≡ rows_total r p.books -ℤ p.total_actually_allocated
  pub at_most : q.total_actually_allocated ≤ℤ p.total_actually_allocated +ℤ limit

pub Moves-skip : (r : ℕ) (p q : Progress) (limit : ℤ) → p ≡ q → pos 0 ≤ℤ limit → Moves r p q limit
Moves-skip r p q limit e h =
    subst (λ t. Moves r p t limit) e (record { rows = refl; at_most = omega int_laws })

apply_to_invoice-Moves :
    (r : ℕ) (p : Progress) (i : ℕ) (invoice : SalesInvoice) (amount limit : ℤ) (q : Progress)
    → amount ≤ℤ limit
    → apply_to_invoice r p i invoice amount ≡ ok q
    → Moves r p q limit
unfolding apply_to_invoice
apply_to_invoice-Moves r p i invoice amount limit q le h =
    let (rows, e, rest) = >>=-eq-ok (upsert_allocation i amount (p.books.allocations r)) _ h in
    let grown = upsert_allocation-total i amount (p.books.allocations r) rows e in
    let ea : q.books.allocations r ≡ rows = ground arith in
    let ed : q.books.debit_allocations r ≡ p.books.debit_allocations r = ground arith in
    let et : q.total_actually_allocated ≡ p.total_actually_allocated +ℤ amount = ground arith in
    record { rows = rw (ea, ed, et, grown) (omega int_laws); at_most = rw et (omega int_laws) }

apply_to_invoice-IsWithin :
    (r : ℕ) (p : Progress) (i : ℕ) (invoice : SalesInvoice) (amount : ℤ) (q : Progress)
    → amount ≤ℤ invoice.grand_total -ℤ invoice.allocated_amount
    → apply_to_invoice r p i invoice amount ≡ ok q
    → IsWithin p.books
    → IsWithin q.books
unfolding apply_to_invoice
apply_to_invoice-IsWithin r p i invoice amount q le h w =
    let (rows, e, rest) = >>=-eq-ok (upsert_allocation i amount (p.books.allocations r)) _ h in
    let fits : invoice.allocated_amount +ℤ amount ≤ℤ invoice.grand_total = omega int_laws in
    record {
      invoice_within = λ j v f. ground (arith, w.invoice_within j v);
      debit_note_within = λ j v f. ground (arith, w.debit_note_within j v);
    }

-- One round of the loop over the invoices.
pub allocate_invoice-Moves :
    (r : ℕ) (p : Progress) (s : AllocationSpec) (q : Progress)
    → allocate_invoice r p s ≡ ok q
    → Moves r p q (max_ℤ s.amount (pos 0))
unfolding allocate_invoice
allocate_invoice-Moves r p s q h = elim (Bool-cases (leb_ℤ s.amount (pos 0))) [
  | inl skipped ↦ Moves-skip r p q (max_ℤ s.amount (pos 0)) (ground arith) (ground arith)
  | inr wanted ↦ elim (Option-cases (p.books.invoices s.document_id)) [
    | inl missing ↦ ground arith
    | inr (invoice, found) ↦
        apply_to_invoice-Moves r p s.document_id invoice
          (min_ℤ s.amount (invoice.grand_total -ℤ invoice.allocated_amount))
          (max_ℤ s.amount (pos 0)) q (ground arith) (ground arith)
  ]
]

pub allocate_invoice-IsWithin :
    (r : ℕ) (p : Progress) (s : AllocationSpec) (q : Progress)
    → IsWithin p.books
    → allocate_invoice r p s ≡ ok q
    → IsWithin q.books
unfolding allocate_invoice
allocate_invoice-IsWithin r p s q w h = elim (Bool-cases (leb_ℤ s.amount (pos 0))) [
  | inl skipped ↦ let e : p ≡ q = ground arith in subst (λ t. IsWithin t.books) e w
  | inr wanted ↦ elim (Option-cases (p.books.invoices s.document_id)) [
    | inl missing ↦ ground arith
    | inr (invoice, found) ↦
        apply_to_invoice-IsWithin r p s.document_id invoice
          (min_ℤ s.amount (invoice.grand_total -ℤ invoice.allocated_amount)) q (ground arith)
          (ground arith) w
  ]
]

apply_to_debit_note-Moves :
    (r : ℕ) (p : Progress) (n : ℕ) (dn : DebitNote) (amount limit : ℤ) (q : Progress)
    → amount ≤ℤ limit
    → apply_to_debit_note r p n dn amount ≡ ok q
    → Moves r p q limit
unfolding apply_to_debit_note
apply_to_debit_note-Moves r p n dn amount limit q le h =
    let (rows, e, rest) =
      >>=-eq-ok (upsert_allocation n amount (p.books.debit_allocations r)) _ h in
    let grown = upsert_allocation-total n amount (p.books.debit_allocations r) rows e in
    let ea : q.books.debit_allocations r ≡ rows = ground arith in
    let ed : q.books.allocations r ≡ p.books.allocations r = ground arith in
    let et : q.total_actually_allocated ≡ p.total_actually_allocated +ℤ amount = ground arith in
    record { rows = rw (ea, ed, et, grown) (omega int_laws); at_most = rw et (omega int_laws) }

apply_to_debit_note-IsWithin :
    (r : ℕ) (p : Progress) (n : ℕ) (dn : DebitNote) (amount : ℤ) (q : Progress)
    → amount ≤ℤ dn.grand_total -ℤ dn.allocated_amount
    → apply_to_debit_note r p n dn amount ≡ ok q
    → IsWithin p.books
    → IsWithin q.books
unfolding apply_to_debit_note
apply_to_debit_note-IsWithin r p n dn amount q le h w =
    let (rows, e, rest) =
      >>=-eq-ok (upsert_allocation n amount (p.books.debit_allocations r)) _ h in
    let fits : dn.allocated_amount +ℤ amount ≤ℤ dn.grand_total = omega int_laws in
    record {
      invoice_within = λ j v f. ground (arith, w.invoice_within j v);
      debit_note_within = λ j v f. ground (arith, w.debit_note_within j v);
    }

-- One round of the loop over the debit notes.
pub allocate_debit_note-Moves :
    (r : ℕ) (p : Progress) (s : AllocationSpec) (q : Progress)
    → allocate_debit_note r p s ≡ ok q
    → Moves r p q (max_ℤ s.amount (pos 0))
unfolding allocate_debit_note
allocate_debit_note-Moves r p s q h = elim (Bool-cases (leb_ℤ s.amount (pos 0))) [
  | inl skipped ↦ Moves-skip r p q (max_ℤ s.amount (pos 0)) (ground arith) (ground arith)
  | inr wanted ↦ elim (Option-cases (p.books.debit_notes s.document_id)) [
    | inl missing ↦ ground arith
    | inr (dn, found) ↦
        apply_to_debit_note-Moves r p s.document_id dn
          (min_ℤ s.amount (dn.grand_total -ℤ dn.allocated_amount)) (max_ℤ s.amount (pos 0)) q
          (ground arith) (ground arith)
  ]
]

pub allocate_debit_note-IsWithin :
    (r : ℕ) (p : Progress) (s : AllocationSpec) (q : Progress)
    → IsWithin p.books
    → allocate_debit_note r p s ≡ ok q
    → IsWithin q.books
unfolding allocate_debit_note
allocate_debit_note-IsWithin r p s q w h = elim (Bool-cases (leb_ℤ s.amount (pos 0))) [
  | inl skipped ↦ let e : p ≡ q = ground arith in subst (λ t. IsWithin t.books) e w
  | inr wanted ↦ elim (Option-cases (p.books.debit_notes s.document_id)) [
    | inl missing ↦ ground arith
    | inr (dn, found) ↦
        apply_to_debit_note-IsWithin r p s.document_id dn
          (min_ℤ s.amount (dn.grand_total -ℤ dn.allocated_amount)) q (ground arith) (ground arith) w
  ]
]
