-- ===== src/Sales/Receipts/Allocate/Laws.antt =====
-- What an accepted allocation has done, over both loops.
use gs_erp.Base.{
  subst, ℕ, ◌≡◌, refl, sym, ap, ◌∙◌, some, List, [], ◌∷◌, arith, ==_refl, All, ℤ, pos, ◌+ℤ◌, ◌-ℤ◌,
  ◌≤ℤ◌, ltb_ℤ, max_ℤ, int_laws, Result, ok, guard, raise_if, or_raise, >>=-eq-ok, account_not_found,
  journal_already_posted, allocation_exceeds_receipt, update, each, each_inv,
}
use gs_erp.Sales.Receipts.Books.{CustomerReceipt, Books, rows_total, IsWithin}
use gs_erp.Sales.Receipts.Allocate.{
  AllocationSpec, AllocateReceiptCommand, AllocationResult, Progress, is_posted, document_ids,
  has_duplicates, requested, allocate_invoice, allocate_debit_note, execute,
}
use gs_erp.Sales.Receipts.Allocate.Steps.{
  Moves, Moves-skip, allocate_invoice-Moves, allocate_invoice-IsWithin, allocate_debit_note-Moves,
  allocate_debit_note-IsWithin,
}

-- The sum of the amounts that the loops do not skip.
abbrev pub positive : List AllocationSpec → ℤ
positive [] = pos 0
positive (s ∷ ss) = max_ℤ s.amount (pos 0) +ℤ positive ss

Moves-trans :
    {r : ℕ} {p q t : Progress} {m n : ℤ} → Moves r p q m → Moves r q t n → Moves r p t (m +ℤ n)
Moves-trans a b = record {
  rows = b.rows ∙ a.rows;
  at_most = omega (int_laws, a.at_most, b.at_most);
}

each-Moves :
    (r : ℕ) (step : Progress → AllocationSpec → Result Progress)
    → ((p : Progress) (s : AllocationSpec) (q : Progress)
        → step p s ≡ ok q
        → Moves r p q (max_ℤ s.amount (pos 0)))
    → (p : Progress) (ss : List AllocationSpec) (q : Progress) → each step p ss ≡ ok q
    → Moves r p q (positive ss)
each-Moves r step move p [] q h = Moves-skip r p q (pos 0) (cc) (omega arith)
each-Moves r step move p (s ∷ ss) q h =
    let (t, e, rest) = >>=-eq-ok (step p s) (λ t. each step t ss) h in
    Moves-trans (move p s t e) (each-Moves r step move t ss q rest)

abbrev start : Books → Progress
start b = record { books = b; total_actually_allocated = pos 0; invoices_updated = [] }

balance_lem : (a t b : ℤ) → a -ℤ t ≡ b -ℤ pos 0 → a ≡ b +ℤ t
balance_lem a t b h = (omega int_laws) ∙ ap (λ x. x +ℤ t) h ∙ omega int_laws

positive-requested :
    (ss : List AllocationSpec) → All (λ s. pos 0 ≤ℤ s.amount) ss → positive ss ≡ requested ss
positive-requested [] h = refl
positive-requested (s ∷ ss) h =
    let e : max_ℤ s.amount (pos 0) ≡ s.amount = grind (arith, h.0) in
    rw (e, positive-requested ss h.1)

-- An accepted allocation, taken apart.
pub record Allocated (c : AllocateReceiptCommand) (b b' : Books) (res : AllocationResult)
    : Type 0 where
  pub receipt : CustomerReceipt
  pub found : b.receipts c.receipt_id ≡ some receipt
  pub covered :
      requested c.allocations +ℤ requested c.debit_note_allocations
      ≤ℤ receipt.amount -ℤ receipt.allocated_amount
  pub middle : Progress
  pub final : Progress
  pub first_loop : each (allocate_invoice c.receipt_id) (start b) c.allocations ≡ ok middle
  pub second_loop :
      each (allocate_debit_note c.receipt_id) middle c.debit_note_allocations ≡ ok final
  pub books : b' ≡ record (final.books) {
    receipts =
        update c.receipt_id
          (record receipt {
            allocated_amount = receipt.allocated_amount +ℤ final.total_actually_allocated;
          })
          final.books.receipts;
  }
  pub counted : res.total_allocated ≡ final.total_actually_allocated

execute-Allocated :
    (c : AllocateReceiptCommand) (b b' : Books) (res : AllocationResult)
    → execute c b ≡ ok (b', res)
    → Allocated c b b' res
unfolding execute
execute-Allocated c b b' res h =
    let (u, e1, h1) =
      >>=-eq-ok (raise_if (has_duplicates (document_ids c.allocations)) allocation_exceeds_receipt)
        _ h in
    let (receipt, e2, h2) = >>=-eq-ok (or_raise (b.receipts c.receipt_id) account_not_found) _ h1 in
    let (u3, e3, h3) = >>=-eq-ok (guard (is_posted receipt.status) journal_already_posted) _ h2 in
    let (u4, e4, h4) =
      >>=-eq-ok
        (raise_if
          (ltb_ℤ (receipt.amount -ℤ receipt.allocated_amount)
            (requested c.allocations +ℤ requested c.debit_note_allocations))
          allocation_exceeds_receipt)
        _ h3 in
    let (p, e5, h5) =
      >>=-eq-ok (each (allocate_invoice c.receipt_id) (start b) c.allocations) _ h4 in
    let (q, e6, h6) =
      >>=-eq-ok (each (allocate_debit_note c.receipt_id) p c.debit_note_allocations) _ h5 in
    record {
      receipt = receipt;
      found = ground arith;
      covered = ground arith;
      middle = p;
      final = q;
      first_loop = e5;
      second_loop = e6;
      books = ground arith;
      counted = ground arith;
    }

module _ (c : AllocateReceiptCommand) (b b' : Books) (res : AllocationResult)
    (done : execute c b ≡ ok (b', res)) where
  allocated : Allocated c b b' res
  allocated = execute-Allocated c b b' res done

  whole_move :
      Moves c.receipt_id
        (start b)
        allocated.final
        (positive c.allocations +ℤ positive c.debit_note_allocations)
  whole_move =
      Moves-trans
        (each-Moves c.receipt_id (allocate_invoice c.receipt_id)
          (allocate_invoice-Moves c.receipt_id) (start b) c.allocations allocated.middle
          allocated.first_loop)
        (each-Moves c.receipt_id (allocate_debit_note c.receipt_id)
          (allocate_debit_note-Moves c.receipt_id) allocated.middle c.debit_note_allocations
          allocated.final allocated.second_loop)

  after : CustomerReceipt
  after = record (allocated.receipt) {
    allocated_amount = allocated.receipt.allocated_amount +ℤ res.total_allocated;
  }

  after_found : b'.receipts c.receipt_id ≡ some after
  unfolding after
  after_found = rw (allocated.books, allocated.counted, ==_refl c.receipt_id)

  rows-execute : rows_total c.receipt_id b' ≡ rows_total c.receipt_id b +ℤ res.total_allocated
  rows-execute = rw (allocated.books, allocated.counted) (balance_lem _ _ _ whole_move.rows)

-- An accepted allocation keeps the receipt and its rows in step: the receipt's allocated amount and
-- the sum of its allocation rows both grow by exactly the total that is reported, and the receipt's
-- amount stays.
pub execute_balances :
    (c : AllocateReceiptCommand) (b b' : Books) (res : AllocationResult)
    → execute c b ≡ ok (b', res)
    → (before after : CustomerReceipt) × (b.receipts c.receipt_id ≡ some before)
      × (b'.receipts c.receipt_id ≡ some after)
      × (after.amount ≡ before.amount)
      × (after.allocated_amount ≡ before.allocated_amount +ℤ res.total_allocated)
      × (rows_total c.receipt_id b' ≡ rows_total c.receipt_id b +ℤ res.total_allocated)
unfolding after
execute_balances c b b' res done =
    let a = allocated c b b' res done in
    (
      a.receipt,
      after c b b' res done,
      a.found,
      after_found c b b' res done,
      refl,
      refl,
      rows-execute c b b' res done,
    )

-- No accepted allocation takes an invoice or a debit note beyond its grand total, if none was
-- before.
pub execute-IsWithin :
    (c : AllocateReceiptCommand) (b b' : Books) (res : AllocationResult)
    → IsWithin b
    → execute c b ≡ ok (b', res)
    → IsWithin b'
execute-IsWithin c b b' res w done =
    let a = allocated c b b' res done in
    let m : IsWithin a.middle.books =
      each_inv (λ p. IsWithin p.books) (allocate_invoice c.receipt_id)
        (allocate_invoice-IsWithin c.receipt_id) (start b) c.allocations a.middle w a.first_loop in
    let f : IsWithin a.final.books =
      each_inv (λ p. IsWithin p.books) (allocate_debit_note c.receipt_id)
        (allocate_debit_note-IsWithin c.receipt_id) a.middle c.debit_note_allocations a.final m
        a.second_loop in
    subst IsWithin (sym a.books)
      (record { invoice_within = f.invoice_within; debit_note_within = f.debit_note_within })

-- If no requested amount is negative, an accepted allocation leaves the receipt's allocated amount
-- within its amount.
pub execute_covered :
    (c : AllocateReceiptCommand) (b b' : Books) (res : AllocationResult)
    → All (λ s. pos 0 ≤ℤ s.amount) c.allocations
    → All (λ s. pos 0 ≤ℤ s.amount) c.debit_note_allocations
    → execute c b ≡ ok (b', res)
    → (after : CustomerReceipt) × (b'.receipts c.receipt_id ≡ some after)
      × (after.allocated_amount ≤ℤ after.amount)
unfolding after
execute_covered c b b' res h k done =
    let a = allocated c b b' res done in
    let limit =
      rw (positive-requested c.allocations h, positive-requested c.debit_note_allocations k) at
        (whole_move c b b' res done).at_most in
    (
      after c b b' res done,
      after_found c b b' res done,
      rw a.counted (omega (int_laws, a.covered, limit)),
    )
