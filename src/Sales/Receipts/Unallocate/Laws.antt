-- ===== src/Sales/Receipts/Unallocate/Laws.antt =====
-- Releasing allocations keeps a receipt and its rows in step, and undoes an allocation.
use gs_erp.Base.{
  max_ℤ_of_le, ℕ, ◌≡◌, ◌∙◌, inl, inr, some, [], ◌∷◌, arith, ◌==◌, Bool-cases, All, ℤ, pos, ◌+ℤ◌,
  ◌≤ℤ◌, int_laws, ok, or_raise, >>=-eq-ok, Table, lookup, erase, total, value_or_zero, total-erase,
  account_not_found, does_not_exist, max_ℤ, ◌-ℤ◌, update, raise_if, is_empty, guard,
  journal_already_posted, each, each_inv, +ℤ_zero, subst, ok-injective, sym, ap, ==_refl, refl,
}
use gs_erp.Sales.Receipts.Books.{CustomerReceipt, Books, rows_total}
use gs_erp.Sales.Receipts.Allocate.{is_posted}
use gs_erp.Sales.Receipts.Unallocate.{
  UnallocateReceiptCommand, UnallocateReceiptResult, Release, release_invoice, finish, execute,
}

-- The rows of the receipt are not negative (a check constraint of the tables).
abbrev pub NonNegative : Table ℤ → Type 0
NonNegative = All (λ e. pos 0 ≤ℤ e.1)

erase-NonNegative : (k : ℕ) (t : Table ℤ) → NonNegative t → NonNegative (erase k t)
erase-NonNegative k [] h = h
erase-NonNegative k (e ∷ t) h = elim (Bool-cases (e.0 == k)) [
  | inl here ↦ rw here h.1
  | inr there ↦ rw there (h.0, erase-NonNegative k t h.1)
]

total_nonneg : (t : Table ℤ) → NonNegative t → pos 0 ≤ℤ total t
total_nonneg [] h = omega arith
total_nonneg (e ∷ t) h = omega (int_laws, h.0, total_nonneg t h.1)

-- A receipt that agrees with its rows.
pub record InStep (r : ℕ) (b : Books) (receipt : CustomerReceipt) : Type 0 where
  pub found : b.receipts r ≡ some receipt
  pub counted : receipt.allocated_amount ≡ rows_total r b
  pub rows_nonneg : NonNegative (b.allocations r)
  pub debit_rows_nonneg : NonNegative (b.debit_allocations r)

-- The invariant of the loop: what was released has left the rows.
record Released (r : ℕ) (b : Books) (p : Release) : Type 0 where
  rows : rows_total r p.books +ℤ p.total_released ≡ rows_total r b
  rows_nonneg : NonNegative (p.books.allocations r)
  debit_rows : p.books.debit_allocations r ≡ b.debit_allocations r

release_lem : (e v t d n : ℤ) → e +ℤ v ≡ t → e +ℤ d +ℤ (n +ℤ v) ≡ t +ℤ d +ℤ n
release_lem e v t d n h = rw (← h) (omega int_laws)

release_invoice-Released :
    (r : ℕ) (b : Books) (p : Release) (i : ℕ) (q : Release)
    → Released r b p
    → release_invoice r p i ≡ ok q
    → Released r b q
unfolding release_invoice
release_invoice-Released r b p i q h e =
    let (released, e1, h1) =
      >>=-eq-ok (or_raise (lookup i (p.books.allocations r)) account_not_found) _ e in
    let (inv, e2, h2) = >>=-eq-ok (or_raise (p.books.invoices i) does_not_exist) _ h1 in
    let ea : q.books.allocations r ≡ erase i (p.books.allocations r) = ground arith in
    let ed : q.books.debit_allocations r ≡ p.books.debit_allocations r = ground arith in
    let et : q.total_released ≡ p.total_released +ℤ released = ground arith in
    let el : value_or_zero (lookup i (p.books.allocations r)) ≡ released = ground arith in
    let gone = rw el at (total-erase i (p.books.allocations r)) in
    record {
      rows = rw (ea, ed, et) (release_lem _ _ _ _ _ gone ∙ h.rows);
      rows_nonneg = rw ea (erase-NonNegative i (p.books.allocations r) h.rows_nonneg);
      debit_rows = ed ∙ h.debit_rows;
    }

in_step_lem : (a t d n w : ℤ) → a ≡ w → t +ℤ d +ℤ n ≡ w → a -ℤ n ≡ t +ℤ d
in_step_lem a t d n w h k = rw (h, ← k) (omega int_laws)

-- An accepted release, taken apart.
record Freed (c : UnallocateReceiptCommand) (b b' : Books) (res : UnallocateReceiptResult)
    : Type 0 where
  receipt : CustomerReceipt
  found : b.receipts c.receipt_id ≡ some receipt
  final : Release
  loop :
      each
        (release_invoice c.receipt_id)
        (record { books = b; total_released = pos 0; invoices_updated = [] })
        c.invoice_ids
      ≡ ok final
  end : finish c.receipt_id receipt final ≡ (b', res)

execute-Freed :
    (c : UnallocateReceiptCommand) (b b' : Books) (res : UnallocateReceiptResult)
    → execute c b ≡ ok (b', res)
    → Freed c b b' res
unfolding execute
execute-Freed c b b' res h =
    let r = c.receipt_id in
    let begin : Release = record { books = b; total_released = pos 0; invoices_updated = [] } in
    let (u1, e1, h1) = >>=-eq-ok (raise_if (is_empty c.invoice_ids) account_not_found) _ h in
    let (row, e2, h2) = >>=-eq-ok (or_raise (b.receipts r) account_not_found) _ h1 in
    let (u3, e3, h3) = >>=-eq-ok (guard (is_posted row.status) journal_already_posted) _ h2 in
    let (p, e4, h4) = >>=-eq-ok (each (release_invoice r) begin c.invoice_ids) _ h3 in
    record { receipt = row; found = ground arith; final = p; loop = e4; end = ok-injective h4 }

-- An accepted release leaves a receipt in step with its rows: its allocated amount falls by the
-- total that is reported, which is what its rows lose.
pub execute-InStep :
    (c : UnallocateReceiptCommand) (b b' : Books) (res : UnallocateReceiptResult)
    (receipt : CustomerReceipt)
    → InStep c.receipt_id b receipt
    → execute c b ≡ ok (b', res)
    → (after : CustomerReceipt) × InStep c.receipt_id b' after
      × (after.allocated_amount ≡ receipt.allocated_amount -ℤ res.total_released)
      × (rows_total c.receipt_id b' +ℤ res.total_released ≡ rows_total c.receipt_id b)
execute-InStep c b b' res receipt s h =
    let r = c.receipt_id in
    let f = execute-Freed c b b' res h in
    let p = f.final in
    let done : Released r b p =
      each_inv (Released r b) (release_invoice r) (release_invoice-Released r b) _ c.invoice_ids p
        (record { rows = +ℤ_zero _; rows_nonneg = s.rows_nonneg; debit_rows = refl }) f.loop in
    let same : f.receipt ≡ receipt = cc (f.found, s.found) in
    let left : receipt.allocated_amount -ℤ p.total_released ≡ rows_total r p.books =
      in_step_lem _ _ _ _ _ s.counted done.rows in
    let debit : NonNegative (p.books.debit_allocations r) =
      rw done.debit_rows s.debit_rows_nonneg in
    let kept : pos 0 ≤ℤ rows_total r p.books =
      omega (int_laws, total_nonneg _ done.rows_nonneg, total_nonneg _ debit) in
    let rest : ℤ = receipt.allocated_amount -ℤ p.total_released in
    let exact : max_ℤ rest (pos 0) ≡ rest = max_ℤ_of_le rest (pos 0) (rw left kept) in
    let after : CustomerReceipt = record receipt { allocated_amount = rest } in
    let end : finish r receipt p ≡ (b', res) = subst (λ k. finish r k p ≡ (b', res)) same f.end in
    let books : b' ≡ record (p.books) { receipts = update r after p.books.receipts } =
      sym (ap (λ x. x.0) end) ∙ rw exact in
    let released : res.total_released ≡ p.total_released = sym (ap (λ x. x.1.total_released) end) in
    (
      after,
      record {
        found = rw (books, ==_refl r);
        counted = rw books left;
        rows_nonneg = rw books done.rows_nonneg;
        debit_rows_nonneg = rw books debit;
      },
      rw released,
      rw (books, released) done.rows,
    )
