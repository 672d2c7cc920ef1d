-- ===== src/Finance/Payment/Books.antt =====
-- What payments, expenses and transfers do to the balances.
use gs_erp.Base.{
  subst, ℕ, ◌≡◌, refl, sym, ap, ◌∙◌, false, some, ◌==◌, length, any, ℤ, ◌+ℤ◌, neg, ok, err, guard,
  raise_if, or_raise, >>=-eq-ok, str_eq, journal_line_invalid, does_not_exist, integrity_error,
  ok-injective, get_elem?, get_elem?-append_self, raise_if-eq-ok, str_eq_refl, any-append_self,
}
use gs_erp.Core.Money.{is_positive}
use gs_erp.Finance.Ledger.Sums.{balance}
use gs_erp.Finance.Ledger.History.{IsLedger}
use gs_erp.Finance.Posting.{post_pair, post_pair-moves, moved, swap_sides}
use gs_erp.Finance.Payment.{
  PaymentDirection, inbound, outbound, Cashbook, RecordPaymentCommand, RecordedPayment,
  posting_accounts, payment_pair, payment_row, record_payment, RecordExpenseCommand,
  RecordedExpense, is_expense, expense_pair, expense_row, record_expense,
  RecordMoneyTransferCommand, RecordedMoneyTransfer, transfer_pair, record_money_transfer,
}

-- What a payment brings into the cash account.
abbrev pub into_cash : PaymentDirection → ℤ → ℤ
into_cash inbound n = n
into_cash outbound n = neg n

into_accounts :
    (d : PaymentDirection) (cash counterparty : ℕ) (n : ℤ) (a : ℕ)
    → moved (posting_accounts d cash counterparty).0 (posting_accounts d cash counterparty).1 n a
      ≡ moved cash counterparty (into_cash d n) a
unfolding posting_accounts
into_accounts inbound cash counterparty n a = refl
into_accounts outbound cash counterparty n a = swap_sides counterparty cash n a

-- An accepted payment brings its amount into the cash account (a payment out takes it from there)
-- and takes the same from the counterparty's account, changes no other balance, keeps the ledger's
-- invariant, and adds one completed payment that refers to the entry; its reference is then used.
pub record_payment-books :
    (c again : RecordPaymentCommand) (s t : Cashbook) (r : RecordedPayment)
    → IsLedger s.ledger
    → again.spec.reference ≡ c.spec.reference
    → record_payment c s ≡ ok (t, r)
    → ((a : ℕ)
        → balance a t.ledger.entries
          ≡ balance a s.ledger.entries
            +ℤ moved c.cash_account_id c.counterparty_account_id
                (into_cash c.spec.direction c.spec.amount.amount)
                a)
      × IsLedger t.ledger
      × (get_elem? t.payments r.payment_id ≡ some (payment_row c r.journal_entry_id))
      × (record_payment again t ≡ err integrity_error)
unfolding record_payment
record_payment-books c again s t r v same h =
    let (u1, e1, h1) =
      >>=-eq-ok
        (raise_if (any (λ p. str_eq p.reference c.spec.reference) s.payments) integrity_error) _
        h in
    let (u2, e2, h2) = >>=-eq-ok (guard (is_positive c.spec.amount) integrity_error) _ h1 in
    let ((ledger, posted), e3, h3) =
      >>=-eq-ok (post_pair (payment_pair c) "finance.Payment" (some (length s.payments)) s.ledger) _
        h2 in
    let e = sym (ok-injective h3) in
    let (moves, keeps) =
      post_pair-moves (payment_pair c) "finance.Payment" (some (length s.payments)) s.ledger ledger
        posted v e3 in
    (
      λ a.
          ap (λ z. balance a z.0.ledger.entries) e
          ∙ moves a
          ∙ ap (λ x. balance a s.ledger.entries +ℤ x)
              (into_accounts c.spec.direction c.cash_account_id c.counterparty_account_id
                c.spec.amount.amount a),
      subst (λ z. IsLedger z.0.ledger) (sym e) keeps,
      subst (λ z. get_elem? z.0.payments z.1.payment_id ≡ some (payment_row c z.1.journal_entry_id))
          (sym e) (get_elem?-append_self s.payments (payment_row c posted.entry_id)),
      subst (λ z. record_payment again z.0 ≡ err integrity_error) (sym e)
          (rw
            (
              same,
              any-append_self (λ p. str_eq p.reference c.spec.reference) s.payments
                  (payment_row c posted.entry_id) (str_eq_refl c.spec.reference),
            )
            refl),
    )

-- An accepted expense moves its amount from the payment account to the expense account, which is
-- another account and one of expenses, changes no other balance and keeps the ledger's invariant.
pub record_expense-books :
    (c : RecordExpenseCommand) (s t : Cashbook) (r : RecordedExpense)
    → IsLedger s.ledger
    → record_expense c s ≡ ok (t, r)
    → ((a : ℕ)
        → balance a t.ledger.entries
          ≡ balance a s.ledger.entries
            +ℤ moved c.expense_account_id c.payment_account_id c.amount.amount a)
      × IsLedger t.ledger
      × ((c.expense_account_id == c.payment_account_id) ≡ false)
      × (get_elem? t.expenses r.expense_id ≡ some (expense_row c r.journal_entry_id))
unfolding record_expense
record_expense-books c s t r v h =
    let (u1, e1, h1) = >>=-eq-ok (guard (is_positive c.amount) journal_line_invalid) _ h in
    let (u2, e2, h2) =
      >>=-eq-ok (raise_if (c.expense_account_id == c.payment_account_id) journal_line_invalid) _
        h1 in
    let (account, e3, h3) =
      >>=-eq-ok (or_raise (s.ledger.accounts c.expense_account_id) does_not_exist) _ h2 in
    let (u4, e4, h4) =
      >>=-eq-ok (guard (is_expense account.account_type) journal_line_invalid) _ h3 in
    let (u5, e5, h5) =
      >>=-eq-ok (raise_if (any (λ x. str_eq x.reference c.reference) s.expenses) integrity_error) _
        h4 in
    let ((ledger, posted), e6, h6) =
      >>=-eq-ok (post_pair (expense_pair c) "finance.Expense" (some (length s.expenses)) s.ledger) _
        h5 in
    let e = sym (ok-injective h6) in
    let (moves, keeps) =
      post_pair-moves (expense_pair c) "finance.Expense" (some (length s.expenses)) s.ledger ledger
        posted v e6 in
    (
      λ a. ap (λ z. balance a z.0.ledger.entries) e ∙ moves a,
      subst (λ z. IsLedger z.0.ledger) (sym e) keeps,
      raise_if-eq-ok _ _ e2,
      subst (λ z. get_elem? z.0.expenses z.1.expense_id ≡ some (expense_row c z.1.journal_entry_id))
          (sym e) (get_elem?-append_self s.expenses (expense_row c posted.entry_id)),
    )

-- An accepted transfer of money moves its amount from one account to another one, changes no other
-- balance and keeps the ledger's invariant.
pub record_money_transfer-books :
    (c : RecordMoneyTransferCommand) (s t : Cashbook) (r : RecordedMoneyTransfer)
    → IsLedger s.ledger
    → record_money_transfer c s ≡ ok (t, r)
    → ((a : ℕ)
        → balance a t.ledger.entries
          ≡ balance a s.ledger.entries +ℤ moved c.to_account_id c.from_account_id c.amount.amount a)
      × IsLedger t.ledger
      × ((c.from_account_id == c.to_account_id) ≡ false)
unfolding record_money_transfer
record_money_transfer-books c s t r v h =
    let (u1, e1, h1) = >>=-eq-ok (guard (is_positive c.amount) journal_line_invalid) _ h in
    let (u2, e2, h2) =
      >>=-eq-ok (raise_if (c.from_account_id == c.to_account_id) journal_line_invalid) _ h1 in
    let (u3, e3, h3) =
      >>=-eq-ok
        (raise_if (any (λ x. str_eq x.reference c.reference) s.money_transfers) integrity_error) _
        h2 in
    let ((ledger, posted), e4, h4) =
      >>=-eq-ok
        (post_pair (transfer_pair c) "finance.MoneyTransfer" (some (length s.money_transfers))
          s.ledger)
        _ h3 in
    let e = sym (ok-injective h4) in
    let (moves, keeps) =
      post_pair-moves (transfer_pair c) "finance.MoneyTransfer" (some (length s.money_transfers))
        s.ledger ledger posted v e4 in
    (
      λ a. ap (λ z. balance a z.0.ledger.entries) e ∙ moves a,
      subst (λ z. IsLedger z.0.ledger) (sym e) keeps,
      raise_if-eq-ok _ _ e2,
    )
