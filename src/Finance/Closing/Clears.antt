-- ===== src/Finance/Closing/Clears.antt =====
-- A closing takes the accounts of income and expenses to zero over its period.
use gs_erp.Base.{
  subst, ℕ, zero, suc, ◌≡◌, refl, sym, ap, ◌∙◌, ◌≢◌, ◌⊎◌, inl, inr, Bool, true, false, ◌&&◌, some,
  arith, ◌==◌, Bool-cases, Option-cases, ℤ, pos, negsuc, ◌+ℤ◌, neg, ◌≤ℤ◌, int_laws, +ℤ_zero, ok,
  lookup, Rows,
}
use gs_erp.Core.Currency.{Unicode}
use gs_erp.Finance.Journal.{AccountType}
use gs_erp.Finance.Fiscal.{AccountingPeriod}
use gs_erp.Finance.Ledger.{Account, Ledger}
use gs_erp.Finance.Ledger.Sums.{balance}
use gs_erp.Finance.Ledger.History.{IsLedger}
use gs_erp.Finance.Closing.{
  GenerateClosingEntriesCommand, ClosingEntriesResult, is_income, is_expense, is_closing,
  generate_closing_entries,
}
use gs_erp.Finance.Closing.Totals.{
  period_sum, net_balance-period_sum, net_balance-other, net_balance-IsOnce,
}
use gs_erp.Finance.Closing.Net.{is_credit, is_debit, closed_at}
use gs_erp.Finance.Closing.Effect.{
  closed_whole, expenses_of, generate_closing_entries-adds, incomes_of,
}

-- An account that a closing takes to zero: an income account with no debit balance over the period,
-- or an expense account with no credit balance.
abbrev pub IsNormal : Ledger → AccountingPeriod → ℕ → Type 0
IsNormal s p a =
    ((is_closing is_income s.accounts a ≡ true)
      × (period_sum p.start_date p.end_date a s.entries ≤ℤ pos 0))
    ⊎ ((is_closing is_expense s.accounts a ≡ true)
        × (pos 0 ≤ℤ period_sum p.start_date p.end_date a s.entries))

one_kind :
    (accounts : Rows Account) (a : ℕ)
    → ((is_closing is_income accounts a && is_closing is_expense accounts a) ≡ false)
one_kind accounts a = elim (Option-cases (accounts a)) [
  | inl none_there ↦ rw (is_closing, none_there) refl
  | inr (x, there) ↦ rw (is_closing, there) (apart x.account_type x.is_postable x.is_active)
]
  where
    apart :
        (k : AccountType) (b c : Bool) → (is_income k && b && c && (is_expense k && b && c)) ≡ false
    apart AccountType.asset b c = refl
    apart AccountType.liability b c = refl
    apart AccountType.equity b c = refl
    apart AccountType.income b c = ground arith
    apart AccountType.expense b c = refl

credit_of : (n : ℤ) → n ≤ℤ pos 0 → (is_credit n ≡ true) ⊎ (n ≡ pos 0)
credit_of (pos zero) h = inr refl
credit_of (pos (suc n)) h = absurd (omega arith)
credit_of (negsuc n) h = inl (ground arith)

debit_of : (n : ℤ) → pos 0 ≤ℤ n → (is_debit n ≡ true) ⊎ (n ≡ pos 0)
debit_of (pos zero) h = inr refl
debit_of (pos (suc n)) h = inl (ground arith)
debit_of (negsuc n) h = absurd (omega arith)

-- For such an account the two tables close its balance over the period.
closed_period :
    (s : Ledger) (p : AccountingPeriod) (a : ℕ)
    → IsNormal s p a
    → closed_at is_credit a (incomes_of s p) +ℤ closed_at is_debit a (expenses_of s p)
      ≡ neg (period_sum p.start_date p.end_date a s.entries)
closed_period s p a (inl (income_kind, low)) =
    let once =
      net_balance-IsOnce (is_closing is_income s.accounts) p.start_date p.end_date s.entries in
    let once' =
      net_balance-IsOnce (is_closing is_expense s.accounts) p.start_date p.end_date s.entries in
    let own =
      net_balance-period_sum (is_closing is_income s.accounts) p.start_date p.end_date a s.entries
        income_kind in
    let no_expense : is_closing is_expense s.accounts a ≡ false =
      rw income_kind at (one_kind s.accounts a) in
    let other =
      net_balance-other (is_closing is_expense s.accounts) p.start_date p.end_date a s.entries
        no_expense in
    let whole =
      closed_whole is_credit a (incomes_of s p) once
        (subst (λ x. (is_credit x ≡ true) ⊎ (x ≡ pos 0)) (sym own) (credit_of _ low)) in
    let rest = closed_whole is_debit a (expenses_of s p) once' (inr other) in
    rw (whole, rest, own, other) (+ℤ_zero _)
closed_period s p a (inr (expense_kind, high)) =
    let once =
      net_balance-IsOnce (is_closing is_income s.accounts) p.start_date p.end_date s.entries in
    let once' =
      net_balance-IsOnce (is_closing is_expense s.accounts) p.start_date p.end_date s.entries in
    let own =
      net_balance-period_sum (is_closing is_expense s.accounts) p.start_date p.end_date a s.entries
        expense_kind in
    let no_income : is_closing is_income s.accounts a ≡ false =
      elim (Bool-cases (is_closing is_income s.accounts a)) [
        | inl both ↦ cc (rw (both, expense_kind) at (one_kind s.accounts a))
        | inr no_one ↦ no_one
      ] in
    let other =
      net_balance-other (is_closing is_income s.accounts) p.start_date p.end_date a s.entries
        no_income in
    let whole =
      closed_whole is_debit a (expenses_of s p) once'
        (subst (λ x. (is_debit x ≡ true) ⊎ (x ≡ pos 0)) (sym own) (debit_of _ high)) in
    let rest = closed_whole is_credit a (incomes_of s p) once (inr other) in
    rw (whole, rest, own, other) (zero_left _)
  where
    zero_left : (x : ℤ) → neg (pos 0) +ℤ x ≡ x
    zero_left x = omega int_laws

-- A closing takes an income account with no debit balance over the period, and an expense account
-- with no credit balance, to zero over the period: its balance falls by the sum of the period's
-- posted lines on it, when it is neither the income summary nor the retained earnings.
pub generate_closing_entries-clears :
    (u : Unicode) (c : GenerateClosingEntriesCommand) (p : AccountingPeriod) (s t : Ledger)
    (r : ClosingEntriesResult) (a : ℕ)
    → IsLedger s
    → lookup c.period_id s.calendar.periods ≡ some p
    → IsNormal s p a
    → c.income_summary_account_id ≢ a
    → c.retained_earnings_account_id ≢ a
    → generate_closing_entries u c s ≡ ok (t, r)
    → balance a t.entries
      ≡ balance a s.entries +ℤ neg (period_sum p.start_date p.end_date a s.entries)
generate_closing_entries-clears u c p s t r a v found normal apart aside h =
    let (adds, _) = generate_closing_entries-adds u c p s t r v found h in
    let no_summary : (c.income_summary_account_id == a) ≡ false = ground arith in
    let no_retained : (c.retained_earnings_account_id == a) ≡ false = ground arith in
    adds a
    ∙ ap (λ x. balance a s.entries +ℤ x)
        (rw (no_summary, no_retained) (+ℤ_zero _ ∙ +ℤ_zero _ ∙ closed_period s p a normal))
