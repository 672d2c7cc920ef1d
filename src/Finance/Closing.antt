-- ===== src/Finance/Closing.antt =====
-- `GenerateClosingEntries` of apps/finance/application/use_cases/generate_closing_entries.py. The
-- balances come in the order in which their accounts first occur; memos and actors are left out.
pub mod Totals
pub mod Net
pub mod Effect
pub mod Clears
pub mod Period
use gs_erp.Base.{
  ℕ, zero, ◌+◌, ◌-◌, ◌/◌, String, Bool, true, false, not, ◌&&◌, ◌||◌, Option, none, some, List, [],
  ◌∷◌, ◌++◌, if◌then◌else◌, is_empty, ℤ, pos, ◌+ℤ◌, ◌-ℤ◌, neg, ltb_ℤ, leb_ℤ, eqb_ℤ, sum, Result, ok,
  ◌>>=◌, ◌>>◌, guard, or_raise, Table, lookup, insert, total, value_or_zero, value_error, Rows,
  each, concat, str, two_digits,
}
use gs_erp.Core.Date.{Date, not_after}
use gs_erp.Core.Currency.{Currency, Unicode, make_currency}
use gs_erp.Core.Money.{Money}
use gs_erp.Finance.Journal.{
  AccountType, income, expense, equity, JournalLine, JournalEntryDraft, make_draft, debit_only,
  credit_only,
}
use gs_erp.Finance.Fiscal.{AccountingPeriod}
use gs_erp.Finance.Ledger.{
  Account, LedgerLine, JournalEntry, Ledger, PostedJournalEntry, post_journal_entry,
}
use gs_erp.Finance.Posting.{command_of}

pub record GenerateClosingEntriesCommand : Type 0 where
  pub period_id : ℕ
  pub retained_earnings_account_id : ℕ
  pub income_summary_account_id : ℕ
  pub currency_code : String

pub record ClosingEntriesResult : Type 0 where
  pub period_id : ℕ
  pub journal_entry_id : Option ℕ
  pub net_income : ℤ

abbrev pub is_income : AccountType → Bool
is_income income = true
is_income _ = false

abbrev pub is_expense : AccountType → Bool
is_expense expense = true
is_expense _ = false

abbrev pub is_equity : AccountType → Bool
is_equity equity = true
is_equity _ = false

-- `Account.objects.filter(account_type=..., is_postable=True, is_active=True)`
abbrev pub is_closing : (AccountType → Bool) → Rows Account → ℕ → Bool
is_closing kind accounts id = elim (accounts id) [
  | none ↦ false
  | some a ↦ kind a.account_type && a.is_postable && a.is_active
]

-- The entries that the filter of the lines lets through.
abbrev pub in_period : Date → Date → JournalEntry → Bool
in_period start end e = not_after start e.entry_date && not_after e.entry_date end && e.is_posted

-- One more line for a group.
abbrev pub add_line : (ℕ → Bool) → Table ℤ → LedgerLine → Table ℤ
add_line chosen t l =
    if chosen l.account_id
    then insert l.account_id (value_or_zero (lookup l.account_id t) +ℤ (l.debit -ℤ l.credit)) t
    else t

abbrev pub add_lines : (ℕ → Bool) → Table ℤ → List LedgerLine → Table ℤ
add_lines chosen t [] = t
add_lines chosen t (l ∷ ls) = add_lines chosen (add_line chosen t l) ls

abbrev pub group_lines : (ℕ → Bool) → Date → Date → Table ℤ → Table JournalEntry → Table ℤ
group_lines chosen start end t [] = t
group_lines chosen start end t ((k, e) ∷ es) =
    group_lines chosen start end (if in_period start end e then add_lines chosen t e.lines else t)
      es

-- `if net != _ZERO`
abbrev pub nonzero : Table ℤ → Table ℤ
nonzero [] = []
nonzero ((k, v) ∷ t) = if eqb_ℤ v (pos 0) then nonzero t else (k, v) ∷ nonzero t

-- `net_balance`: debit less credit of each account, where it is not zero.
unfoldable pub net_balance : (ℕ → Bool) → Date → Date → Table JournalEntry → Table ℤ
net_balance chosen start end entries = nonzero (group_lines chosen start end [] entries)

-- Step 1: a debit for each income account with a credit balance, and their sum.
unfoldable pub income_lines : Currency → Table ℤ → Result (List JournalLine × ℤ)
income_lines currency [] = ok ([], pos 0)
income_lines currency ((k, net) ∷ t) =
    let rest = income_lines currency t in
    if leb_ℤ (neg net) (pos 0) then rest else (do
      l ← debit_only k (record { amount = neg net; currency = currency })
      (ls, sum) ← rest
      ok (l ∷ ls, neg net +ℤ sum))

-- Step 2: a credit for each expense account with a debit balance, and their sum.
unfoldable pub expense_lines : Currency → Table ℤ → Result (List JournalLine × ℤ)
expense_lines currency [] = ok ([], pos 0)
expense_lines currency ((k, net) ∷ t) =
    let rest = expense_lines currency t in
    if leb_ℤ net (pos 0) then rest else (do
      l ← credit_only k (record { amount = net; currency = currency })
      (ls, sum) ← rest
      ok (l ∷ ls, net +ℤ sum))

-- The line of a total, unless it is zero.
abbrev pub credit_if_positive : ℕ → Currency → ℤ → Result (List JournalLine)
credit_if_positive account currency n =
    if ltb_ℤ (pos 0) n
    then (do l ← credit_only account (record { amount = n; currency = currency }); ok (l ∷ []))
    else ok []

abbrev pub debit_if_positive : ℕ → Currency → ℤ → Result (List JournalLine)
debit_if_positive account currency n =
    if ltb_ℤ (pos 0) n
    then (do l ← debit_only account (record { amount = n; currency = currency }); ok (l ∷ []))
    else ok []

abbrev pub two_lines : ℕ → ℕ → Money → Result (List JournalLine)
two_lines debit credit m = do x ← debit_only debit m; y ← credit_only credit m; ok (x ∷ y ∷ [])

-- Step 3: the net income goes to the retained earnings.
unfoldable pub transfer_lines : ℕ → ℕ → Currency → ℤ → Result (List JournalLine)
transfer_lines summary retained currency net_income =
    if ltb_ℤ (pos 0) net_income
    then two_lines summary retained (record { amount = net_income; currency = currency })
    else if ltb_ℤ net_income (pos 0)
    then two_lines retained summary (record { amount = neg net_income; currency = currency })
    else ok []

-- `sum(-v for ...)` less `sum(v for ...)`
unfoldable pub net_income_of : Table ℤ → Table ℤ → ℤ
net_income_of incomes expenses = neg (total incomes) -ℤ total expenses

-- The lines of the three steps.
unfoldable pub closing_lines : ℕ → ℕ → Currency → Table ℤ → Table ℤ → Result (List JournalLine)
unfolding income_lines expense_lines transfer_lines net_income_of
closing_lines summary retained currency incomes expenses = do
  (revenue, revenue_total) ← income_lines currency incomes
  revenue_line ← credit_if_positive summary currency revenue_total
  (costs, costs_total) ← expense_lines currency expenses
  costs_line ← debit_if_positive summary currency costs_total
  transfer ← transfer_lines summary retained currency (net_income_of incomes expenses)
  ok (revenue ++ (revenue_line ++ (costs ++ (costs_line ++ transfer))))

-- `f"CLOSE-{year}-{month:02d}"`
unfoldable pub closing_reference : AccountingPeriod → String
closing_reference p =
    concat "CLOSE-" (concat (str p.period_year) (concat "-" (two_digits p.period_month)))

abbrev pub closing_draft : AccountingPeriod → List JournalLine → JournalEntryDraft
closing_draft p ls = record { entry_date = p.end_date; reference = closing_reference p; lines = ls }

-- The entry, once there is something to close.
unfoldable pub post_closing :
    GenerateClosingEntriesCommand
    → AccountingPeriod
    → Currency
    → Table ℤ
    → Table ℤ
    → Ledger
    → Result (Ledger × PostedJournalEntry)
unfolding closing_lines closing_reference
post_closing c p currency incomes expenses s = do
  ls ←
      closing_lines c.income_summary_account_id c.retained_earnings_account_id currency incomes
        expenses
  draft ← make_draft (closing_draft p ls)
  post_journal_entry (command_of draft "finance.accountingperiod" (some c.period_id)) s

abbrev pub closing_result : ℕ → ℤ → Ledger × PostedJournalEntry → Ledger × ClosingEntriesResult
closing_result id net_income (ledger, posted) = (
  ledger,
  record { period_id = id; journal_entry_id = some posted.entry_id; net_income = net_income },
)

abbrev pub close_balances :
    GenerateClosingEntriesCommand
    → AccountingPeriod
    → Currency
    → Table ℤ
    → Table ℤ
    → Ledger
    → Result (Ledger × ClosingEntriesResult)
close_balances c p currency incomes expenses s =
    if is_empty incomes && is_empty expenses
    then ok (s, record { period_id = c.period_id; journal_entry_id = none; net_income = pos 0 })
    else (do
      out ← post_closing c p currency incomes expenses s
      ok (closing_result c.period_id (net_income_of incomes expenses) out))

-- `GenerateClosingEntries.execute`
unfoldable pub generate_closing_entries :
    Unicode → GenerateClosingEntriesCommand → Ledger → Result (Ledger × ClosingEntriesResult)
unfolding net_balance post_closing
generate_closing_entries u c s = do
  period ← or_raise (lookup c.period_id s.calendar.periods) value_error
  retained ← or_raise (s.accounts c.retained_earnings_account_id) value_error
  guard (is_equity retained.account_type) value_error
  summary ← or_raise (s.accounts c.income_summary_account_id) value_error
  guard (is_equity summary.account_type || is_income summary.account_type) value_error
  currency ← make_currency u c.currency_code (pos 2)
  close_balances c period currency
      (net_balance (is_closing is_income s.accounts) period.start_date period.end_date s.entries)
      (net_balance (is_closing is_expense s.accounts) period.start_date period.end_date s.entries) s
