-- ===== src/Finance/Journal.antt =====
-- apps/finance/domain/entities.py: account types, journal lines and unposted journal entries. Memos
-- are left out, and an entry's date is kept by the ledger's operations.
use gs_erp.Base.{
  ℕ, ◌≤◌, ◌<◌, String, ◌≡◌, ◌⊎◌, Bool, true, false, not, ◌||◌, List, [], ◌∷◌, arith, ltb, ◌==◌,
  length, all, ℤ, pos, ◌+ℤ◌, ◌<ℤ◌, eqb_ℤ, eqb_ℤ_iff, Result, ok, ◌>>◌, guard, raise_if,
  journal_not_balanced, empty_journal_entry, journal_currency_mixed, journal_line_invalid,
  invalid_debit_credit, eqb,
}
use gs_erp.Core.Date.{Date}
use gs_erp.Core.Currency.{Currency, same_currency, same_currency_iff}
use gs_erp.Core.Money.{Money, money_zero, is_positive, is_negative}

pub data AccountType : Type 0 where
  asset liability equity income expense : AccountType

unfoldable pub is_debit_normal : AccountType → Bool
is_debit_normal asset = true
is_debit_normal expense = true
is_debit_normal _ = false

unfoldable pub is_credit_normal : AccountType → Bool
unfolding is_debit_normal
is_credit_normal a = not (is_debit_normal a)

pub record JournalLine : Type 0 where
  pub account_id : ℕ
  pub debit : Money
  pub credit : Money

-- `JournalLine.__post_init__`
unfoldable pub make_line : JournalLine → Result JournalLine
make_line l = do
  raise_if (l.account_id == 0) journal_line_invalid
  guard (same_currency l.debit.currency l.credit.currency) journal_line_invalid
  raise_if (is_negative l.debit || is_negative l.credit) journal_line_invalid
  raise_if (eqb (is_positive l.debit) (is_positive l.credit)) invalid_debit_credit
  ok l

unfoldable pub debit_only : ℕ → Money → Result JournalLine
unfolding make_line
debit_only account_id amount =
    make_line
      (record { account_id = account_id; debit = amount; credit = money_zero amount.currency })

unfoldable pub credit_only : ℕ → Money → Result JournalLine
unfolding make_line
credit_only account_id amount =
    make_line
      (record { account_id = account_id; debit = money_zero amount.currency; credit = amount })

-- `JournalLine.currency`
abbrev pub currency_of : JournalLine → Currency
currency_of l = l.debit.currency

-- `JournalEntryDraft`
pub record JournalEntryDraft : Type 0 where
  pub entry_date : Date
  pub reference : String
  pub lines : List JournalLine

abbrev pub sum_debit : List JournalLine → ℤ
sum_debit [] = pos 0
sum_debit (l ∷ ls) = l.debit.amount +ℤ sum_debit ls

abbrev pub sum_credit : List JournalLine → ℤ
sum_credit [] = pos 0
sum_credit (l ∷ ls) = l.credit.amount +ℤ sum_credit ls

-- The set of the lines' currencies has one element: every one of them is the first.
abbrev pub is_one_currency : List JournalLine → Bool
is_one_currency [] = false
is_one_currency (l ∷ ls) = all (λ m. same_currency (currency_of l) (currency_of m)) ls

-- `JournalEntryDraft.__post_init__`
unfoldable pub make_draft : JournalEntryDraft → Result JournalEntryDraft
make_draft d = do
  raise_if (ltb (length d.lines) 2) empty_journal_entry
  guard (is_one_currency d.lines) journal_currency_mixed
  guard (eqb_ℤ (sum_debit d.lines) (sum_credit d.lines)) journal_not_balanced
  ok d

-- The lines of a draft: no line is negative, and each has one positive side.
pub record IsLine (l : JournalLine) : Type 0 where
  pub has_account : 0 < l.account_id
  pub same : l.debit.currency ≡ l.credit.currency
  pub one_side :
      ((pos 0 <ℤ l.debit.amount) × (l.credit.amount ≡ pos 0))
      ⊎ ((l.debit.amount ≡ pos 0) × (pos 0 <ℤ l.credit.amount))

pub make_line-IsLine : (l m : JournalLine) → make_line l ≡ ok m → (m ≡ l) × IsLine l
unfolding make_line
make_line-IsLine l m h =
    let same = same_currency_iff l.debit.currency l.credit.currency in
    (
      ground arith,
      record { has_account = ground arith; same = ground (arith, same); one_side = ground arith },
    )

-- What a draft promises.
pub record IsDraft (d : JournalEntryDraft) : Type 0 where
  pub two : 2 ≤ length d.lines
  pub one_currency : is_one_currency d.lines ≡ true
  pub balanced : sum_debit d.lines ≡ sum_credit d.lines

pub make_draft-IsDraft : (d e : JournalEntryDraft) → make_draft d ≡ ok e → (e ≡ d) × IsDraft d
unfolding make_draft
make_draft-IsDraft d e h = (
  ground arith,
  record {
    two = ground arith;
    one_currency = ground arith;
    balanced = ground (arith, eqb_ℤ_iff (sum_debit d.lines) (sum_credit d.lines));
  },
)
