-- ===== src/Finance/Payment.antt =====
-- apps/finance/domain/payment.py, and `RecordPayment`, `RecordExpense` and `RecordMoneyTransfer` of
-- apps/finance/application/use_cases, over the rows of apps/finance/infrastructure/models.py. The
-- details of a payment are texts; memos and descriptions are left out.
pub mod Books
use gs_erp.Base.{
  ℕ, ◌+◌, ◌-◌, ◌/◌, String, Bool, true, false, not, ◌||◌, Option, some, List, [], ◌∷◌, ◌++◌, ◌==◌,
  if◌then◌else◌, length, all, any, ℤ, Result, ok, ◌>>=◌, ◌>>◌, guard, raise_if, or_raise, is_blank,
  is_empty_text, str_eq, journal_line_invalid, does_not_exist, integrity_error, concat,
}
use gs_erp.Core.Date.{Date}
use gs_erp.Core.Money.{Money, is_positive}
use gs_erp.Finance.Journal.{AccountType, expense}
use gs_erp.Finance.Ledger.{Account, Ledger}
use gs_erp.Finance.Posting.{Pair, post_pair}

pub data PaymentMethod : Type 0 where
  cash cheque card paypal giftcard bank_transfer other : PaymentMethod

pub data PaymentDirection : Type 0 where
  inbound outbound : PaymentDirection

pub data PaymentStatus : Type 0 where
  pending completed failed refunded : PaymentStatus

abbrev pub Details : Type 0
Details = List (String × String)

-- `details.get(key)` as a condition.
abbrev pub has_detail : Details → String → Bool
has_detail [] key = false
has_detail ((k, v) ∷ details) key =
    if str_eq k key then not (is_empty_text v) else has_detail details key

-- `_REQUIRED_DETAIL_KEYS`
unfoldable pub required_detail_keys : PaymentMethod → List String
required_detail_keys cheque = "cheque_number" ∷ []
required_detail_keys card = "card_last4" ∷ []
required_detail_keys paypal = "paypal_transaction_id" ∷ []
required_detail_keys giftcard = "gift_card_code" ∷ []
required_detail_keys bank_transfer = "bank_reference" ∷ []
required_detail_keys cash = []
required_detail_keys other = []

pub record PaymentSpec : Type 0 where
  pub amount : Money
  pub method : PaymentMethod
  pub direction : PaymentDirection
  pub reference : String
  pub details : Details

-- `PaymentSpec.__post_init__`
unfoldable pub make_payment : PaymentSpec → Result PaymentSpec
unfolding required_detail_keys
make_payment p = do
  guard (is_positive p.amount) journal_line_invalid
  raise_if (is_empty_text p.reference || is_blank p.reference) journal_line_invalid
  guard (all (has_detail p.details) (required_detail_keys p.method)) journal_line_invalid
  ok p

pub record Payment : Type 0 where
  pub reference : String
  pub amount : ℤ
  pub currency_code : String
  pub method : PaymentMethod
  pub direction : PaymentDirection
  pub status : PaymentStatus
  pub details : Details
  pub source_type : String
  pub source_id : Option ℕ
  pub journal_entry_id : ℕ

pub record Expense : Type 0 where
  pub reference : String
  pub expense_date : Date
  pub category_id : ℕ
  pub expense_account_id : ℕ
  pub payment_account_id : ℕ
  pub amount : ℤ
  pub currency_code : String
  pub journal_entry_id : ℕ

pub record MoneyTransfer : Type 0 where
  pub reference : String
  pub transfer_date : Date
  pub from_account_id : ℕ
  pub to_account_id : ℕ
  pub amount : ℤ
  pub currency_code : String
  pub journal_entry_id : ℕ

-- A row's key is its place.
pub record Cashbook : Type 0 where
  pub ledger : Ledger
  pub payments : List Payment
  pub expenses : List Expense
  pub money_transfers : List MoneyTransfer

pub record RecordPaymentCommand : Type 0 where
  pub spec : PaymentSpec
  pub entry_date : Date
  pub cash_account_id : ℕ
  pub counterparty_account_id : ℕ
  pub source_type : String
  pub source_id : Option ℕ

pub record RecordedPayment : Type 0 where
  pub payment_id : ℕ
  pub journal_entry_id : ℕ
  pub reference : String
  pub amount : Money

-- `_posting_accounts`: the account to debit and the account to credit.
unfoldable pub posting_accounts : PaymentDirection → ℕ → ℕ → ℕ × ℕ
posting_accounts inbound cash_id counterparty = (cash_id, counterparty)
posting_accounts outbound cash_id counterparty = (counterparty, cash_id)

abbrev pub payment_pair : RecordPaymentCommand → Pair
payment_pair c = record {
  entry_date = c.entry_date;
  reference = concat "PMT-" c.spec.reference;
  debit_account = (posting_accounts c.spec.direction c.cash_account_id c.counterparty_account_id).0;
  credit_account =
      (posting_accounts c.spec.direction c.cash_account_id c.counterparty_account_id).1;
  amount = c.spec.amount;
}

abbrev pub payment_row : RecordPaymentCommand → ℕ → Payment
payment_row c entry = record {
  reference = c.spec.reference;
  amount = c.spec.amount.amount;
  currency_code = c.spec.amount.currency.code;
  method = c.spec.method;
  direction = c.spec.direction;
  status = completed;
  details = c.spec.details;
  source_type = c.source_type;
  source_id = c.source_id;
  journal_entry_id = entry;
}

-- `RecordPayment.execute`. A reference is unique among the payments.
unfoldable pub record_payment :
    RecordPaymentCommand → Cashbook → Result (Cashbook × RecordedPayment)
unfolding posting_accounts
record_payment c s = do
  raise_if (any (λ p. str_eq p.reference c.spec.reference) s.payments) integrity_error
  guard (is_positive c.spec.amount) integrity_error
  (ledger, posted) ←
      post_pair (payment_pair c) "finance.Payment" (some (length s.payments)) s.ledger
  ok (
    record s { ledger = ledger; payments = s.payments ++ payment_row c posted.entry_id ∷ [] },
    record {
      payment_id = length s.payments;
      journal_entry_id = posted.entry_id;
      reference = c.spec.reference;
      amount = c.spec.amount;
    },
  )

pub record RecordExpenseCommand : Type 0 where
  pub reference : String
  pub expense_date : Date
  pub category_id : ℕ
  pub expense_account_id : ℕ
  pub payment_account_id : ℕ
  pub amount : Money

pub record RecordedExpense : Type 0 where
  pub expense_id : ℕ
  pub journal_entry_id : ℕ
  pub reference : String

abbrev pub is_expense : AccountType → Bool
is_expense expense = true
is_expense _ = false

abbrev pub expense_pair : RecordExpenseCommand → Pair
expense_pair c = record {
  entry_date = c.expense_date;
  reference = concat "EXP-" c.reference;
  debit_account = c.expense_account_id;
  credit_account = c.payment_account_id;
  amount = c.amount;
}

abbrev pub expense_row : RecordExpenseCommand → ℕ → Expense
expense_row c entry = record {
  reference = c.reference;
  expense_date = c.expense_date;
  category_id = c.category_id;
  expense_account_id = c.expense_account_id;
  payment_account_id = c.payment_account_id;
  amount = c.amount.amount;
  currency_code = c.amount.currency.code;
  journal_entry_id = entry;
}

-- `RecordExpense.execute`
unfoldable pub record_expense :
    RecordExpenseCommand → Cashbook → Result (Cashbook × RecordedExpense)
record_expense c s = do
  guard (is_positive c.amount) journal_line_invalid
  raise_if (c.expense_account_id == c.payment_account_id) journal_line_invalid
  account ← or_raise (s.ledger.accounts c.expense_account_id) does_not_exist
  guard (is_expense account.account_type) journal_line_invalid
  raise_if (any (λ e. str_eq e.reference c.reference) s.expenses) integrity_error
  (ledger, posted) ←
      post_pair (expense_pair c) "finance.Expense" (some (length s.expenses)) s.ledger
  ok (
    record s { ledger = ledger; expenses = s.expenses ++ expense_row c posted.entry_id ∷ [] },
    record {
      expense_id = length s.expenses;
      journal_entry_id = posted.entry_id;
      reference = c.reference;
    },
  )

pub record RecordMoneyTransferCommand : Type 0 where
  pub reference : String
  pub transfer_date : Date
  pub from_account_id : ℕ
  pub to_account_id : ℕ
  pub amount : Money

pub record RecordedMoneyTransfer : Type 0 where
  pub transfer_id : ℕ
  pub journal_entry_id : ℕ
  pub reference : String

abbrev pub transfer_pair : RecordMoneyTransferCommand → Pair
transfer_pair c = record {
  entry_date = c.transfer_date;
  reference = concat "MT-" c.reference;
  debit_account = c.to_account_id;
  credit_account = c.from_account_id;
  amount = c.amount;
}

abbrev pub transfer_row : RecordMoneyTransferCommand → ℕ → MoneyTransfer
transfer_row c entry = record {
  reference = c.reference;
  transfer_date = c.transfer_date;
  from_account_id = c.from_account_id;
  to_account_id = c.to_account_id;
  amount = c.amount.amount;
  currency_code = c.amount.currency.code;
  journal_entry_id = entry;
}

-- `RecordMoneyTransfer.execute`
unfoldable pub record_money_transfer :
    RecordMoneyTransferCommand → Cashbook → Result (Cashbook × RecordedMoneyTransfer)
record_money_transfer c s = do
  guard (is_positive c.amount) journal_line_invalid
  raise_if (c.from_account_id == c.to_account_id) journal_line_invalid
  raise_if (any (λ t. str_eq t.reference c.reference) s.money_transfers) integrity_error
  (ledger, posted) ←
      post_pair (transfer_pair c) "finance.MoneyTransfer" (some (length s.money_transfers)) s.ledger
  ok (
    record s {
      ledger = ledger;
      money_transfers = s.money_transfers ++ transfer_row c posted.entry_id ∷ [];
    },
    record {
      transfer_id = length s.money_transfers;
      journal_entry_id = posted.entry_id;
      reference = c.reference;
    },
  )
