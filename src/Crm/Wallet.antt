-- ===== src/Crm/Wallet.antt =====
-- `WalletOperationSpec` of apps/crm/domain/entities.py and `RecordWalletOperation` of
-- apps/crm/application/use_cases/record_wallet_operation.py, which posts through the ledger.
pub mod Books
use gs_erp.Base.{
  ℕ, ◌+◌, ◌-◌, ◌/◌, String, Bool, true, false, ◌&&◌, ◌||◌, Option, none, some, List, [], ◌∷◌, ◌++◌,
  ◌==◌, if◌then◌else◌, length, ℤ, pos, negsuc, ◌+ℤ◌, neg, ltb_ℤ, leb_ℤ, eqb_ℤ, Result, ok, ◌>>=◌,
  ◌>>◌, guard, raise_if, or_raise, is_blank, str_eq, invalid_wallet_operation, customer_not_found,
  insufficient_wallet_balance, wallet_currency_mismatch, each, concat, any, integrity_error,
}
use gs_erp.Core.Date.{Date}
use gs_erp.Core.Number.{whole}
use gs_erp.Core.Currency.{Currency}
use gs_erp.Core.Money.{Money, is_positive}
use gs_erp.Finance.Journal.{JournalEntryDraft, make_draft, debit_only, credit_only}
use gs_erp.Finance.Posting.{Pair, post_pair}
use gs_erp.Finance.Ledger.{Ledger, PostJournalEntryCommand, post_journal_entry}

pub data WalletOperation : Type 0 where
  deposit redeem refund adjustment : WalletOperation

abbrev pub is_adjustment : WalletOperation → Bool
is_adjustment adjustment = true
is_adjustment _ = false

pub record WalletOperationSpec : Type 0 where
  pub customer_id : ℕ
  pub operation : WalletOperation
  pub amount : Money
  pub reference : String
  pub signed_for_adjustment : ℤ

-- `WalletOperationSpec.__post_init__`
unfoldable pub make_operation : WalletOperationSpec → Result WalletOperationSpec
make_operation w = do
  raise_if (w.customer_id == 0) invalid_wallet_operation
  guard (is_positive w.amount) invalid_wallet_operation
  raise_if (is_blank w.reference) invalid_wallet_operation
  guard
      (if is_adjustment w.operation
        then eqb_ℤ w.signed_for_adjustment (negsuc 0) || eqb_ℤ w.signed_for_adjustment (pos 1)
        else eqb_ℤ w.signed_for_adjustment (pos 0))
      invalid_wallet_operation
  ok w

-- `balance_delta_sign`
unfoldable pub balance_delta_sign : WalletOperationSpec → ℤ
balance_delta_sign w = elim w.operation [
  | deposit ↦ pos 1
  | redeem ↦ negsuc 0
  | refund ↦ pos 1
  | adjustment ↦ w.signed_for_adjustment
]

-- `delta`: the amount with the sign of the operation.
unfoldable pub wallet_delta : WalletOperationSpec → ℤ
unfolding balance_delta_sign
wallet_delta w =
    if leb_ℤ (pos 0) (balance_delta_sign w) then w.amount.amount else neg w.amount.amount

pub record CustomerWallet : Type 0 where
  pub currency_code : String
  pub balance : ℤ
  pub liability_account_id : ℕ

pub record WalletTransaction : Type 0 where
  pub customer_id : ℕ
  pub operation : WalletOperation
  pub amount : ℤ
  pub currency_code : String
  pub signed_delta : ℤ
  pub reference : String
  pub journal_entry_id : ℕ
  pub source_type : String
  pub source_id : Option ℕ

-- A customer has one wallet in a currency.
pub record Crm : Type 0 where
  pub active_customers : ℕ → Bool
  pub wallets : ℕ → String → Option CustomerWallet
  pub transactions : List WalletTransaction
  pub ledger : Ledger

pub record RecordWalletOperationCommand : Type 0 where
  pub spec : WalletOperationSpec
  pub entry_date : Date
  pub counterparty_account_id : ℕ
  pub source_type : String
  pub source_id : Option ℕ

pub record RecordedWalletOperation : Type 0 where
  pub wallet_transaction_id : ℕ
  pub journal_entry_id : ℕ
  pub new_balance : ℤ

-- `_posting_accounts`: the account to debit and the account to credit.
unfoldable pub posting_accounts : ℤ → ℕ → ℕ → ℕ × ℕ
posting_accounts sign wallet counterparty =
    if leb_ℤ (pos 0) sign then (counterparty, wallet) else (wallet, counterparty)

-- The constraint that a wallet's references are unique.
abbrev pub is_recorded : ℕ → String → String → List WalletTransaction → Bool
is_recorded customer code reference transactions =
    any
      (λ t.
        t.customer_id == customer && str_eq t.currency_code code && str_eq t.reference reference)
      transactions

abbrev pub put_wallet :
    ℕ
    → String
    → CustomerWallet
    → (ℕ → String → Option CustomerWallet)
    → ℕ
    → String
    → Option CustomerWallet
put_wallet customer code w wallets c k =
    if c == customer && str_eq k code then some w else wallets c k

-- The draft of an operation: one line on each of the two accounts.
unfoldable pub wallet_pair : RecordWalletOperationCommand → CustomerWallet → Pair
unfolding balance_delta_sign posting_accounts
wallet_pair c wallet =
    let accounts =
      posting_accounts (balance_delta_sign c.spec) wallet.liability_account_id
        c.counterparty_account_id in
    record {
      entry_date = c.entry_date;
      reference = concat "WAL-" c.spec.reference;
      debit_account = accounts.0;
      credit_account = accounts.1;
      amount = c.spec.amount;
    }

-- `RecordWalletOperation.execute`
unfoldable pub record_wallet_operation :
    RecordWalletOperationCommand → Crm → Result (Crm × RecordedWalletOperation)
record_wallet_operation c s = do
  let spec = c.spec
  let code = spec.amount.currency.code
  guard (s.active_customers spec.customer_id) customer_not_found
  wallet ← or_raise (s.wallets spec.customer_id code) customer_not_found
  guard (str_eq wallet.currency_code code) wallet_currency_mismatch
  let new_balance = wallet.balance +ℤ wallet_delta spec
  raise_if (ltb_ℤ new_balance (pos 0)) insufficient_wallet_balance
  (ledger, posted) ← post_pair (wallet_pair c wallet) "crm.CustomerWalletTransaction" none s.ledger
  raise_if (is_recorded spec.customer_id code spec.reference s.transactions) integrity_error
  ok (
    record s {
      transactions =
          s.transactions
          ++ record {
            customer_id = spec.customer_id;
            operation = spec.operation;
            amount = spec.amount.amount;
            currency_code = code;
            signed_delta = wallet_delta spec;
            reference = spec.reference;
            journal_entry_id = posted.entry_id;
            source_type = c.source_type;
            source_id = c.source_id;
          }
            ∷ [];
      wallets =
          put_wallet spec.customer_id code (record wallet { balance = new_balance }) s.wallets;
      ledger = ledger;
    },
    record {
      wallet_transaction_id = length s.transactions;
      journal_entry_id = posted.entry_id;
      new_balance = new_balance;
    },
  )
