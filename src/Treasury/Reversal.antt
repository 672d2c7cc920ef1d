-- ===== src/Treasury/Reversal.antt =====
-- `ReverseTreasuryTransaction` of
-- apps/treasury/application/use_cases/reverse_treasury_transaction.py.
pub mod Undo
use gs_erp.Base.{
  ℕ, ◌-◌, ◌/◌, String, some, if◌then◌else◌, ℤ, pos, neg, Result, ok, ◌>>=◌, ◌>>◌, guard, or_raise,
  does_not_exist, update, concat, str, treasury_not_found, treasury_already_reversed,
}
use gs_erp.Core.Date.{Date}
use gs_erp.Core.Currency.{Currency, Unicode, make_currency}
use gs_erp.Finance.Fiscal.{assert_period_open}
use gs_erp.Finance.Posting.{Pair, post_credit_first}
use gs_erp.Treasury.{
  TransactionType, reversed, TreasuryTransaction, Treasury, is_posted, is_inflow, find_party,
  add_balance, write, transaction_accounts,
}

pub record ReversedTreasuryTransaction : Type 0 where
  pub transaction_id : ℕ
  pub transaction_number : String
  pub reversal_journal_entry_id : ℕ

-- The reversal debits what the transaction credited.
unfoldable pub reversal_pair : Currency → ℕ → Date → ℕ → TreasuryTransaction → Pair
unfolding transaction_accounts
reversal_pair currency id today treasury txn = record {
  entry_date = today;
  reference = concat "REV-TXN-" (str id);
  debit_account = (transaction_accounts txn.transaction_type treasury txn.contra_account_id).1;
  credit_account = (transaction_accounts txn.transaction_type treasury txn.contra_account_id).0;
  amount = record { amount = txn.amount; currency = currency };
}

unfoldable pub reversal_delta : TransactionType → ℤ → ℤ
reversal_delta kind amount = if is_inflow kind then neg amount else amount

-- `ReverseTreasuryTransaction.execute`. The lines come with the credit first.
unfoldable pub reverse_treasury_transaction :
    Unicode → ℕ → Date → Treasury → Result (Treasury × ReversedTreasuryTransaction)
unfolding reversal_pair reversal_delta
reverse_treasury_transaction u id today s = do
  txn ← or_raise (s.transactions id) treasury_not_found
  guard (is_posted txn.status) treasury_already_reversed
  party ← or_raise (find_party txn.party s) does_not_exist
  assert_period_open today s.ledger.calendar
  currency ← make_currency u txn.currency_code (pos 2)
  (ledger, entry) ←
      post_credit_first (reversal_pair currency id today party.gl_account_id txn)
        "treasury_transaction_reversal" (some id) s.ledger
  ok (
    add_balance txn.party (reversal_delta txn.transaction_type txn.amount)
        (write ledger (update id (record txn { status = reversed }) s.transactions) s),
    record {
      transaction_id = id;
      transaction_number = txn.transaction_number;
      reversal_journal_entry_id = entry.entry_id;
    },
  )
