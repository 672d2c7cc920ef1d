-- ===== src/Crm/Tests.antt =====
-- Wallets at concrete inputs.
use gs_erp.Base.{
  value_of, ◌+◌, ◌-◌, ◌≤◌, ◌≡◌, refl, true, ◌&&◌, none, some, [], arith, ◌==◌, if◌then◌else◌, pos,
  ◌+ℤ◌, neg, ◌≤ℤ◌, Result, ok, err, str_eq, negsuc,
}
use gs_erp.Core.Currency.{Currency}
use gs_erp.Finance.Journal.{AccountType}
use gs_erp.Finance.Ledger.{Ledger}
use gs_erp.Finance.Ledger.Sums.{balance}
use gs_erp.Crm.Wallet.{
  WalletOperation, WalletOperationSpec, RecordWalletOperationCommand, RecordedWalletOperation,
  CustomerWallet, Crm, wallet_delta, make_operation, record_wallet_operation,
}
use gs_erp.Finance.Ledger.History.{IsLedger}
use gs_erp.Crm.Wallet.{make_operation}
use gs_erp.Crm.Wallet.Books.{logged, record_wallet_operation_in_step}

abbrev sar : Currency
sar = record { code = "SAR"; minor_units = 2 }

-- A redemption of 30 from a wallet of 100.
abbrev command : RecordWalletOperationCommand
command = record {
  spec = record {
    customer_id = 1;
    operation = WalletOperation.redeem;
    amount = record { amount = pos 300000; currency = sar };
    reference = "W-1";
    signed_for_adjustment = pos 0;
  };
  entry_date = record { year = 2026; month = 6; day = 15 };
  counterparty_account_id = 2;
  source_type = "";
  source_id = none;
}

spec_made : make_operation command.spec ≡ ok command.spec
unfolding make_operation gs_erp.Base.is_blank
spec_made = refl

abbrev wallet : CustomerWallet
wallet = record { currency_code = "SAR"; balance = pos 1000000; liability_account_id = 1 }

abbrev books : Ledger
books = record {
  accounts =
      λ a. some (record { account_type = AccountType.asset; is_active = true; is_postable = true });
  calendar = record { fiscal_years = []; periods = []; next_period = 1 };
  entries = [];
  next_pk = 1;
}

abbrev crm : Crm
crm = record {
  active_customers = λ c. c == 1;
  wallets = λ c k. if c == 1 && str_eq k "SAR" then some wallet else none;
  transactions = [];
  ledger = books;
}

abbrev no_operation : RecordedWalletOperation
no_operation = record { wallet_transaction_id = 0; journal_entry_id = 0; new_balance = pos 0 }

unfoldable redeemed : Crm × RecordedWalletOperation
unfolding record_wallet_operation
redeemed = value_of (crm, no_operation) (record_wallet_operation command crm)

redeemed_done : record_wallet_operation command crm ≡ ok (redeemed.0, redeemed.1)
unfolding redeemed ◌+ℤ◌ wallet_delta gs_erp.Crm.Wallet.wallet_pair gs_erp.Finance.Posting.post_pair
    gs_erp.Finance.Posting.pair_draft gs_erp.Finance.Journal.debit_only
    gs_erp.Finance.Journal.credit_only gs_erp.Finance.Journal.make_draft
    gs_erp.Finance.Ledger.post_journal_entry gs_erp.Finance.Fiscal.assert_period_open
redeemed_done = refl

redeemed_rest : redeemed.1.new_balance ≡ pos 700000
unfolding redeemed ◌+ℤ◌ wallet_delta gs_erp.Crm.Wallet.wallet_pair gs_erp.Finance.Posting.post_pair
    gs_erp.Finance.Posting.pair_draft gs_erp.Finance.Journal.debit_only
    gs_erp.Finance.Journal.credit_only gs_erp.Finance.Journal.make_draft
    gs_erp.Finance.Ledger.post_journal_entry gs_erp.Finance.Fiscal.assert_period_open
redeemed_rest = refl

books-IsLedger : IsLedger crm.ledger
books-IsLedger = record { fresh = λ k h. refl; sound = tt }

command_made : make_operation command.spec ≡ ok command.spec
unfolding make_operation gs_erp.Base.is_blank
command_made = refl

-- 30 of 100 are redeemed.
record_wallet_operation_in_step_example :
    (after : CustomerWallet) × (redeemed.0.wallets 1 "SAR" ≡ some after)
    × (after.balance ≡ pos 1000000 +ℤ negsuc 299999)
    × (redeemed.1.new_balance ≡ after.balance)
    × (pos 0 ≤ℤ after.balance)
    × (logged 1 "SAR" redeemed.0.transactions ≡ logged 1 "SAR" crm.transactions +ℤ negsuc 299999)
    × (balance 1 redeemed.0.ledger.entries ≡ balance 1 crm.ledger.entries +ℤ pos 300000)
    × IsLedger redeemed.0.ledger
record_wallet_operation_in_step_example =
    record_wallet_operation_in_step command crm redeemed.0 redeemed.1 wallet books-IsLedger
      command_made refl (omega arith) redeemed_done
