-- ===== src/Treasury/Transfers.antt =====
-- Internal transfers: `PostTreasuryTransfer` and `ReverseTreasuryTransfer` of
-- apps/treasury/application/use_cases.
pub mod Moves
pub mod Undo
use gs_erp.Base.{
  ℕ, ◌-◌, ◌/◌, String, Option, some, ◌==◌, ℤ, pos, neg, Result, ok, ◌>>=◌, ◌>>◌, guard, raise_if,
  or_raise, does_not_exist, Rows, update, concat, str, treasury_not_found, treasury_already_posted,
  treasury_already_reversed, self_transfer,
}
use gs_erp.Core.Date.{Date}
use gs_erp.Core.Currency.{Currency, Unicode, make_currency}
use gs_erp.Finance.Fiscal.{assert_period_open, find_open_period_id}
use gs_erp.Finance.Ledger.{Ledger}
use gs_erp.Finance.Posting.{Pair, post_pair, post_credit_first}
use gs_erp.Treasury.{
  posted, reversed, TreasuryTransfer, Treasury, is_draft, is_posted, find_party, add_balance,
  resolve, document_number,
}

pub record PostedTreasuryTransfer : Type 0 where
  pub transfer_id : ℕ
  pub transfer_number : String
  pub journal_entry_id : ℕ

pub record ReversedTreasuryTransfer : Type 0 where
  pub transfer_id : ℕ
  pub transfer_number : String
  pub reversal_journal_entry_id : ℕ

unfoldable pub transfer_pair : Currency → ℕ → ℕ → ℕ → TreasuryTransfer → Pair
transfer_pair currency id source destination x = record {
  entry_date = x.transfer_date;
  reference = concat "XFER-" (str id);
  debit_account = destination;
  credit_account = source;
  amount = record { amount = x.amount; currency = currency };
}

abbrev pub posted_transfer : ℕ → Option ℕ → ℕ → TreasuryTransfer → TreasuryTransfer
posted_transfer id period entry x = record x {
  status = posted;
  transfer_number = document_number "XFER" x.transfer_date id;
  journal_entry_id = some entry;
  fiscal_period_id = period;
}

-- What the source and then the destination gain.
abbrev pub add_balances : TreasuryTransfer → ℤ → ℤ → Treasury → Treasury
add_balances x d e s = add_balance x.destination e (add_balance x.source d s)

abbrev pub write_transfer : Ledger → Rows TreasuryTransfer → Treasury → Treasury
write_transfer ledger rows s = record s { ledger = ledger; transfers = rows }

-- `PostTreasuryTransfer.execute`
unfoldable pub post_treasury_transfer :
    Unicode → ℕ → Treasury → Result (Treasury × PostedTreasuryTransfer)
unfolding transfer_pair
post_treasury_transfer u id s = do
  x ← or_raise (s.transfers id) treasury_not_found
  guard (is_draft x.status) treasury_already_posted
  source ← resolve x.source s
  destination ← resolve x.destination s
  raise_if (source.gl_account_id == destination.gl_account_id) self_transfer
  assert_period_open x.transfer_date s.ledger.calendar
  currency ← make_currency u x.currency_code (pos 2)
  (ledger, entry) ←
      post_pair (transfer_pair currency id source.gl_account_id destination.gl_account_id x)
        "treasury_transfer" (some id) s.ledger
  let period = find_open_period_id x.transfer_date s.ledger.calendar.periods
  ok (
    add_balances x (neg x.amount) x.amount (
        write_transfer ledger (update id (posted_transfer id period entry.entry_id x) s.transfers)
          s),
    record {
      transfer_id = id;
      transfer_number = document_number "XFER" x.transfer_date id;
      journal_entry_id = entry.entry_id;
    },
  )

unfoldable pub transfer_reversal_pair : Currency → ℕ → Date → ℕ → ℕ → TreasuryTransfer → Pair
transfer_reversal_pair currency id today source destination x = record {
  entry_date = today;
  reference = concat "REV-XFER-" (str id);
  debit_account = source;
  credit_account = destination;
  amount = record { amount = x.amount; currency = currency };
}

-- `ReverseTreasuryTransfer.execute`. The lines come with the credit first.
unfoldable pub reverse_treasury_transfer :
    Unicode → ℕ → Date → Treasury → Result (Treasury × ReversedTreasuryTransfer)
unfolding transfer_reversal_pair
reverse_treasury_transfer u id today s = do
  x ← or_raise (s.transfers id) treasury_not_found
  guard (is_posted x.status) treasury_already_reversed
  source ← or_raise (find_party x.source s) does_not_exist
  destination ← or_raise (find_party x.destination s) does_not_exist
  assert_period_open today s.ledger.calendar
  currency ← make_currency u x.currency_code (pos 2)
  (ledger, entry) ←
      post_credit_first
        (transfer_reversal_pair currency id today source.gl_account_id destination.gl_account_id x)
        "treasury_transfer_reversal" (some id) s.ledger
  ok (
    add_balances x x.amount (neg x.amount)
        (write_transfer ledger (update id (record x { status = reversed }) s.transfers) s),
    record {
      transfer_id = id;
      transfer_number = x.transfer_number;
      reversal_journal_entry_id = entry.entry_id;
    },
  )
