-- ===== src/Treasury.antt =====
-- The treasury: the tables of apps/treasury/infrastructure/models.py, and `PostTreasuryTransaction`
-- of apps/treasury/application/use_cases.
-- Cash boxes and bank accounts have the same columns here. Notes, actors and audit events are left
-- out.
pub mod Books
pub mod Reversal
pub mod Transfers
mod Tests
use gs_erp.Base.{
  ℕ, String, Bool, true, false, not, ◌&&◌, Option, none, some, [], ◌∷◌, ◌==◌, if◌then◌else◌, ℤ, pos,
  ◌+ℤ◌, neg, ltb_ℤ, Error, Result, ok, ◌>>=◌, ◌>>◌, guard, raise_if, or_raise, does_not_exist, Rows,
  update, concat, str, treasury_not_found, treasury_already_posted, treasury_already_reversed,
  invalid_treasury_party, balance_insufficient, cashbox_inactive, bank_account_inactive, six_digits,
}
use gs_erp.Core.Date.{Date}
use gs_erp.Core.Currency.{Currency, Unicode, make_currency}
use gs_erp.Finance.Journal.{
  AccountType, asset, JournalEntryDraft, make_draft, debit_only, credit_only,
}
use gs_erp.Finance.Fiscal.{assert_period_open, find_open_period_id}
use gs_erp.Finance.Ledger.{Ledger, post_journal_entry}
use gs_erp.Finance.Ledger.Sums.{balance}
use gs_erp.Finance.Posting.{Pair, post_pair, command_of}

pub data TransactionType : Type 0 where
  inflow outflow adjustment : TransactionType

pub data TreasuryStatus : Type 0 where
  draft posted reversed : TreasuryStatus

-- A row of `Cashbox` or of `BankAccount`.
pub record TreasuryParty : Type 0 where
  pub gl_account_id : ℕ
  pub opening_balance : ℤ
  pub current_balance : ℤ
  pub is_active : Bool

-- By a constraint a document names one of both, by its key.
pub data PartyKey : Type 0 where
  cashbox bank_account : ℕ → PartyKey

pub record TreasuryTransaction : Type 0 where
  pub transaction_number : String
  pub transaction_date : Date
  pub transaction_type : TransactionType
  pub party : PartyKey
  pub contra_account_id : ℕ
  pub amount : ℤ
  pub currency_code : String
  pub status : TreasuryStatus
  pub fiscal_period_id : Option ℕ
  pub journal_entry_id : Option ℕ

pub record TreasuryTransfer : Type 0 where
  pub transfer_number : String
  pub transfer_date : Date
  pub source : PartyKey
  pub destination : PartyKey
  pub amount : ℤ
  pub currency_code : String
  pub status : TreasuryStatus
  pub fiscal_period_id : Option ℕ
  pub journal_entry_id : Option ℕ

pub record Treasury : Type 0 where
  pub ledger : Ledger
  pub cashboxes : Rows TreasuryParty
  pub bank_accounts : Rows TreasuryParty
  pub transactions : Rows TreasuryTransaction
  pub transfers : Rows TreasuryTransfer

abbrev pub is_draft : TreasuryStatus → Bool
is_draft draft = true
is_draft _ = false

abbrev pub is_posted : TreasuryStatus → Bool
is_posted posted = true
is_posted _ = false

abbrev pub is_inflow : TransactionType → Bool
is_inflow inflow = true
is_inflow _ = false

abbrev pub is_asset : AccountType → Bool
is_asset asset = true
is_asset _ = false

abbrev pub find_party : PartyKey → Treasury → Option TreasuryParty
find_party (cashbox k) s = s.cashboxes k
find_party (bank_account k) s = s.bank_accounts k

abbrev pub inactive : PartyKey → Error
inactive (cashbox k) = cashbox_inactive
inactive (bank_account k) = bank_account_inactive

-- `filter(pk=...).update(current_balance=F("current_balance") + delta)`
abbrev pub moved_party : ℤ → Option TreasuryParty → Option TreasuryParty
moved_party delta none = none
moved_party delta (some p) = some (record p { current_balance = p.current_balance +ℤ delta })

abbrev pub move_row : ℕ → ℤ → Rows TreasuryParty → Rows TreasuryParty
move_row k delta rows j = if k == j then moved_party delta (rows j) else rows j

abbrev pub add_balance : PartyKey → ℤ → Treasury → Treasury
add_balance (cashbox k) delta s = record s { cashboxes = move_row k delta s.cashboxes }
add_balance (bank_account k) delta s = record s { bank_accounts = move_row k delta s.bank_accounts }

-- The rows that a transaction writes.
abbrev pub write : Ledger → Rows TreasuryTransaction → Treasury → Treasury
write ledger transactions s = record s { ledger = ledger; transactions = transactions }

-- The party, which is active and is kept on an account of assets.
unfoldable pub resolve : PartyKey → Treasury → Result TreasuryParty
resolve k s = do
  party ← or_raise (find_party k s) does_not_exist
  guard party.is_active (inactive k)
  account ← or_raise (s.ledger.accounts party.gl_account_id) does_not_exist
  guard (is_asset account.account_type) invalid_treasury_party
  ok party

-- What a transaction brings into its party.
unfoldable pub delta : TransactionType → ℤ → ℤ
delta kind amount = if is_inflow kind then amount else neg amount

-- The opening balance and the posted lines of the party's account.
abbrev pub gl_balance : TreasuryParty → Ledger → ℤ
gl_balance party ledger = party.opening_balance +ℤ balance party.gl_account_id ledger.entries

unfoldable pub transaction_accounts : TransactionType → ℕ → ℕ → ℕ × ℕ
transaction_accounts kind treasury contra =
    if is_inflow kind then (treasury, contra) else (contra, treasury)

unfoldable pub transaction_pair : Currency → ℕ → ℕ → TreasuryTransaction → Pair
unfolding transaction_accounts
transaction_pair currency id treasury txn = record {
  entry_date = txn.transaction_date;
  reference = concat "TXN-" (str id);
  debit_account = (transaction_accounts txn.transaction_type treasury txn.contra_account_id).0;
  credit_account = (transaction_accounts txn.transaction_type treasury txn.contra_account_id).1;
  amount = record { amount = txn.amount; currency = currency };
}

-- `f"{prefix}-{year}-{pk:06d}"`
unfoldable pub document_number : String → Date → ℕ → String
document_number prefix date id =
    concat prefix (concat "-" (concat (str date.year) (concat "-" (six_digits id))))

abbrev pub posted_transaction : ℕ → Option ℕ → ℕ → TreasuryTransaction → TreasuryTransaction
posted_transaction id period entry txn = record txn {
  status = posted;
  transaction_number = document_number "TXN" txn.transaction_date id;
  journal_entry_id = some entry;
  fiscal_period_id = period;
}

pub record PostedTreasuryTransaction : Type 0 where
  pub transaction_id : ℕ
  pub transaction_number : String
  pub journal_entry_id : ℕ

-- `PostTreasuryTransaction.execute`
unfoldable pub post_treasury_transaction :
    Unicode → ℕ → Treasury → Result (Treasury × PostedTreasuryTransaction)
unfolding resolve transaction_pair delta
post_treasury_transaction u id s = do
  txn ← or_raise (s.transactions id) treasury_not_found
  guard (is_draft txn.status) treasury_already_posted
  party ← resolve txn.party s
  assert_period_open txn.transaction_date s.ledger.calendar
  raise_if (not (is_inflow txn.transaction_type) && ltb_ℤ (gl_balance party s.ledger) txn.amount)
      balance_insufficient
  currency ← make_currency u txn.currency_code (pos 2)
  (ledger, entry) ←
      post_pair (transaction_pair currency id party.gl_account_id txn) "treasury_transaction"
        (some id) s.ledger
  let period = find_open_period_id txn.transaction_date s.ledger.calendar.periods
  ok (
    add_balance txn.party (delta txn.transaction_type txn.amount) (
        write ledger (update id (posted_transaction id period entry.entry_id txn) s.transactions)
          s),
    record {
      transaction_id = id;
      transaction_number = document_number "TXN" txn.transaction_date id;
      journal_entry_id = entry.entry_id;
    },
  )
