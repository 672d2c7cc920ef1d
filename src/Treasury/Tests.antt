-- ===== src/Treasury/Tests.antt =====
-- The treasury at concrete inputs.
use gs_erp.Base.{
  ℕ, ◌+◌, ◌-◌, ◌≤◌, ◌≡◌, refl, ◌⊎◌, true, false, ◌&&◌, ◌||◌, none, some, [], arith, leb, ◌==◌,
  if◌then◌else◌, pos, ◌+ℤ◌, neg, ◌≤ℤ◌, ok, err, value_of, treasury_already_posted,
  treasury_already_reversed, balance_insufficient,
}
use gs_erp.Core.Date.{Date}
use gs_erp.Core.Currency.{Unicode, make_currency}
use gs_erp.Finance.Journal.{AccountType, make_draft}
use gs_erp.Finance.Fiscal.{assert_period_open}
use gs_erp.Finance.Ledger.{Ledger, post_journal_entry}
use gs_erp.Finance.Ledger.Sums.{balance}
use gs_erp.Finance.Ledger.History.{IsLedger}
use gs_erp.Finance.Posting.{moved, post_pair}
use gs_erp.Treasury.{
  TransactionType, TreasuryStatus, TreasuryParty, PartyKey, TreasuryTransaction, TreasuryTransfer,
  Treasury, find_party, gl_balance, is_inflow, delta, document_number, post_treasury_transaction,
  PostedTreasuryTransaction,
}
use gs_erp.Treasury.Reversal.{reverse_treasury_transaction, ReversedTreasuryTransaction}
use gs_erp.Treasury.Books.{Moved, post_treasury_transaction-books}
use gs_erp.Treasury.Reversal.Undo.{post-reverse_treasury_transaction}
use gs_erp.Treasury.Transfers.{
  post_treasury_transfer, PostedTreasuryTransfer, reverse_treasury_transfer,
  ReversedTreasuryTransfer,
}
use gs_erp.Treasury.Transfers.Moves.{shifted, post_treasury_transfer-moves}
use gs_erp.Treasury.Transfers.Undo.{post-reverse_treasury_transfer}

abbrev ascii : Unicode
ascii = record {
  is_alpha = λ c. (leb 65 c && leb c 90) || (leb 97 c && leb c 122);
  is_upper = λ c. leb 65 c && leb c 90;
  is_lower_or_title = λ c. leb 97 c && leb c 122;
}

abbrev june : Date
june = record { year = 2026; month = 6; day = 15 }

abbrev books : Ledger
books = record {
  accounts =
      λ a. some (record { account_type = AccountType.asset; is_active = true; is_postable = true });
  calendar = record { fiscal_years = []; periods = []; next_period = 1 };
  entries = [];
  next_pk = 1;
}

-- A cash box with 100, on account 1.
abbrev box : TreasuryParty
box = record {
  gl_account_id = 1;
  opening_balance = pos 1000000;
  current_balance = pos 1000000;
  is_active = true;
}

abbrev bank : TreasuryParty
bank = record {
  gl_account_id = 2;
  opening_balance = pos 0;
  current_balance = pos 0;
  is_active = true;
}

-- 40 for account 3.
abbrev outlay : TreasuryTransaction
outlay = record {
  transaction_number = "";
  transaction_date = june;
  transaction_type = TransactionType.outflow;
  party = PartyKey.cashbox 1;
  contra_account_id = 3;
  amount = pos 400000;
  currency_code = "SAR";
  status = TreasuryStatus.draft;
  fiscal_period_id = none;
  journal_entry_id = none;
}

-- 25 from the box to the bank.
abbrev deposit : TreasuryTransfer
deposit = record {
  transfer_number = "";
  transfer_date = june;
  source = PartyKey.cashbox 1;
  destination = PartyKey.bank_account 1;
  amount = pos 250000;
  currency_code = "SAR";
  status = TreasuryStatus.draft;
  fiscal_period_id = none;
  journal_entry_id = none;
}

abbrev treasury : Treasury
treasury = record {
  ledger = books;
  cashboxes = λ k. if k == 1 then some box else none;
  bank_accounts = λ k. if k == 1 then some bank else none;
  transactions = λ k. if k == 1 then some outlay else none;
  transfers = λ k. if k == 1 then some deposit else none;
}

books-IsLedger : IsLedger books
books-IsLedger = record { fresh = λ k h. refl; sound = tt }

unfoldable spent : Treasury × PostedTreasuryTransaction
spent =
    value_of
      (treasury, record { transaction_id = 0; transaction_number = ""; journal_entry_id = 0 })
      (post_treasury_transaction ascii 1 treasury)

spent_done : post_treasury_transaction ascii 1 treasury ≡ ok (spent.0, spent.1)
unfolding post_treasury_transaction assert_period_open ◌+ℤ◌ make_currency post_pair make_draft
    post_journal_entry spent
spent_done = refl

-- 60 is left, and the number is the year's.
spent_box :
    find_party (PartyKey.cashbox 1) spent.0 ≡ some (record box { current_balance = pos 600000 })
unfolding spent post_treasury_transaction assert_period_open ◌+ℤ◌ make_currency post_pair make_draft
    post_journal_entry
spent_box = refl

number : document_number "TXN" june 1 ≡ "TXN-2026-000001"
unfolding document_number gs_erp.Base.str gs_erp.Base.six_digits
number = refl

unfoldable undone : Treasury × ReversedTreasuryTransaction
undone =
    value_of
      (
        treasury,
        record { transaction_id = 0; transaction_number = ""; reversal_journal_entry_id = 0 },
      )
      (reverse_treasury_transaction ascii 1 june spent.0)

undone_done : reverse_treasury_transaction ascii 1 june spent.0 ≡ ok (undone.0, undone.1)
unfolding reverse_treasury_transaction spent post_treasury_transaction assert_period_open ◌+ℤ◌
    make_currency post_pair make_draft post_journal_entry gs_erp.Finance.Posting.post_credit_first
    gs_erp.Base.str undone
undone_done = refl

unfoldable banked : Treasury × PostedTreasuryTransfer
banked =
    value_of (treasury, record { transfer_id = 0; transfer_number = ""; journal_entry_id = 0 })
      (post_treasury_transfer ascii 1 treasury)

banked_done : post_treasury_transfer ascii 1 treasury ≡ ok (banked.0, banked.1)
unfolding post_treasury_transfer gs_erp.Treasury.resolve assert_period_open make_currency post_pair
    make_draft ◌+ℤ◌ post_journal_entry banked
banked_done = refl

unfoldable returned : Treasury × ReversedTreasuryTransfer
returned =
    value_of
      (treasury, record { transfer_id = 0; transfer_number = ""; reversal_journal_entry_id = 0 })
      (reverse_treasury_transfer ascii 1 june banked.0)

returned_done : reverse_treasury_transfer ascii 1 june banked.0 ≡ ok (returned.0, returned.1)
unfolding reverse_treasury_transfer banked post_treasury_transfer gs_erp.Treasury.resolve
    assert_period_open make_currency post_pair make_draft ◌+ℤ◌ post_journal_entry
    gs_erp.Finance.Posting.post_credit_first gs_erp.Base.str returned
returned_done = refl

-- More than the box holds.
overspent :
    post_treasury_transaction ascii 1
      (record treasury { transactions = λ k. some (record outlay { amount = pos 1000001 }) })
    ≡ err balance_insufficient
unfolding post_treasury_transaction assert_period_open ◌+ℤ◌
overspent = refl

post_treasury_transaction-books_example :
    Moved outlay box (delta TransactionType.outflow (pos 400000)) treasury spent.0
    × ((is_inflow TransactionType.outflow ≡ true) ⊎ (pos 0 ≤ℤ gl_balance box spent.0.ledger))
    × (post_treasury_transaction ascii 1 spent.0 ≡ err treasury_already_posted)
post_treasury_transaction-books_example =
    post_treasury_transaction-books ascii 1 outlay box treasury spent.0 spent.1 books-IsLedger refl
      refl (ground arith) spent_done

post-reverse_treasury_transaction_example :
    ((a : ℕ) → balance a undone.0.ledger.entries ≡ balance a books.entries)
    × ((k : PartyKey) → find_party k undone.0 ≡ find_party k treasury)
    × (reverse_treasury_transaction ascii 1 june undone.0 ≡ err treasury_already_reversed)
post-reverse_treasury_transaction_example =
    post-reverse_treasury_transaction ascii 1 june june outlay treasury spent.0 undone.0 spent.1
      undone.1 books-IsLedger refl spent_done undone_done

post_treasury_transfer-moves_example :
    ((a : ℕ)
      → balance a banked.0.ledger.entries ≡ balance a books.entries +ℤ moved 2 1 (pos 250000) a)
    × IsLedger banked.0.ledger
    × ((1 == 2) ≡ false)
    × ((j : PartyKey)
        → find_party j banked.0
          ≡ shifted
              (PartyKey.bank_account 1)
              (pos 250000)
              j
              (shifted (PartyKey.cashbox 1) (neg (pos 250000)) j (find_party j treasury)))
    × (post_treasury_transfer ascii 1 banked.0 ≡ err treasury_already_posted)
post_treasury_transfer-moves_example =
    post_treasury_transfer-moves ascii 1 deposit box bank treasury banked.0 banked.1 books-IsLedger
      refl refl refl banked_done

post-reverse_treasury_transfer_example :
    ((a : ℕ) → balance a returned.0.ledger.entries ≡ balance a books.entries)
    × ((k : PartyKey) → find_party k returned.0 ≡ find_party k treasury)
    × (reverse_treasury_transfer ascii 1 june returned.0 ≡ err treasury_already_reversed)
post-reverse_treasury_transfer_example =
    post-reverse_treasury_transfer ascii 1 june june deposit treasury banked.0 returned.0 banked.1
      returned.1 books-IsLedger refl banked_done returned_done
