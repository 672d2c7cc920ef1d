-- ===== src/Finance/Tests/Documents.antt =====
-- Payments, taxes and the closing of a period at concrete inputs.
use gs_erp.Base.{
  ℕ, ◌+◌, ◌-◌, ◌*◌, ◌≤◌, ◌<◌, ◌≡◌, refl, inl, true, false, ◌&&◌, ◌||◌, none, some, [], ◌∷◌, ◌++◌,
  arith, leb, ◌==◌, if◌then◌else◌, pos, ◌+ℤ◌, ◌-ℤ◌, neg, ok, err, is_ok, lookup, integrity_error,
  get_elem?, value_of, duplicate_settlement, period_already_closed,
}
use gs_erp.Core.Currency.{Unicode}
use gs_erp.Core.Number.{whole}
use gs_erp.Finance.Journal.{AccountType, JournalEntryDraft, make_draft, make_draft-IsDraft, IsDraft}
use gs_erp.Finance.Fiscal.{AccountingPeriod, assert_period_open}
use gs_erp.Finance.Ledger.{
  Account, Ledger, PostJournalEntryCommand, PostedJournalEntry, is_used, post_journal_entry,
}
use gs_erp.Finance.Ledger.Sums.{balance}
use gs_erp.Finance.Ledger.History.{IsLedger, Step, Step-IsLedger}
use gs_erp.Finance.Posting.{moved}
use gs_erp.Finance.Payment.{
  PaymentMethod, PaymentDirection, PaymentSpec, make_payment, payment_row, Cashbook,
  RecordPaymentCommand, RecordedPayment, record_payment,
}
use gs_erp.Finance.Payment.Books.{into_cash, record_payment-books}
use gs_erp.Finance.Tax.{
  TaxDirection, TaxCode, TaxBooks, CalculateTaxCommand, TaxCalculationResult, calculate_tax,
  transaction_of, SettleVatCommand, SettleVatResult, settle_vat, tax_sum,
}
use gs_erp.Finance.Tax.Amount.{calculate_tax-nearest}
use gs_erp.Finance.Tax.Settlement.{settled, settle_vat-clears}
use gs_erp.Finance.Closing.{
  GenerateClosingEntriesCommand, ClosingEntriesResult, closing_reference, generate_closing_entries,
}
use gs_erp.Finance.Closing.Effect.{
  closing_of, incomes_of, expenses_of, generate_closing_entries-adds, generate_closing_entries-once,
}
use gs_erp.Finance.Closing.Period.{
  Closings, ClosedPeriod, close_fiscal_period, ReopenFiscalPeriodCommand, ReopenedPeriod,
  reopen_fiscal_period, roll_back, reset,
}
use gs_erp.Finance.Closing.Period.Reopen.{close-reopen, close_fiscal_period-locks}
use gs_erp.Finance.Tests.{dollars, june, july, books, books-IsLedger}

abbrev ascii : Unicode
ascii = record {
  is_alpha = λ c. (leb 65 c && leb c 90) || (leb 97 c && leb c 122);
  is_upper = λ c. leb 65 c && leb c 90;
  is_lower_or_title = λ c. leb 97 c && leb c 122;
}

-- 25 by cheque to account 7.
abbrev spec : PaymentSpec
spec = record {
  amount = dollars (pos 250000);
  method = PaymentMethod.cheque;
  direction = PaymentDirection.outbound;
  reference = "P-1";
  details = ("cheque_number", "000123") ∷ [];
}

spec_made : make_payment spec ≡ ok spec
unfolding make_payment gs_erp.Base.is_blank
spec_made = refl

abbrev paying : RecordPaymentCommand
paying = record {
  spec = spec;
  entry_date = june;
  cash_account_id = 4;
  counterparty_account_id = 7;
  source_type = "";
  source_id = none;
}

abbrev till : Cashbook
till = record { ledger = books; payments = []; expenses = []; money_transfers = [] }

abbrev no_payment : RecordedPayment
no_payment = record {
  payment_id = 0;
  journal_entry_id = 0;
  reference = "";
  amount = dollars (pos 0);
}

unfoldable paid : Cashbook × RecordedPayment
paid = value_of (till, no_payment) (record_payment paying till)

paid_done : record_payment paying till ≡ ok (paid.0, paid.1)
unfolding record_payment gs_erp.Finance.Posting.post_pair make_draft ◌+ℤ◌ post_journal_entry
    assert_period_open paid
paid_done = refl

record_payment-books_example :
    ((a : ℕ)
      → balance a paid.0.ledger.entries
        ≡ balance a till.ledger.entries
          +ℤ moved 4 7 (into_cash PaymentDirection.outbound (pos 250000)) a)
    × IsLedger paid.0.ledger
    × (get_elem? paid.0.payments paid.1.payment_id
        ≡ some (payment_row paying paid.1.journal_entry_id))
    × (record_payment paying paid.0 ≡ err integrity_error)
record_payment-books_example =
    record_payment-books paying paying till paid.0 paid.1 books-IsLedger refl paid_done

-- 15 percent on 33.3333.
abbrev vat : TaxCode
vat = record { rate = pos 150000; tax_type = TaxDirection.output; is_active = true }

abbrev taxing : CalculateTaxCommand
taxing = record {
  net_amount = pos 333333;
  tax_code_id = 1;
  direction = TaxDirection.output;
  txn_date = june;
  currency_code = "USD";
  source_type = "sales.saleinvoice";
  source_id = 1;
  journal_entry_id = none;
}

abbrev taxes : TaxBooks
taxes = record {
  tax_codes = λ k. if k == 1 then some vat else none;
  transactions = [];
  ledger = books;
}

abbrev no_tax : TaxCalculationResult
no_tax = record {
  tax_code_id = 0;
  rate = pos 0;
  net_amount = pos 0;
  tax_amount = pos 0;
  gross_amount = pos 0;
  currency_code = "";
  tax_transaction_id = none;
}

unfoldable taxed : TaxBooks × TaxCalculationResult
taxed = value_of (taxes, no_tax) (calculate_tax taxing taxes)

taxed_done : calculate_tax taxing taxes ≡ ok (taxed.0, taxed.1)
unfolding calculate_tax gs_erp.Core.Number.quantize gs_erp.Base.round_half_up gs_erp.Base.◌*ℤ◌
    gs_erp.Base.half_up taxed
taxed_done = refl

taxed_amount : taxed.1.tax_amount ≡ pos 50000
unfolding taxed calculate_tax gs_erp.Core.Number.quantize gs_erp.Base.round_half_up gs_erp.Base.◌*ℤ◌
    gs_erp.Base.half_up
taxed_amount = refl

calculate_tax-nearest_example :
    (tax : ℕ) × (taxed.1.tax_amount ≡ pos tax)
    × (2 * (tax * 1000000) ≤ 2 * (333333 * 150000) + 1000000)
    × (2 * (333333 * 150000) < 2 * (tax * 1000000) + 1000000)
    × (150000 ≤ 1000000 → tax ≤ 333333)
    × (taxed.1.gross_amount ≡ pos (333333 + tax))
    × (taxed.0.transactions ≡ taxes.transactions ++ transaction_of taxing (pos tax) ∷ [])
calculate_tax-nearest_example =
    calculate_tax-nearest taxing taxes taxed.0 taxed.1 vat 333333 150000 refl refl refl taxed_done

abbrev settling : SettleVatCommand
settling = record {
  date_from = june;
  date_to = july;
  tax_payable_account_id = 23;
  tax_recoverable_account_id = 16;
  settlement_account_id = 4;
  currency_code = "USD";
  reference = "";
}

abbrev no_settlement : SettleVatResult
no_settlement = record {
  journal_entry_id = 0;
  output_tax = pos 0;
  input_tax = pos 0;
  net_vat = pos 0;
  currency_code = "";
}

unfoldable settlement : TaxBooks × SettleVatResult
settlement = value_of (taxes, no_settlement) (settle_vat ascii settling taxed.0)

settlement_done : settle_vat ascii settling taxed.0 ≡ ok (settlement.0, settlement.1)
unfolding settle_vat taxed calculate_tax gs_erp.Core.Number.quantize gs_erp.Base.round_half_up
    gs_erp.Base.◌*ℤ◌ gs_erp.Base.half_up ◌+ℤ◌ gs_erp.Core.Currency.make_currency
    gs_erp.Finance.Journal.debit_only ◌-ℤ◌ gs_erp.Finance.Journal.credit_only make_draft
    post_journal_entry assert_period_open settlement
settlement_done = refl

taxed-IsLedger : IsLedger taxed.0.ledger
unfolding taxed calculate_tax gs_erp.Core.Number.quantize gs_erp.Base.round_half_up gs_erp.Base.◌*ℤ◌
    gs_erp.Base.half_up
taxed-IsLedger = books-IsLedger

settle_vat-clears_example :
    ((a : ℕ)
      → balance a settlement.0.ledger.entries
        ≡ balance a taxed.0.ledger.entries
          +ℤ settled settling
              (tax_sum settling TaxDirection.output taxed.0.transactions)
              (tax_sum settling TaxDirection.input taxed.0.transactions)
              a)
    × IsLedger settlement.0.ledger
    × (settlement.1.net_vat ≡ settlement.1.output_tax -ℤ settlement.1.input_tax)
    × (settlement.1.output_tax ≡ tax_sum settling TaxDirection.output taxed.0.transactions)
    × (settlement.1.input_tax ≡ tax_sum settling TaxDirection.input taxed.0.transactions)
    × (settle_vat ascii settling settlement.0 ≡ err duplicate_settlement)
settle_vat-clears_example =
    settle_vat-clears ascii settling settling taxed.0 settlement.0 settlement.1 taxed-IsLedger refl
      settlement_done

-- A month with a sale of 100 on account 40, and its closing to account 30 by way of account 31.
abbrev month : AccountingPeriod
month = record {
  fiscal_year = 1;
  period_year = 2026;
  period_month = 6;
  start_date = record { year = 2026; month = 6; day = 1 };
  end_date = record { year = 2026; month = 6; day = 30 };
  is_open = true;
}

abbrev account_of : AccountType → Account
account_of type = record { account_type = type; is_active = true; is_postable = true }

abbrev june_books : Ledger
june_books = record {
  accounts = λ a. some (
      account_of (
        if a == 40
        then AccountType.income
        else if a == 30 || a == 31
        then AccountType.equity
        else AccountType.asset));
  calendar = record { fiscal_years = []; periods = (6, month) ∷ []; next_period = 7 };
  entries = [];
  next_pk = 1;
}

june_books-IsLedger : IsLedger june_books
june_books-IsLedger = record { fresh = λ k h. refl; sound = tt }

abbrev revenue : JournalEntryDraft
revenue = record {
  entry_date = june;
  reference = "S-1";
  lines =
      record { account_id = 4; debit = dollars (pos 1000000); credit = dollars (pos 0) }
      ∷ record { account_id = 40; debit = dollars (pos 0); credit = dollars (pos 1000000) }
      ∷ [];
}

revenue_made : make_draft revenue ≡ ok revenue
unfolding make_draft ◌+ℤ◌
revenue_made = refl

abbrev revenue_command : PostJournalEntryCommand
revenue_command = record {
  draft = revenue;
  source_type = "";
  source_id = none;
  exchange_rate = whole (pos 1);
}

abbrev no_posting : PostedJournalEntry
no_posting = record { entry_id = 0; reference = ""; entry_date = june }

unfoldable sold : Ledger × PostedJournalEntry
sold = value_of (june_books, no_posting) (post_journal_entry revenue_command june_books)

sold_done : post_journal_entry revenue_command june_books ≡ ok (sold.0, sold.1)
unfolding post_journal_entry assert_period_open sold
sold_done = refl

sold-IsLedger : IsLedger sold.0
sold-IsLedger = Step-IsLedger june_books sold.0 june_books-IsLedger (
    Step.post revenue_command sold.0 sold.1 (make_draft-IsDraft revenue revenue revenue_made).1
      sold_done)

abbrev closing_command : GenerateClosingEntriesCommand
closing_command = record {
  period_id = 6;
  retained_earnings_account_id = 30;
  income_summary_account_id = 31;
  currency_code = "USD";
}

abbrev not_closed : ClosingEntriesResult
not_closed = record { period_id = 0; journal_entry_id = none; net_income = pos 0 }

unfoldable closed : Ledger × ClosingEntriesResult
closed = value_of (june_books, not_closed) (generate_closing_entries ascii closing_command sold.0)

closed_done : generate_closing_entries ascii closing_command sold.0 ≡ ok (closed.0, closed.1)
unfolding generate_closing_entries sold post_journal_entry assert_period_open
    gs_erp.Core.Currency.make_currency gs_erp.Finance.Ledger.save_line ◌+ℤ◌ ◌-ℤ◌
    gs_erp.Finance.Journal.debit_only gs_erp.Finance.Journal.credit_only make_draft gs_erp.Base.str
    gs_erp.Base.two_digits closed
closed_done = refl

closed_income : closed.1.net_income ≡ pos 1000000
unfolding closed generate_closing_entries sold post_journal_entry assert_period_open
    gs_erp.Core.Currency.make_currency gs_erp.Finance.Ledger.save_line ◌+ℤ◌ ◌-ℤ◌
    gs_erp.Finance.Journal.debit_only gs_erp.Finance.Journal.credit_only make_draft gs_erp.Base.str
    gs_erp.Base.two_digits
closed_income = refl

month_found : lookup 6 sold.0.calendar.periods ≡ some month
unfolding sold post_journal_entry assert_period_open
month_found = refl

generate_closing_entries-adds_example :
    ((a : ℕ)
      → balance a closed.0.entries
        ≡ balance a sold.0.entries +ℤ closing_of closing_command month sold.0 a)
    × IsLedger closed.0
generate_closing_entries-adds_example =
    generate_closing_entries-adds ascii closing_command month sold.0 closed.0 closed.1 sold-IsLedger
      month_found closed_done

abbrev not_closed_again : ClosingEntriesResult
not_closed_again = record { period_id = 6; journal_entry_id = none; net_income = pos 0 }

closing_used : is_used (closing_reference month) closed.0.entries ≡ true
unfolding closed generate_closing_entries sold post_journal_entry assert_period_open
    gs_erp.Core.Currency.make_currency gs_erp.Finance.Ledger.save_line ◌+ℤ◌ ◌-ℤ◌
    gs_erp.Finance.Journal.debit_only gs_erp.Finance.Journal.credit_only make_draft gs_erp.Base.str
    gs_erp.Base.two_digits
closing_used = refl

again_found : lookup 6 closed.0.calendar.periods ≡ some month
unfolding closed generate_closing_entries sold post_journal_entry assert_period_open
    gs_erp.Core.Currency.make_currency gs_erp.Finance.Ledger.save_line ◌+ℤ◌ ◌-ℤ◌
    gs_erp.Finance.Journal.debit_only gs_erp.Finance.Journal.credit_only make_draft gs_erp.Base.str
    gs_erp.Base.two_digits
again_found = refl

closed_done_again :
    generate_closing_entries ascii closing_command closed.0 ≡ ok (closed.0, not_closed_again)
unfolding generate_closing_entries closed sold post_journal_entry assert_period_open
    gs_erp.Core.Currency.make_currency gs_erp.Finance.Ledger.save_line ◌+ℤ◌ ◌-ℤ◌
    gs_erp.Finance.Journal.debit_only gs_erp.Finance.Journal.credit_only make_draft gs_erp.Base.str
    gs_erp.Base.two_digits
closed_done_again = refl

generate_closing_entries-once_example :
    (closed.0 ≡ closed.0)
    × (not_closed_again.journal_entry_id ≡ none)
    × (incomes_of closed.0 month ≡ [])
    × (expenses_of closed.0 month ≡ [])
generate_closing_entries-once_example =
    generate_closing_entries-once ascii closing_command month closed.0 closed.0 not_closed_again
      again_found closing_used closed_done_again

unfoldable desk : Closings
desk = record {
  ledger = sold.0;
  checklists = λ p. if p == 6 then some (record { is_complete = true; done_count = 3 }) else none;
  runs = λ p. none;
  signed_off = λ p. false;
}

abbrev no_close : ClosedPeriod
no_close = record { period_id = 0; closing_journal_id = none; net_income = pos 0 }

unfoldable shut : Closings × ClosedPeriod
shut = value_of (desk, no_close) (close_fiscal_period ascii closing_command desk)

shut_done : close_fiscal_period ascii closing_command desk ≡ ok (shut.0, shut.1)
unfolding close_fiscal_period desk sold post_journal_entry assert_period_open
    generate_closing_entries gs_erp.Core.Currency.make_currency gs_erp.Finance.Ledger.save_line ◌+ℤ◌
    ◌-ℤ◌ gs_erp.Finance.Journal.debit_only gs_erp.Finance.Journal.credit_only make_draft
    gs_erp.Base.str gs_erp.Base.two_digits shut
shut_done = refl

desk_found : lookup 6 desk.ledger.calendar.periods ≡ some month
unfolding desk sold post_journal_entry assert_period_open
desk_found = refl

close_fiscal_period-locks_example :
    (is_ok (assert_period_open june shut.0.ledger.calendar) ≡ false)
    × (close_fiscal_period ascii closing_command shut.0 ≡ err period_already_closed)
close_fiscal_period-locks_example =
    close_fiscal_period-locks ascii closing_command desk shut.0 shut.1 month june desk_found refl
      shut_done

abbrev reopening : ReopenFiscalPeriodCommand
reopening = record { period_id = 6; force = false }

abbrev no_reopening : ReopenedPeriod
no_reopening = record { period_id = 0; reversed_journal_id = none }

unfoldable reopened : Closings × ReopenedPeriod
reopened = value_of (desk, no_reopening) (reopen_fiscal_period reopening july shut.0)

reopened_done : reopen_fiscal_period reopening july shut.0 ≡ ok (reopened.0, reopened.1)
unfolding reopen_fiscal_period shut close_fiscal_period desk sold post_journal_entry
    assert_period_open generate_closing_entries gs_erp.Core.Currency.make_currency
    gs_erp.Finance.Ledger.save_line ◌+ℤ◌ ◌-ℤ◌ gs_erp.Finance.Journal.debit_only
    gs_erp.Finance.Journal.credit_only make_draft gs_erp.Base.str gs_erp.Base.two_digits
    gs_erp.Finance.Ledger.reverse_journal_entry reopened
reopened_done = refl

close-reopen_example :
    ((a : ℕ) → balance a reopened.0.ledger.entries ≡ balance a desk.ledger.entries)
    × (reopened.0.runs 6 ≡ roll_back (shut.0.runs 6))
    × (reopened.0.checklists 6 ≡ reset (shut.0.checklists 6))
unfolding desk
close-reopen_example =
    close-reopen ascii closing_command reopening july desk shut.0 reopened.0 shut.1 reopened.1
      sold-IsLedger refl shut_done reopened_done
