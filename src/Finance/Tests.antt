-- ===== src/Finance/Tests.antt =====
-- The ledger at concrete inputs.
mod Documents
use gs_erp.Base.{
  value_of, validation_error, ℕ, ◌+◌, ◌-◌, ◌≡◌, refl, true, none, some, [], ◌∷◌, ℤ, pos, ◌+ℤ◌,
  Result, ok, err, lookup, journal_already_posted, period_closed, List, map, suc, All, arith,
}
use gs_erp.Core.Date.{Date}
use gs_erp.Core.Number.{Decimal, whole}
use gs_erp.Core.Currency.{Currency}
use gs_erp.Core.Money.{Money}
use gs_erp.Finance.Journal.{AccountType, JournalEntryDraft, IsDraft, make_draft, make_draft-IsDraft}
use gs_erp.Finance.Fiscal.{
  FiscalYear, FiscalCalendar, assert_period_open, close_fiscal_year, close_fiscal_year-locks,
}
use gs_erp.Finance.Fiscal.Months.{
  Month, months_in_range, number, number_of, count_up, IsInside, months_in_range_complete,
}
use gs_erp.Finance.Fiscal.Generate.{
  GeneratedFiscalPeriods, generate_fiscal_periods, generate_fiscal_periods_twice,
}
use gs_erp.Finance.Ledger.{
  Ledger, LedgerLine, JournalEntry, PostJournalEntryCommand, PostedJournalEntry, posted_entry,
  save_line, mirror_line, post_journal_entry, reverse_journal_entry, guard_posted_journal_entry,
  approve_journal_entry,
}
use gs_erp.Finance.Ledger.Sums.{lines_sum, on_account, balance, IsSound}
use gs_erp.Finance.Ledger.Balance.{draft_net, post_journal_entry-adds, reverse_journal_entry-nets}
use gs_erp.Finance.Ledger.History.{IsLedger, Step, Run, Run-IsLedger}
use gs_erp.Finance.Ledger.Immutable.{Remains, Run-Remains, Run-guard_posted_journal_entry}
use gs_erp.Finance.Ledger.Correction.{
  post-reverse, reverse_journal_entry-once, mirror_line-functional,
}

abbrev usd : Currency
usd = record { code = "USD"; minor_units = 2 }

abbrev dollars : ℤ → Money
dollars n = record { amount = n; currency = usd }

abbrev june : Date
june = record { year = 2026; month = 6; day = 15 }

abbrev july : Date
july = record { year = 2026; month = 7; day = 1 }

-- 100 from account 1 to account 2.
abbrev entry : JournalEntryDraft
entry = record {
  entry_date = june;
  reference = "INV-1";
  lines =
      record { account_id = 2; debit = dollars (pos 1000000); credit = dollars (pos 0) }
      ∷ record { account_id = 1; debit = dollars (pos 0); credit = dollars (pos 1000000) }
      ∷ [];
}

entry_made : make_draft entry ≡ ok entry
unfolding make_draft ◌+ℤ◌
entry_made = refl

entry-IsDraft : IsDraft entry
entry-IsDraft = (make_draft-IsDraft entry entry entry_made).1

-- At 3.75 to the dollar.
abbrev command : PostJournalEntryCommand
command = record {
  draft = entry;
  source_type = "";
  source_id = none;
  exchange_rate = record { coef = pos 375; places = 2 };
}

abbrev no_year : FiscalCalendar
no_year = record { fiscal_years = []; periods = []; next_period = 1 }

abbrev books : Ledger
books = record {
  accounts =
      λ a. some (record { account_type = AccountType.asset; is_active = true; is_postable = true });
  calendar = no_year;
  entries = [];
  next_pk = 1;
}

books-IsLedger : IsLedger books
books-IsLedger = record { fresh = λ k h. refl; sound = tt }

abbrev no_posting : PostedJournalEntry
no_posting = record { entry_id = 0; reference = ""; entry_date = june }

unfoldable posted : Ledger × PostedJournalEntry
unfolding post_journal_entry
posted = value_of (books, no_posting) (post_journal_entry command books)

posted_done : post_journal_entry command books ≡ ok (posted.0, posted.1)
unfolding posted assert_period_open
posted_done = refl

post_journal_entry-adds_example :
    ((a : ℕ) → balance a posted.0.entries ≡ balance a books.entries +ℤ draft_net a entry.lines)
    × IsSound posted.0.entries
post_journal_entry-adds_example =
    post_journal_entry-adds command books posted.0 posted.1 books-IsLedger.fresh entry-IsDraft
      books-IsLedger.sound posted_done

first-Run : Run books posted.0
first-Run =
    Run.next books posted.0 posted.0 (Step.post command posted.0 posted.1 entry-IsDraft posted_done)
      (Run.done posted.0)

posted-IsLedger : IsLedger posted.0
posted-IsLedger = Run-IsLedger books posted.0 books-IsLedger first-Run

Run-IsLedger_example : IsLedger posted.0
Run-IsLedger_example = Run-IsLedger books posted.0 books-IsLedger first-Run

unfoldable reversal : Ledger × ℕ
unfolding posted reverse_journal_entry
reversal = value_of (books, 0) (reverse_journal_entry 1 july posted.0)

reversal_done : reverse_journal_entry 1 july posted.0 ≡ ok (reversal.0, reversal.1)
unfolding reversal assert_period_open
reversal_done = refl

unfoldable row : JournalEntry
row = posted_entry command usd none

row_found : lookup 1 posted.0.entries ≡ some row
unfolding posted row assert_period_open gs_erp.Finance.Fiscal.find_open_period_id
row_found = refl

row_posted : row.is_posted ≡ true
unfolding row
row_posted = refl

second-Run : Run posted.0 reversal.0
second-Run =
    Run.next posted.0 reversal.0 reversal.0
      (Step.reverse 1 july reversal.0 reversal.1 reversal_done) (Run.done reversal.0)

Run-Remains_example : Remains 1 row reversal.0
Run-Remains_example =
    Run-Remains posted.0 reversal.0 1 row posted-IsLedger row_found row_posted second-Run

Run-guard_posted_journal_entry_example :
    (guard_posted_journal_entry 1 reversal.0.entries ≡ err validation_error)
    × (approve_journal_entry 1 reversal.0 ≡ err journal_already_posted)
Run-guard_posted_journal_entry_example =
    Run-guard_posted_journal_entry posted.0 reversal.0 1 row posted-IsLedger row_found row_posted
      second-Run

post-reverse_example : balance 2 reversal.0.entries ≡ balance 2 books.entries
unfolding posted assert_period_open
post-reverse_example =
    post-reverse command books posted.0 reversal.0 posted.1 july reversal.1 books-IsLedger
      entry-IsDraft posted_done reversal_done 2

-- 100 dollars at 3.75: 375 in the functional currency, of which the reversal takes back 100.
abbrev foreign : LedgerLine
foreign = record {
  account_id = 2;
  debit = pos 1000000;
  credit = pos 0;
  currency_code = "USD";
  exchange_rate = record { coef = pos 375; places = 2 };
  functional_debit = pos 3750000;
  functional_credit = pos 0;
}

foreign_saved :
    save_line 2 (pos 1000000) (pos 0) "USD" (record { coef = pos 375; places = 2 }) ≡ foreign
unfolding save_line gs_erp.Core.Number.quantize gs_erp.Base.round_half_up gs_erp.Base.◌*ℤ◌
    gs_erp.Base.half_up
foreign_saved = refl

mirror_line-functional_example :
    ((mirror_line foreign).functional_debit ≡ pos 0)
    × ((mirror_line foreign).functional_credit ≡ pos 1000000)
mirror_line-functional_example = mirror_line-functional foreign

abbrev year : FiscalYear
year = record {
  start_date = record { year = 2026; month = 1; day = 1 };
  end_date = record { year = 2026; month = 12; day = 31 };
  is_open = true;
}

abbrev calendar : FiscalCalendar
calendar = record { fiscal_years = (1, year) ∷ []; periods = []; next_period = 1 }

unfoldable closed : FiscalCalendar × ℕ
unfolding close_fiscal_year
closed = value_of (calendar, 0) (close_fiscal_year 1 calendar)

closed_done : close_fiscal_year 1 calendar ≡ ok (closed.0, closed.1)
unfolding closed
closed_done = refl

months_in_range_complete_example :
    (ms : List Month) × (months_in_range year.start_date year.end_date ≡ ok ms)
    × (map number_of ms ≡ count_up (number 2026 1) (suc (number 2026 12 - number 2026 1)))
    × All (IsInside year.start_date year.end_date) ms
months_in_range_complete_example =
    months_in_range_complete year.start_date year.end_date (omega arith) (omega arith) (omega arith)
      (omega arith) (omega arith) (omega arith)

-- One quarter, so that the run is short.
abbrev quarter : FiscalCalendar
quarter = record {
  fiscal_years =
      (
        1,
        record {
          start_date = record { year = 2026; month = 11; day = 1 };
          end_date = record { year = 2027; month = 1; day = 31 };
          is_open = true;
        },
      )
      ∷ [];
  periods = [];
  next_period = 1;
}

abbrev no_periods : GeneratedFiscalPeriods
no_periods = record { calendar = quarter; created = 0; skipped = 0 }

unfoldable generated : GeneratedFiscalPeriods
unfolding generate_fiscal_periods
generated = value_of no_periods (generate_fiscal_periods 1 quarter)

generated_done : generate_fiscal_periods 1 quarter ≡ ok generated
unfolding generated months_in_range
generated_done = refl

generated_count : generated.created ≡ 3
unfolding generated months_in_range
generated_count = refl
