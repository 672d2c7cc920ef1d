-- ===== src/Finance/Closing/Period.antt =====
-- `CloseFiscalPeriod` and `ReopenFiscalPeriod` of apps/finance/application/use_cases over the rows of
-- apps/finance/infrastructure/closing_models.py. Time stamps, actors, reasons and audit events are
-- left out; the items of a checklist are its count of those that are done. A reopening is modelled
-- inside the transaction that its lock needs.
pub mod Reopen
use gs_erp.Base.{
  ℕ, ◌-◌, ◌/◌, Bool, true, false, not, ◌&&◌, Option, none, some, ◌==◌, if◌then◌else◌, ℤ, Result, ok,
  ◌>>=◌, ◌>>◌, guard, raise_if, or_raise, lookup, insert, value_error, integrity_error, Rows,
  update, period_already_closed, checklist_incomplete, closing_run_exists, period_not_closed,
  period_signed_off,
}
use gs_erp.Core.Date.{Date}
use gs_erp.Core.Currency.{Unicode}
use gs_erp.Finance.Fiscal.{FiscalYear, AccountingPeriod, FiscalCalendar}
use gs_erp.Finance.Ledger.{Ledger, reverse_journal_entry}
use gs_erp.Finance.Closing.{
  GenerateClosingEntriesCommand, ClosingEntriesResult, generate_closing_entries,
}

pub data ClosingRunStatus : Type 0 where
  pending running completed failed rolled_back : ClosingRunStatus

abbrev pub is_completed : ClosingRunStatus → Bool
is_completed completed = true
is_completed _ = false

abbrev pub is_rolled_back : ClosingRunStatus → Bool
is_rolled_back rolled_back = true
is_rolled_back _ = false

pub record ClosingRun : Type 0 where
  pub status : ClosingRunStatus
  pub closing_journal_id : Option ℕ
  pub net_income : Option ℤ

pub record ClosingChecklist : Type 0 where
  pub is_complete : Bool
  pub done_count : ℕ

-- A period has at most one checklist and one run.
pub record Closings : Type 0 where
  pub ledger : Ledger
  pub checklists : Rows ClosingChecklist
  pub runs : Rows ClosingRun
  pub signed_off : ℕ → Bool

pub record ClosedPeriod : Type 0 where
  pub period_id : ℕ
  pub closing_journal_id : Option ℕ
  pub net_income : ℤ

-- `period.fiscal_year.status == FiscalYearStatus.CLOSED`
abbrev pub is_closed_year : Option FiscalYear → Bool
is_closed_year none = false
is_closed_year (some y) = not y.is_open

abbrev pub has_completed : Option ClosingRun → Bool
has_completed none = false
has_completed (some r) = is_completed r.status

-- A run that is not rolled back stays, and the new one is refused.
abbrev pub has_standing : Option ClosingRun → Bool
has_standing none = false
has_standing (some r) = not (is_rolled_back r.status)

abbrev pub set_period : ℕ → AccountingPeriod → Ledger → Ledger
set_period id p s = record s {
  calendar = record (s.calendar) { periods = insert id p s.calendar.periods };
}

-- `CloseFiscalPeriod.execute`
unfoldable pub close_fiscal_period :
    Unicode → GenerateClosingEntriesCommand → Closings → Result (Closings × ClosedPeriod)
close_fiscal_period u c s = do
  period ← or_raise (lookup c.period_id s.ledger.calendar.periods) value_error
  guard period.is_open period_already_closed
  raise_if (is_closed_year (lookup period.fiscal_year s.ledger.calendar.fiscal_years))
      period_already_closed
  checklist ← or_raise (s.checklists c.period_id) checklist_incomplete
  guard checklist.is_complete checklist_incomplete
  raise_if (checklist.done_count == 0) checklist_incomplete
  raise_if (has_completed (s.runs c.period_id)) closing_run_exists
  raise_if (has_standing (s.runs c.period_id)) integrity_error
  (ledger, entries) ← generate_closing_entries u c s.ledger
  ok (
    record s {
      ledger = set_period c.period_id (record period { is_open = false }) ledger;
      runs =
          update c.period_id
            (record {
              status = completed;
              closing_journal_id = entries.journal_entry_id;
              net_income = some entries.net_income;
            })
            s.runs;
    },
    record {
      period_id = c.period_id;
      closing_journal_id = entries.journal_entry_id;
      net_income = entries.net_income;
    },
  )

pub record ReopenFiscalPeriodCommand : Type 0 where
  pub period_id : ℕ
  pub force : Bool

pub record ReopenedPeriod : Type 0 where
  pub period_id : ℕ
  pub reversed_journal_id : Option ℕ

-- Step 1: the closing entry of a run is reversed today, if there is one.
abbrev pub reverse_closing : Option ℕ → Date → Ledger → Result (Ledger × Option ℕ)
reverse_closing none today s = ok (s, none)
reverse_closing (some id) today s = do (t, key) ← reverse_journal_entry id today s; ok (t, some key)

abbrev pub journal_of : Option ClosingRun → Option ℕ
journal_of none = none
journal_of (some r) = r.closing_journal_id

-- Step 2: the run is marked as rolled back.
abbrev pub roll_back : Option ClosingRun → Option ClosingRun
roll_back none = none
roll_back (some r) = some (record r { status = rolled_back })

abbrev pub reset : Option ClosingChecklist → Option ClosingChecklist
reset none = none
reset (some c) = some (record c { is_complete = false })

abbrev pub set_row {ℓ} : {V : Type ℓ} → ℕ → Option V → Rows V → Rows V
set_row k o t j = if k == j then o else t j

-- `ReopenFiscalPeriod.execute`
unfoldable pub reopen_fiscal_period :
    ReopenFiscalPeriodCommand → Date → Closings → Result (Closings × ReopenedPeriod)
reopen_fiscal_period c today s = do
  period ← or_raise (lookup c.period_id s.ledger.calendar.periods) value_error
  raise_if period.is_open period_not_closed
  raise_if (not c.force && s.signed_off c.period_id) period_signed_off
  (ledger, key) ← reverse_closing (journal_of (s.runs c.period_id)) today s.ledger
  ok (
    record s {
      ledger = set_period c.period_id (record period { is_open = true }) ledger;
      runs = set_row c.period_id (roll_back (s.runs c.period_id)) s.runs;
      checklists = set_row c.period_id (reset (s.checklists c.period_id)) s.checklists;
    },
    record { period_id = c.period_id; reversed_journal_id = key },
  )
