-- ===== src/Finance/Ledger.antt =====
-- The general ledger: the tables of apps/finance/infrastructure/models.py, the signals of
-- apps/finance/signals.py, and `PostJournalEntry`, `ReverseJournalEntry` and `ApproveJournalEntry` of
-- apps/finance/application/use_cases. Memos, entry numbers and time stamps are left out.
pub mod Sums
pub mod Balance
pub mod History
pub mod Immutable
pub mod Correction
use gs_erp.Base.{
  validation_error, ℕ, suc, ◌-◌, ◌/◌, String, Bool, true, false, not, Option, none, some, List, [],
  ◌∷◌, map, ◌==◌, if◌then◌else◌, all, any, ℤ, pos, eqb_ℤ, Result, ok, ◌>>=◌, ◌>>◌, guard, raise_if,
  or_raise, str_eq, Table, lookup, insert, account_not_found, account_not_postable,
  journal_already_posted, journal_already_reversed, period_closed, integrity_error, Rows, update,
  index_error, concat,
}
use gs_erp.Core.Date.{Date}
use gs_erp.Core.Number.{Decimal, whole, at_storage, product, quantize}
use gs_erp.Core.Currency.{Currency}
use gs_erp.Core.Money.{Money}
use gs_erp.Finance.Journal.{AccountType, JournalLine, JournalEntryDraft, currency_of}
use gs_erp.Finance.Fiscal.{FiscalCalendar, assert_period_open, find_open_period_id}

pub record Account : Type 0 where
  pub account_type : AccountType
  pub is_active : Bool
  pub is_postable : Bool

pub data JournalEntryStatus : Type 0 where
  draft submitted approved posted reversed cancelled : JournalEntryStatus

pub record LedgerLine : Type 0 where
  pub account_id : ℕ
  pub debit : ℤ
  pub credit : ℤ
  pub currency_code : String
  pub exchange_rate : Decimal
  pub functional_debit : ℤ
  pub functional_credit : ℤ

pub record JournalEntry : Type 0 where
  pub entry_date : Date
  pub reference : String
  pub currency_code : String
  pub source_type : String
  pub source_id : Option ℕ
  pub status : JournalEntryStatus
  pub is_posted : Bool
  pub fiscal_period_id : Option ℕ
  pub reversed_from : Option ℕ
  pub lines : List LedgerLine

pub record Ledger : Type 0 where
  pub accounts : Rows Account
  pub calendar : FiscalCalendar
  pub entries : Table JournalEntry
  pub next_pk : ℕ

abbrev pub is_posted_status : JournalEntryStatus → Bool
is_posted_status posted = true
is_posted_status _ = false

abbrev pub is_approved_status : JournalEntryStatus → Bool
is_approved_status approved = true
is_approved_status _ = false

-- `entry.status in (DRAFT, SUBMITTED)`
abbrev pub is_pending_status : JournalEntryStatus → Bool
is_pending_status draft = true
is_pending_status submitted = true
is_pending_status _ = false

-- `JournalEntry.save`
abbrev pub save_entry : JournalEntry → JournalEntry
save_entry e = record e { is_posted = is_posted_status e.status }

-- `instance.exchange_rate or Decimal("1")`
abbrev pub rate_or_one : Decimal → Decimal
rate_or_one rate = if eqb_ℤ rate.coef (pos 0) then whole (pos 1) else rate

abbrev pub functional : Decimal → ℤ → ℤ
functional rate amount = quantize 4 (product (at_storage amount) (rate_or_one rate))

-- A `JournalLine` that is saved, after `_compute_functional_amounts`.
unfoldable pub save_line : ℕ → ℤ → ℤ → String → Decimal → LedgerLine
save_line account debit credit code rate = record {
  account_id = account;
  debit = debit;
  credit = credit;
  currency_code = code;
  exchange_rate = rate;
  functional_debit = functional rate debit;
  functional_credit = functional rate credit;
}

-- A reference to the row with that key.
abbrev pub is_key : ℕ → Option ℕ → Bool
is_key id none = false
is_key id (some k) = k == id

pub record PostJournalEntryCommand : Type 0 where
  pub draft : JournalEntryDraft
  pub source_type : String
  pub source_id : Option ℕ
  pub exchange_rate : Decimal

pub record PostedJournalEntry : Type 0 where
  pub entry_id : ℕ
  pub reference : String
  pub entry_date : Date

-- `Account.objects.filter(pk__in=account_ids, is_active=True)`
abbrev pub is_found : Rows Account → ℕ → Bool
is_found accounts id = elim (accounts id) [ some a ↦ a.is_active | none ↦ false ]

abbrev pub takes_lines : Rows Account → ℕ → Bool
takes_lines accounts id = elim (accounts id) [ some a ↦ a.is_postable | none ↦ true ]

-- `draft.currency`
abbrev pub draft_currency : List JournalLine → Option Currency
draft_currency [] = none
draft_currency (l ∷ ls) = some (currency_of l)

abbrev pub post_line : Decimal → JournalLine → LedgerLine
post_line rate l = save_line l.account_id l.debit.amount l.credit.amount (currency_of l).code rate

-- The constraint that references are unique in an organization.
abbrev pub is_used : String → Table JournalEntry → Bool
is_used reference entries = any (λ e. str_eq e.1.reference reference) entries

-- The row of a command's draft.
abbrev pub posted_entry : PostJournalEntryCommand → Currency → Option ℕ → JournalEntry
posted_entry command currency period = save_entry (record {
  entry_date = command.draft.entry_date;
  reference = command.draft.reference;
  currency_code = currency.code;
  source_type = command.source_type;
  source_id = command.source_id;
  status = posted;
  is_posted = true;
  fiscal_period_id = period;
  reversed_from = none;
  lines = map (post_line command.exchange_rate) command.draft.lines;
})

abbrev pub add_entry : JournalEntry → Ledger → Ledger
add_entry e s = record s { entries = insert s.next_pk e s.entries; next_pk = suc s.next_pk }

-- `PostJournalEntry.execute`
unfoldable pub post_journal_entry :
    PostJournalEntryCommand → Ledger → Result (Ledger × PostedJournalEntry)
post_journal_entry command s = do
  assert_period_open command.draft.entry_date s.calendar
  guard (all (λ l. is_found s.accounts l.account_id) command.draft.lines) account_not_found
  guard (all (λ l. takes_lines s.accounts l.account_id) command.draft.lines) account_not_postable
  currency ← or_raise (draft_currency command.draft.lines) index_error
  raise_if (is_used command.draft.reference s.entries) integrity_error
  ok (
    add_entry
        (posted_entry command currency
          (find_open_period_id command.draft.entry_date s.calendar.periods))
        s,
    record {
      entry_id = s.next_pk;
      reference = command.draft.reference;
      entry_date = command.draft.entry_date;
    },
  )

-- `guard_against_modification`
unfoldable pub guard_against_modification : JournalEntry → Result (Unit {0})
guard_against_modification e = raise_if e.is_posted journal_already_posted

-- `_guard_posted_journal_entry`, ahead of a save of the row with that key.
unfoldable pub guard_posted_journal_entry : ℕ → Table JournalEntry → Result (Unit {0})
guard_posted_journal_entry id entries = elim (lookup id entries) [
  | some current ↦ raise_if current.is_posted validation_error
  | none ↦ ok tt
]

-- A line with its sides swapped; its rate is the column's default.
unfoldable pub mirror_line : LedgerLine → LedgerLine
unfolding save_line
mirror_line l = save_line l.account_id l.credit l.debit l.currency_code (whole (pos 1))

-- `JournalEntry.objects.filter(reversed_from=original).exists()`
abbrev pub has_reversal : ℕ → Table JournalEntry → Bool
has_reversal id entries = any (λ e. is_key id e.1.reversed_from) entries

abbrev pub reversal_of : ℕ → JournalEntry → Date → JournalEntry
reversal_of id original date = save_entry (record {
  entry_date = date;
  reference = concat "REV-" original.reference;
  currency_code = original.currency_code;
  source_type = original.source_type;
  source_id = original.source_id;
  status = posted;
  is_posted = true;
  fiscal_period_id = none;
  reversed_from = some id;
  lines = map mirror_line original.lines;
})

abbrev pub with_status : JournalEntryStatus → JournalEntry → JournalEntry
with_status status e = record e { status = status }

-- `queryset.update(status=...)`: `save` is not called, and the flag stays.
abbrev pub set_status : ℕ → JournalEntryStatus → Table JournalEntry → Table JournalEntry
set_status id status t = elim (lookup id t) [
  | some e ↦ insert id (with_status status e) t
  | none ↦ t
]

-- `ReverseJournalEntry.execute`, with the reversal's key.
unfoldable pub reverse_journal_entry : ℕ → Date → Ledger → Result (Ledger × ℕ)
reverse_journal_entry id date s = do
  original ← or_raise (lookup id s.entries) account_not_found
  guard (is_posted_status original.status) journal_already_posted
  raise_if (has_reversal id s.entries) journal_already_reversed
  assert_period_open date s.calendar
  raise_if (is_used (concat "REV-" original.reference) s.entries) integrity_error
  let t = add_entry (reversal_of id original date) s
  ok (record t { entries = set_status id reversed t.entries }, s.next_pk)

-- `ApproveJournalEntry.execute`
unfoldable pub approve_journal_entry : ℕ → Ledger → Result Ledger
approve_journal_entry id s = do
  entry ← or_raise (lookup id s.entries) account_not_found
  raise_if entry.is_posted journal_already_posted
  if is_approved_status entry.status then ok s else (do
    guard (is_pending_status entry.status) period_closed
    ok (record s { entries = set_status id approved s.entries }))
