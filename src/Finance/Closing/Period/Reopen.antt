-- ===== src/Finance/Closing/Period/Reopen.antt =====
-- Closing a period locks it, and reopening it undoes the closing.
use mathlib.Core.Option.{some-injective}
use gs_erp.Base.{
  subst, ℕ, ◌≡◌, refl, sym, ap, ◌∙◌, ◌⊎◌, inl, inr, true, false, not, ◌&&◌, Option, none, some,
  ◌==◌, ==_refl, Bool-cases, is_empty, ℤ, ok, guard, raise_if, or_raise, >>=-eq-ok, Table, lookup,
  value_error, integrity_error, ok-injective, or_raise-eq-ok, period_already_closed,
  checklist_incomplete, closing_run_exists, period_not_closed, period_signed_off, is_ok, err,
  insert, any-insert, arith, lookup-insert,
}
use gs_erp.Core.Date.{Date}
use gs_erp.Core.Currency.{Currency, Unicode}
use gs_erp.Finance.Journal.{IsDraft, make_draft, make_draft-IsDraft}
use gs_erp.Finance.Fiscal.{AccountingPeriod, assert_period_open, covers}
use gs_erp.Finance.Ledger.{
  Ledger, PostJournalEntryCommand, PostedJournalEntry, post_journal_entry, reverse_journal_entry,
}
use gs_erp.Finance.Ledger.Sums.{balance}
use gs_erp.Finance.Ledger.History.{IsLedger}
use gs_erp.Finance.Ledger.Correction.{post-reverse_later}
use gs_erp.Finance.Posting.{command_of}
use gs_erp.Finance.Closing.{
  GenerateClosingEntriesCommand, ClosingEntriesResult, closing_lines, closing_draft, post_closing,
  close_balances, generate_closing_entries,
}
use gs_erp.Finance.Closing.Effect.{incomes_of, expenses_of, generate_closing_entries-Generated}
use gs_erp.Finance.Closing.Period.{
  Closings, ClosedPeriod, is_closed_year, has_completed, has_standing, set_period,
  close_fiscal_period, ReopenFiscalPeriodCommand, ReopenedPeriod, reverse_closing, journal_of,
  roll_back, reset, set_row, reopen_fiscal_period,
}

-- What the generation of the closing entries comes to: nothing, or one posted entry.
record Entry (s t : Ledger) (r : ClosingEntriesResult) : Type 0 where
  command : PostJournalEntryCommand
  posted : PostedJournalEntry
  valid : IsDraft command.draft
  is_posted : post_journal_entry command s ≡ ok (t, posted)
  key : r.journal_entry_id ≡ some posted.entry_id

close_balances-cases :
    (c : GenerateClosingEntriesCommand) (p : AccountingPeriod) (currency : Currency)
    (incomes expenses : Table ℤ) (s t : Ledger) (r : ClosingEntriesResult)
    → close_balances c p currency incomes expenses s ≡ ok (t, r)
    → ((t ≡ s) × (r.journal_entry_id ≡ none)) ⊎ Entry s t r
unfolding post_closing
close_balances-cases c p currency incomes expenses s t r h =
    elim (Bool-cases (is_empty incomes && is_empty expenses)) [
      | inl none_left ↦
          let e = sym (ok-injective (rw none_left at h)) in
          inl (ap (λ z. z.0) e, ap (λ z. z.1.journal_entry_id) e)
      | inr some_left ↦
          let ((ledger, posted), e1, h1) =
            >>=-eq-ok (post_closing c p currency incomes expenses s) _ (rw some_left at h) in
          let (ls, e2, h2) =
            >>=-eq-ok
              (closing_lines c.income_summary_account_id c.retained_earnings_account_id currency
                incomes expenses)
              _ e1 in
          let (d, e3, h3) = >>=-eq-ok (make_draft (closing_draft p ls)) _ h2 in
          let (is_d, valid) = make_draft-IsDraft (closing_draft p ls) d e3 in
          let e = ok-injective h1 in
          let command = command_of d "finance.accountingperiod" (some c.period_id) in
          inr (record {
            command = command;
            posted = posted;
            valid = subst IsDraft (sym is_d) valid;
            is_posted =
                subst (λ z. post_journal_entry command s ≡ ok (z, posted)) (ap (λ z. z.0) e) h3;
            key = sym (ap (λ z. z.1.journal_entry_id) e);
          })
    ]

-- An accepted closing of a period, taken apart.
record Closed (u : Unicode) (c : GenerateClosingEntriesCommand) (s t : Closings) : Type 0 where
  period : AccountingPeriod
  found : lookup c.period_id s.ledger.calendar.periods ≡ some period
  entries : ClosingEntriesResult
  generated : Ledger
  is_generated : generate_closing_entries u c s.ledger ≡ ok (generated, entries)
  ledger : t.ledger ≡ set_period c.period_id (record period { is_open = false }) generated
  journal : journal_of (t.runs c.period_id) ≡ entries.journal_entry_id

close_fiscal_period-Closed :
    (u : Unicode) (c : GenerateClosingEntriesCommand) (s t : Closings) (r : ClosedPeriod)
    → close_fiscal_period u c s ≡ ok (t, r)
    → Closed u c s t
unfolding close_fiscal_period
close_fiscal_period-Closed u c s t r h =
    let (p, e1, h1) =
      >>=-eq-ok (or_raise (lookup c.period_id s.ledger.calendar.periods) value_error) _ h in
    let (u2, e2, h2) = >>=-eq-ok (guard p.is_open period_already_closed) _ h1 in
    let (u3, e3, h3) =
      >>=-eq-ok
        (raise_if (is_closed_year (lookup p.fiscal_year s.ledger.calendar.fiscal_years))
          period_already_closed)
        _ h2 in
    let (k, e4, h4) = >>=-eq-ok (or_raise (s.checklists c.period_id) checklist_incomplete) _ h3 in
    let (u5, e5, h5) = >>=-eq-ok (guard k.is_complete checklist_incomplete) _ h4 in
    let (u6, e6, h6) = >>=-eq-ok (raise_if (k.done_count == 0) checklist_incomplete) _ h5 in
    let (u7, e7, h7) =
      >>=-eq-ok (raise_if (has_completed (s.runs c.period_id)) closing_run_exists) _ h6 in
    let (u8, e8, h8) =
      >>=-eq-ok (raise_if (has_standing (s.runs c.period_id)) integrity_error) _ h7 in
    let ((ledger, entries), e9, h9) = >>=-eq-ok (generate_closing_entries u c s.ledger) _ h8 in
    let e = sym (ok-injective h9) in
    record {
      period = p;
      found = or_raise-eq-ok _ _ e1;
      entries = entries;
      generated = ledger;
      is_generated = e9;
      ledger = ap (λ z. z.0.ledger) e;
      journal = ap (λ z. journal_of (z.0.runs c.period_id)) e ∙ rw (==_refl c.period_id) refl;
    }

-- An accepted reopening, taken apart.
record Reopened (c : ReopenFiscalPeriodCommand) (today : Date) (s t : Closings) : Type 0 where
  period : AccountingPeriod
  after : Ledger × Option ℕ
  reversed : reverse_closing (journal_of (s.runs c.period_id)) today s.ledger ≡ ok after
  ledger : t.ledger ≡ set_period c.period_id (record period { is_open = true }) after.0
  runs : t.runs ≡ set_row c.period_id (roll_back (s.runs c.period_id)) s.runs
  checklists : t.checklists ≡ set_row c.period_id (reset (s.checklists c.period_id)) s.checklists

reopen_fiscal_period-Reopened :
    (c : ReopenFiscalPeriodCommand) (today : Date) (s t : Closings) (r : ReopenedPeriod)
    → reopen_fiscal_period c today s ≡ ok (t, r)
    → Reopened c today s t
unfolding reopen_fiscal_period
reopen_fiscal_period-Reopened c today s t r h =
    let (p, e1, h1) =
      >>=-eq-ok (or_raise (lookup c.period_id s.ledger.calendar.periods) value_error) _ h in
    let (u2, e2, h2) = >>=-eq-ok (raise_if p.is_open period_not_closed) _ h1 in
    let (u3, e3, h3) =
      >>=-eq-ok (raise_if (not c.force && s.signed_off c.period_id) period_signed_off) _ h2 in
    let (after, e4, h4) =
      >>=-eq-ok (reverse_closing (journal_of (s.runs c.period_id)) today s.ledger) _ h3 in
    let e = sym (ok-injective h4) in
    record {
      period = p;
      after = after;
      reversed = e4;
      ledger = ap (λ z. z.0.ledger) e;
      runs = ap (λ z. z.0.runs) e;
      checklists = ap (λ z. z.0.checklists) e;
    }

-- Reversing what a generation posted restores the balances, whatever happened to the calendar.
reverse_generated :
    (s t later u : Ledger) (r : ClosingEntriesResult) (today : Date) (key : Option ℕ)
    → IsLedger s
    → ((t ≡ s) × (r.journal_entry_id ≡ none)) ⊎ Entry s t r
    → later.entries ≡ t.entries
    → later.next_pk ≡ t.next_pk
    → reverse_closing r.journal_entry_id today later ≡ ok (u, key)
    → (a : ℕ) → balance a u.entries ≡ balance a s.entries
reverse_generated s t later u r today key v (inl (same, no_entry)) rows next h a =
    let e = ok-injective (rw no_entry at h) in
    ap (λ z. balance a z.0.entries) (sym e)
    ∙ ap (balance a) rows
    ∙ ap (λ z. balance a z.entries) same
reverse_generated s t later u r today key v (inr x) rows next h a =
    let ((after, k), e1, h1) =
      >>=-eq-ok (reverse_journal_entry x.posted.entry_id today later) _ (rw x.key at h) in
    let (back, _) =
      post-reverse_later x.command s t later after x.posted today k v x.valid x.is_posted rows next
        e1 in
    ap (λ z. balance a z.0.entries) (sym (ok-injective h1)) ∙ back a

-- When a period is closed and then reopened, the balance of every account is what it was before the
-- closing, the run of the closing is marked as rolled back and the checklist as incomplete.
pub close-reopen :
    (u : Unicode) (c : GenerateClosingEntriesCommand) (d : ReopenFiscalPeriodCommand) (today : Date)
    (s t v : Closings) (r : ClosedPeriod) (x : ReopenedPeriod)
    → IsLedger s.ledger
    → d.period_id ≡ c.period_id
    → close_fiscal_period u c s ≡ ok (t, r)
    → reopen_fiscal_period d today t ≡ ok (v, x)
    → ((a : ℕ) → balance a v.ledger.entries ≡ balance a s.ledger.entries)
      × (v.runs c.period_id ≡ roll_back (t.runs c.period_id))
      × (v.checklists c.period_id ≡ reset (t.checklists c.period_id))
close-reopen u c d today s t v r x w same h k =
    let a = close_fiscal_period-Closed u c s t r h in
    let b = reopen_fiscal_period-Reopened d today t v x k in
    let g =
      generate_closing_entries-Generated u c a.period s.ledger a.generated a.entries a.found
        a.is_generated in
    let cases =
      close_balances-cases c a.period g.currency (incomes_of s.ledger a.period)
        (expenses_of s.ledger a.period) s.ledger a.generated a.entries g.closed in
    let journal : journal_of (t.runs d.period_id) ≡ a.entries.journal_entry_id =
      ap (λ z. journal_of (t.runs z)) same ∙ a.journal in
    let reversal : reverse_closing a.entries.journal_entry_id today t.ledger ≡ ok b.after =
      subst (λ z. reverse_closing z today t.ledger ≡ ok b.after) journal b.reversed in
    (
      λ n.
          ap (λ z. balance n z.entries) b.ledger
          ∙ reverse_generated s.ledger a.generated t.ledger b.after.0 a.entries today b.after.1 w
              cases (ap (λ z. z.entries) a.ledger) (ap (λ z. z.next_pk) a.ledger) reversal n,
      rw (b.runs, same, ==_refl c.period_id) refl,
      rw (b.checklists, same, ==_refl c.period_id) refl,
    )

-- Once a period is closed, no date of its month is open for posting, and closing it again is
-- refused.
pub close_fiscal_period-locks :
    (u : Unicode) (c : GenerateClosingEntriesCommand) (s t : Closings) (r : ClosedPeriod)
    (p : AccountingPeriod) (d : Date)
    → lookup c.period_id s.ledger.calendar.periods ≡ some p
    → covers d p ≡ true
    → close_fiscal_period u c s ≡ ok (t, r)
    → (is_ok (assert_period_open d t.ledger.calendar) ≡ false)
      × (close_fiscal_period u c t ≡ err period_already_closed)
unfolding close_fiscal_period assert_period_open
close_fiscal_period-locks u c s t r p d found inside h =
    let a = close_fiscal_period-Closed u c s t r h in
    let same : a.period ≡ p = some-injective _ _ (sym a.found ∙ found) in
    let row = record (a.period) { is_open = false } in
    let rows : t.ledger.calendar.periods ≡ insert c.period_id row a.generated.calendar.periods =
      ap (λ z. z.calendar.periods) a.ledger in
    let shut : (covers d row && not row.is_open) ≡ true = rw (same, inside) refl in
    (
      rw
          (
            rows,
            any-insert (λ x. covers d x && not x.is_open) c.period_id row
                a.generated.calendar.periods shut,
          )
          (ground arith),
      rw
          (
            rows,
            lookup-insert c.period_id c.period_id row a.generated.calendar.periods,
            ==_refl c.period_id,
          )
          refl,
    )
