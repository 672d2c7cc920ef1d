-- ===== src/Finance/Closing/Effect.antt =====
-- A closing takes each income and expense account to zero over its period, and moves the net income
-- to the retained earnings.
use mathlib.Core.Option.{some-injective}
use gs_erp.Base.{
  subst, ℕ, ◌≡◌, refl, sym, ap, ◌∙◌, ◌⊎◌, inl, inr, Bool, true, false, ◌&&◌, ◌||◌, none, some, [],
  ◌∷◌, arith, ◌==◌, if◌then◌else◌, ==_iff, Bool-cases, is_empty, ℤ, pos, ◌+ℤ◌, neg, int_laws,
  +ℤ_zero, ok, guard, or_raise, >>=-eq-ok, Table, lookup, value_error, ok-injective, or_raise-eq-ok,
}
use gs_erp.Core.Currency.{Currency, Unicode, make_currency}
use gs_erp.Finance.Journal.{make_draft, make_draft-IsDraft, IsDraft}
use gs_erp.Finance.Fiscal.{AccountingPeriod}
use gs_erp.Finance.Ledger.{Ledger, PostedJournalEntry, is_used}
use gs_erp.Finance.Ledger.Sums.{balance}
use gs_erp.Finance.Ledger.Balance.{draft_net, post_journal_entry-Posting}
use gs_erp.Finance.Ledger.History.{IsLedger}
use gs_erp.Finance.Posting.{command_of, post_journal_entry-Adds}
use gs_erp.Finance.Closing.{
  GenerateClosingEntriesCommand, ClosingEntriesResult, is_income, is_expense, is_equity, is_closing,
  net_balance, net_income_of, closing_reference, closing_lines, closing_draft, post_closing,
  close_balances, generate_closing_entries, JournalEntryDraft,
}
use gs_erp.Finance.Closing.Totals.{at_sum, IsOnce}
use gs_erp.Finance.Closing.Net.{closed_at, closing, closing_lines-net}

absent :
    (normal : ℤ → Bool) (a : ℕ) (t : Table ℤ)
    → lookup a t ≡ none
    → (at_sum a t ≡ pos 0) × (closed_at normal a t ≡ pos 0)
absent normal a [] h = (refl, refl)
absent normal a ((k, v) ∷ t) h = elim (Bool-cases (k == a)) [
  | inl same ↦ cc (rw same at h)
  | inr other ↦
      let (s, c) = absent normal a t (rw other at h) in
      (rw (other, s) (omega int_laws), rw (other, c) (nothing (normal v)))
]
  where
    nothing : (b : Bool) → (if b then pos 0 else pos 0) +ℤ pos 0 ≡ pos 0
    nothing true = omega int_laws
    nothing false = omega int_laws

-- A balance that passes the test, or is zero, is closed whole.
pub closed_whole :
    (normal : ℤ → Bool) (a : ℕ) (t : Table ℤ)
    → IsOnce t
    → (normal (at_sum a t) ≡ true) ⊎ (at_sum a t ≡ pos 0)
    → closed_at normal a t ≡ neg (at_sum a t)
closed_whole normal a [] o h = refl
closed_whole normal a ((k, v) ∷ t) (gone, o) h = elim (Bool-cases (k == a)) [
  | inl same ↦
      let (s, c) = absent normal a t (ap (λ x. lookup x t) (sym ((==_iff k a).0 same)) ∙ gone) in
      let at : at_sum a ((k, v) ∷ t) ≡ v = rw (same, s) (+ℤ_zero v) in
      let fits : (normal v ≡ true) ⊎ (v ≡ pos 0) =
        subst (λ x. (normal x ≡ true) ⊎ (x ≡ pos 0)) at h in
      ap (λ x. x) (rw (same, c) (one (normal v) v fits)) ∙ ap neg (sym at)
  | inr other ↦
      let at : at_sum a ((k, v) ∷ t) ≡ at_sum a t = rw other (zero_left (at_sum a t)) in
      let fits = subst (λ x. (normal x ≡ true) ⊎ (x ≡ pos 0)) at h in
      rw other (skip (normal v) (closed_at normal a t))
      ∙ closed_whole normal a t o fits
      ∙ ap neg (sym at)
]
  where
    zero_left : (x : ℤ) → pos 0 +ℤ x ≡ x
    zero_left x = omega int_laws

    skip : (b : Bool) (x : ℤ) → (if b then pos 0 else pos 0) +ℤ x ≡ x
    skip true x = omega int_laws
    skip false x = omega int_laws

    one :
        (b : Bool) (x : ℤ)
        → (b ≡ true) ⊎ (x ≡ pos 0)
        → (if b then neg x else pos 0) +ℤ pos 0 ≡ neg x
    one true x f = +ℤ_zero (neg x)
    one false x (inl f) = cc
    one false x (inr f) = rw f (omega int_laws)

-- The balances that a closing works on.
abbrev pub incomes_of : Ledger → AccountingPeriod → Table ℤ
incomes_of s p = net_balance (is_closing is_income s.accounts) p.start_date p.end_date s.entries

abbrev pub expenses_of : Ledger → AccountingPeriod → Table ℤ
expenses_of s p = net_balance (is_closing is_expense s.accounts) p.start_date p.end_date s.entries

abbrev pub closing_of : GenerateClosingEntriesCommand → AccountingPeriod → Ledger → ℕ → ℤ
closing_of c p s =
    closing c.income_summary_account_id c.retained_earnings_account_id (incomes_of s p)
      (expenses_of s p)

is_nil : (t : Table ℤ) → is_empty t ≡ true → t ≡ []
is_nil [] h = refl
is_nil (x ∷ t) h = cc

both_empty : (a b : Bool) → (a && b) ≡ true → (a ≡ true) × (b ≡ true)
both_empty a b h = ground arith

nothing_closed : (summary retained a : ℕ) → closing summary retained [] [] a ≡ pos 0
unfolding net_income_of
nothing_closed summary retained a = grind int_laws

post_closing-adds :
    (c : GenerateClosingEntriesCommand) (p : AccountingPeriod) (currency : Currency)
    (incomes expenses : Table ℤ) (s t : Ledger) (r : PostedJournalEntry)
    → IsLedger s
    → post_closing c p currency incomes expenses s ≡ ok (t, r)
    → ((a : ℕ)
        → balance a t.entries
          ≡ balance a s.entries
            +ℤ closing c.income_summary_account_id c.retained_earnings_account_id incomes expenses
                a)
      × IsLedger t
unfolding post_closing
post_closing-adds c p currency incomes expenses s t r v h =
    let (ls, e1, h1) =
      >>=-eq-ok
        (closing_lines c.income_summary_account_id c.retained_earnings_account_id currency incomes
          expenses)
        _ h in
    let (d, e2, h2) = >>=-eq-ok (make_draft (closing_draft p ls)) _ h1 in
    let (is_d, valid) = make_draft-IsDraft (closing_draft p ls) d e2 in
    let (adds, keeps) =
      post_journal_entry-Adds (command_of d "finance.accountingperiod" (some c.period_id)) s t r v
        (subst IsDraft (sym is_d) valid) h2 in
    (
      λ a.
          adds a
          ∙ ap (λ x. balance a s.entries +ℤ x)
              (ap (λ z. draft_net a z.lines) is_d
                ∙ closing_lines-net c.income_summary_account_id c.retained_earnings_account_id
                    currency incomes expenses ls a e1),
      keeps,
    )

close_balances-adds :
    (c : GenerateClosingEntriesCommand) (p : AccountingPeriod) (currency : Currency)
    (incomes expenses : Table ℤ) (s t : Ledger) (r : ClosingEntriesResult)
    → IsLedger s
    → close_balances c p currency incomes expenses s ≡ ok (t, r)
    → ((a : ℕ)
        → balance a t.entries
          ≡ balance a s.entries
            +ℤ closing c.income_summary_account_id c.retained_earnings_account_id incomes expenses
                a)
      × IsLedger t
close_balances-adds c p currency incomes expenses s t r v h =
    elim (Bool-cases (is_empty incomes && is_empty expenses)) [
      | inl none_left ↦
          let (a1, a2) = both_empty (is_empty incomes) (is_empty expenses) none_left in
          let same : t ≡ s = sym (ap (λ z. z.0) (ok-injective (rw none_left at h))) in
          (
            λ a.
                ap (λ z. balance a z.entries) same
                ∙ sym (+ℤ_zero _)
                ∙ ap (λ z. balance a s.entries +ℤ z)
                    (rw (is_nil incomes a1, is_nil expenses a2)
                      (sym (
                        nothing_closed c.income_summary_account_id c.retained_earnings_account_id
                          a))),
            rw same v,
          )
      | inr some_left ↦
          let ((ledger, posted), e6, h6) =
            >>=-eq-ok (post_closing c p currency incomes expenses s) _ (rw some_left at h) in
          let same : t ≡ ledger = sym (ap (λ z. z.0) (ok-injective h6)) in
          let (adds, keeps) =
            post_closing-adds c p currency incomes expenses s ledger posted v e6 in
          (λ a. ap (λ z. balance a z.entries) same ∙ adds a, rw same keeps)
    ]

-- An accepted closing, taken apart.
pub record Generated (c : GenerateClosingEntriesCommand) (p : AccountingPeriod) (s t : Ledger)
    (r : ClosingEntriesResult) : Type 0 where
  pub currency : Currency
  pub closed : close_balances c p currency (incomes_of s p) (expenses_of s p) s ≡ ok (t, r)

pub generate_closing_entries-Generated :
    (u : Unicode) (c : GenerateClosingEntriesCommand) (p : AccountingPeriod) (s t : Ledger)
    (r : ClosingEntriesResult)
    → lookup c.period_id s.calendar.periods ≡ some p
    → generate_closing_entries u c s ≡ ok (t, r)
    → Generated c p s t r
unfolding generate_closing_entries
generate_closing_entries-Generated u c p s t r found h =
    let (q, e0, h0) =
      >>=-eq-ok (or_raise (lookup c.period_id s.calendar.periods) value_error) _ h in
    let same : q ≡ p = some-injective _ _ (sym (or_raise-eq-ok _ _ e0) ∙ found) in
    let (x, e1, h1) =
      >>=-eq-ok (or_raise (s.accounts c.retained_earnings_account_id) value_error) _ h0 in
    let (u2, e2, h2) = >>=-eq-ok (guard (is_equity x.account_type) value_error) _ h1 in
    let (y, e3, h3) =
      >>=-eq-ok (or_raise (s.accounts c.income_summary_account_id) value_error) _ h2 in
    let (u4, e4, h4) =
      >>=-eq-ok (guard (is_equity y.account_type || is_income y.account_type) value_error) _ h3 in
    let (currency, e5, h5) = >>=-eq-ok (make_currency u c.currency_code (pos 2)) _ h4 in
    record {
      currency = currency;
      closed =
          subst (λ z. close_balances c z currency (incomes_of s z) (expenses_of s z) s ≡ ok (t, r))
            same h5;
    }

-- An accepted closing closes each income account with a credit balance over the period and each
-- expense account with a debit balance, leaves on the income summary the other balances of such
-- accounts and nothing else, credits the retained earnings with the net income, changes no other
-- balance, and keeps the ledger's invariant.
pub generate_closing_entries-adds :
    (u : Unicode) (c : GenerateClosingEntriesCommand) (p : AccountingPeriod) (s t : Ledger)
    (r : ClosingEntriesResult)
    → IsLedger s
    → lookup c.period_id s.calendar.periods ≡ some p
    → generate_closing_entries u c s ≡ ok (t, r)
    → ((a : ℕ) → balance a t.entries ≡ balance a s.entries +ℤ closing_of c p s a) × IsLedger t
generate_closing_entries-adds u c p s t r v found h =
    let g = generate_closing_entries-Generated u c p s t r found h in
    close_balances-adds c p g.currency (incomes_of s p) (expenses_of s p) s t r v g.closed

contradiction : {A : Type 0} (b : Bool) → b ≡ true → b ≡ false → A
contradiction b h k = absurd (clash b h k)
  where
    clash : (b : Bool) → b ≡ true → b ≡ false → ⊥
    clash b h k = cc

-- Once an entry with the reference of a period is there, a closing of the period posts nothing more:
-- it changes nothing when it finds no balance, and raises otherwise.
pub generate_closing_entries-once :
    (u : Unicode) (c : GenerateClosingEntriesCommand) (p : AccountingPeriod) (s t : Ledger)
    (r : ClosingEntriesResult)
    → lookup c.period_id s.calendar.periods ≡ some p
    → is_used (closing_reference p) s.entries ≡ true
    → generate_closing_entries u c s ≡ ok (t, r)
    → (t ≡ s) × (r.journal_entry_id ≡ none) × (incomes_of s p ≡ []) × (expenses_of s p ≡ [])
unfolding post_closing
generate_closing_entries-once u c p s t r found used h =
    let g = generate_closing_entries-Generated u c p s t r found h in
    let incomes = incomes_of s p in
    let expenses = expenses_of s p in
    elim (Bool-cases (is_empty incomes && is_empty expenses)) [
      | inl none_left ↦
          let (a1, a2) = both_empty (is_empty incomes) (is_empty expenses) none_left in
          let e = sym (ok-injective (rw none_left at g.closed)) in
          (ap (λ z. z.0) e, ap (λ z. z.1.journal_entry_id) e, is_nil incomes a1, is_nil expenses a2)
      | inr some_left ↦
          let (out, e1, h1) =
            >>=-eq-ok (post_closing c p g.currency incomes expenses s) _
              (rw some_left at g.closed) in
          let (ls, e2, h2) =
            >>=-eq-ok
              (closing_lines c.income_summary_account_id c.retained_earnings_account_id g.currency
                incomes expenses)
              _ e1 in
          let (d, e3, h3) = >>=-eq-ok (make_draft (closing_draft p ls)) _ h2 in
          let (is_d, valid) = make_draft-IsDraft (closing_draft p ls) d e3 in
          let posting =
            post_journal_entry-Posting (command_of d "finance.accountingperiod" (some c.period_id))
              s out.0 out.1 h3 in
          contradiction (is_used (closing_reference p) s.entries) used (
            subst (λ (z : JournalEntryDraft). is_used z.reference s.entries ≡ false) is_d
              posting.unused)
    ]
