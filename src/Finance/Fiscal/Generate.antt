-- ===== src/Finance/Fiscal/Generate.antt =====
-- `GenerateFiscalPeriods.execute` of
-- apps/finance/application/use_cases/generate_fiscal_periods.py.
use gs_erp.Base.{
  subst, ℕ, suc, ◌+◌, ◌≡◌, refl, ap, ◌∙◌, inl, inr, Bool, true, ◌&&◌, List, [], ◌∷◌, ◌++◌, arith,
  ◌==◌, if◌then◌else◌, ==_refl, Bool-cases, length, any, All, Result, ok, ◌>>=◌, ◌>>◌, raise_if,
  or_raise, >>=-eq-ok, Table, lookup, account_not_found, integrity_error, each, ok-injective, some,
  or_raise-eq-ok,
}
use gs_erp.Finance.Fiscal.{FiscalYear, AccountingPeriod, FiscalCalendar}
use gs_erp.Finance.Fiscal.Months.{Month, months_in_range}

-- The variables of the loop.
pub record GeneratedFiscalPeriods : Type 0 where
  pub calendar : FiscalCalendar
  pub created : ℕ
  pub skipped : ℕ

abbrev is_period : ℕ → Month → AccountingPeriod → Bool
is_period fy m p = p.fiscal_year == fy && p.period_year == m.year && p.period_month == m.month

-- The row that `get_or_create` finds.
abbrev has_period : ℕ → Month → Table AccountingPeriod → Bool
has_period fy m periods = any (λ e. is_period fy m e.1) periods

-- The constraint that a month has one period in an organization.
abbrev is_taken : Month → Table AccountingPeriod → Bool
is_taken m periods = any (λ e. e.1.period_year == m.year && e.1.period_month == m.month) periods

abbrev new_period : ℕ → Month → AccountingPeriod
new_period fy m = record {
  fiscal_year = fy;
  period_year = m.year;
  period_month = m.month;
  start_date = m.start;
  end_date = m.end;
  is_open = true;
}

-- `AccountingPeriod.objects.get_or_create`, and the count that follows it. A new row has a new key.
unfoldable pub get_or_create : ℕ → GeneratedFiscalPeriods → Month → Result GeneratedFiscalPeriods
get_or_create fy g m =
    if has_period fy m g.calendar.periods then ok (record g { skipped = suc g.skipped }) else (do
      raise_if (is_taken m g.calendar.periods) integrity_error
      ok (record g {
        calendar = record (g.calendar) {
          periods = g.calendar.periods ++ (g.calendar.next_period, new_period fy m) ∷ [];
          next_period = suc g.calendar.next_period;
        };
        created = suc g.created;
      }))

unfoldable pub generate_fiscal_periods : ℕ → FiscalCalendar → Result GeneratedFiscalPeriods
unfolding get_or_create
generate_fiscal_periods fiscal_year_id c = do
  fy ← or_raise (lookup fiscal_year_id c.fiscal_years) account_not_found
  months ← months_in_range fy.start_date fy.end_date
  each (get_or_create fiscal_year_id) (record { calendar = c; created = 0; skipped = 0 }) months

any-append :
    {A : Type 0} (f : A → Bool) (xs ys : List A) → any f xs ≡ true → any f (xs ++ ys) ≡ true
any-append f [] ys h = cc
any-append f (x ∷ xs) ys h = grind (arith, any-append f xs ys)

any-append_last :
    {A : Type 0} (f : A → Bool) (xs : List A) (y : A) → f y ≡ true → any f (xs ++ y ∷ []) ≡ true
any-append_last f [] y h = rw h refl
any-append_last f (x ∷ xs) y h = grind (arith, any-append_last f xs y h)

-- One round of the loop.
record Round (fy : ℕ) (m : Month) (g h : GeneratedFiscalPeriods) : Type 0 where
  years : h.calendar.fiscal_years ≡ g.calendar.fiscal_years
  counted : h.created + h.skipped ≡ suc (g.created + g.skipped)
  present : has_period fy m h.calendar.periods ≡ true
  kept :
      (k : Month)
      → has_period fy k g.calendar.periods ≡ true
      → has_period fy k h.calendar.periods ≡ true

get_or_create-Round :
    (fy : ℕ) (m : Month) (g h : GeneratedFiscalPeriods)
    → get_or_create fy g m ≡ ok h
    → Round fy m g h
unfolding get_or_create
get_or_create-Round fy m g h done = elim (Bool-cases (has_period fy m g.calendar.periods)) [
  | inl there ↦
      let e = ok-injective (rw there at done) in
      subst (Round fy m g) e
        (record { years = refl; counted = omega arith; present = there; kept = λ k p. p })
  | inr fresh ↦
      let (u, _, r) =
        >>=-eq-ok (raise_if (is_taken m g.calendar.periods) integrity_error) _ (rw fresh at done) in
      let mine : is_period fy m (new_period fy m) ≡ true =
        rw (==_refl fy, ==_refl m.year, ==_refl m.month) refl in
      subst (Round fy m g) (ok-injective r) (record {
        years = refl;
        counted = omega arith;
        present =
            any-append_last (λ e. is_period fy m e.1) g.calendar.periods
              (g.calendar.next_period, new_period fy m) mine;
        kept = λ k p. any-append (λ e. is_period fy k e.1) g.calendar.periods _ p;
      })
]

-- The whole loop.
record Rounds (fy : ℕ) (ms : List Month) (g h : GeneratedFiscalPeriods) : Type 0 where
  years : h.calendar.fiscal_years ≡ g.calendar.fiscal_years
  counted : h.created + h.skipped ≡ length ms + (g.created + g.skipped)
  present : All (λ m. has_period fy m h.calendar.periods ≡ true) ms
  kept :
      (k : Month)
      → has_period fy k g.calendar.periods ≡ true
      → has_period fy k h.calendar.periods ≡ true

loop-Rounds :
    (fy : ℕ) (ms : List Month) (g h : GeneratedFiscalPeriods)
    → each (get_or_create fy) g ms ≡ ok h
    → Rounds fy ms g h
loop-Rounds fy [] g h done =
    subst (Rounds fy [] g) (ok-injective done)
      (record { years = refl; counted = omega arith; present = tt; kept = λ k p. p })
loop-Rounds fy (m ∷ ms) g h done =
    let (u, e, r) = >>=-eq-ok (get_or_create fy g m) (λ u. each (get_or_create fy) u ms) done in
    let one = get_or_create-Round fy m g u e in
    let rest = loop-Rounds fy ms u h r in
    record {
      years = rest.years ∙ one.years;
      counted = omega (arith, rest.counted, one.counted);
      present = (rest.kept m one.present, rest.present);
      kept = λ k p. rest.kept k (one.kept k p);
    }

-- Months that are all there are skipped.
loop_skips :
    (fy : ℕ) (ms : List Month) (g : GeneratedFiscalPeriods)
    → All (λ m. has_period fy m g.calendar.periods ≡ true) ms
    → each (get_or_create fy) g ms ≡ ok (record g { skipped = length ms + g.skipped })
unfolding get_or_create
loop_skips fy [] g h =
    let e : g.skipped ≡ 0 + g.skipped = omega arith in ap (λ n. ok (record g { skipped = n })) e
loop_skips fy (m ∷ ms) g (here, rest) =
    let e : length ms + suc g.skipped ≡ suc (length ms) + g.skipped = omega arith in
    rw here (
      loop_skips fy ms (record g { skipped = suc g.skipped }) rest
      ∙ ap (λ n. ok (record g { skipped = n })) e)

-- A run over the months of the year.
generate_fiscal_periods_lem :
    (id : ℕ) (c : FiscalCalendar) (fy : FiscalYear) (ms : List Month)
    → lookup id c.fiscal_years ≡ some fy
    → months_in_range fy.start_date fy.end_date ≡ ok ms
    → generate_fiscal_periods id c
      ≡ each (get_or_create id) (record { calendar = c; created = 0; skipped = 0 }) ms
unfolding generate_fiscal_periods
generate_fiscal_periods_lem id c fy ms h k = rw (h, k) refl

-- Generating the periods of a year again creates none and changes nothing: it skips as many months
-- as the first run created and skipped.
pub generate_fiscal_periods_twice :
    (id : ℕ) (c : FiscalCalendar) (g : GeneratedFiscalPeriods)
    → generate_fiscal_periods id c ≡ ok g
    → generate_fiscal_periods id g.calendar
      ≡ ok (record { calendar = g.calendar; created = 0; skipped = g.created + g.skipped })
unfolding generate_fiscal_periods
generate_fiscal_periods_twice id c g done =
    let (fy, e1, h1) = >>=-eq-ok (or_raise (lookup id c.fiscal_years) account_not_found) _ done in
    let (ms, e2, h2) = >>=-eq-ok (months_in_range fy.start_date fy.end_date) _ h1 in
    let all = loop-Rounds id ms (record { calendar = c; created = 0; skipped = 0 }) g h2 in
    let n : length ms + 0 ≡ g.created + g.skipped = omega (arith, all.counted) in
    let found : lookup id g.calendar.fiscal_years ≡ some fy =
      ap (lookup id) all.years ∙ or_raise-eq-ok (lookup id c.fiscal_years) account_not_found e1 in
    generate_fiscal_periods_lem id g.calendar fy ms found e2
    ∙ loop_skips id ms (record { calendar = g.calendar; created = 0; skipped = 0 }) all.present
    ∙ ap (λ k. ok (record { calendar = g.calendar; created = 0; skipped = k })) n
