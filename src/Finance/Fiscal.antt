-- ===== src/Finance/Fiscal.antt =====
-- Fiscal years and accounting periods of apps/finance/infrastructure/fiscal_year_models.py, and
-- `CloseFiscalYear` and `GenerateFiscalPeriods` of apps/finance/application/use_cases.
pub mod Months
pub mod Generate
use gs_erp.Base.{
  any-insert, ℕ, ◌+◌, ◌≡◌, refl, sym, ap, Bool, true, false, not, ◌&&◌, Option, none, some, [], ◌∷◌,
  arith, ◌==◌, if◌then◌else◌, ==_refl, any, Result, ok, err, ◌>>=◌, ◌>>◌, guard, raise_if, or_raise,
  >>=-eq-ok, Table, lookup, insert, lookup-insert, account_not_found, period_closed, ok-injective,
}
use gs_erp.Core.Date.{Date, not_after}

pub record FiscalYear : Type 0 where
  pub start_date : Date
  pub end_date : Date
  pub is_open : Bool

pub record AccountingPeriod : Type 0 where
  pub fiscal_year : ℕ
  pub period_year : ℕ
  pub period_month : ℕ
  pub start_date : Date
  pub end_date : Date
  pub is_open : Bool

pub record FiscalCalendar : Type 0 where
  pub fiscal_years : Table FiscalYear
  pub periods : Table AccountingPeriod
  pub next_period : ℕ

-- `FiscalYear.objects.filter(start_date__lte=d, end_date__gte=d, status=CLOSED)`
abbrev pub is_closed_year : Date → FiscalYear → Bool
is_closed_year d y = not_after y.start_date d && not_after d y.end_date && not y.is_open

-- `AccountingPeriod.objects.filter(period_year=d.year, period_month=d.month)`
abbrev pub covers : Date → AccountingPeriod → Bool
covers d p = p.period_year == d.year && p.period_month == d.month

-- `_assert_period_open`
unfoldable pub assert_period_open : Date → FiscalCalendar → Result (Unit {0})
assert_period_open d c = do
  raise_if (any (λ e. is_closed_year d e.1) c.fiscal_years) period_closed
  raise_if (any (λ e. covers d e.1 && not e.1.is_open) c.periods) period_closed

-- `_find_open_period_id`
unfoldable pub find_open_period_id : Date → Table AccountingPeriod → Option ℕ
find_open_period_id d [] = none
find_open_period_id d ((k, p) ∷ ps) =
    if covers d p && p.is_open then some k else find_open_period_id d ps

-- `update(status=CLOSED)` of the open periods of a year.
abbrev pub close_periods : ℕ → Table AccountingPeriod → Table AccountingPeriod
close_periods year [] = []
close_periods year ((k, p) ∷ ps) =
    (k, (if p.fiscal_year == year && p.is_open then record p { is_open = false } else p))
    ∷ close_periods year ps

-- How many rows that update writes.
abbrev pub count_open : ℕ → Table AccountingPeriod → ℕ
count_open year [] = 0
count_open year ((k, p) ∷ ps) =
    (if p.fiscal_year == year && p.is_open then 1 else 0) + count_open year ps

-- `CloseFiscalYear.execute`
unfoldable pub close_fiscal_year : ℕ → FiscalCalendar → Result (FiscalCalendar × ℕ)
close_fiscal_year fiscal_year_id c = do
  fy ← or_raise (lookup fiscal_year_id c.fiscal_years) account_not_found
  guard fy.is_open period_closed
  ok (
    record c {
      periods = close_periods fiscal_year_id c.periods;
      fiscal_years = insert fiscal_year_id (record fy { is_open = false }) c.fiscal_years;
    },
    count_open fiscal_year_id c.periods,
  )

-- Once a fiscal year is closed, no date inside it is open for posting, and closing the year again
-- is refused.
pub close_fiscal_year-locks :
    (id : ℕ) (c e : FiscalCalendar) (n : ℕ) (fy : FiscalYear) (d : Date)
    → lookup id c.fiscal_years ≡ some fy
    → not_after fy.start_date d ≡ true
    → not_after d fy.end_date ≡ true
    → close_fiscal_year id c ≡ ok (e, n)
    → (assert_period_open d e ≡ err period_closed) × (close_fiscal_year id e ≡ err period_closed)
unfolding close_fiscal_year assert_period_open
close_fiscal_year-locks id c e n fy d found from to h =
    let (u, e1, r) = >>=-eq-ok (guard fy.is_open period_closed) _ (rw found at h) in
    let years : e.fiscal_years ≡ insert id (record fy { is_open = false }) c.fiscal_years =
      sym (ap (λ x. x.0.fiscal_years) (ok-injective r)) in
    (
      rw
          (
            years,
            any-insert (is_closed_year d) id (record fy { is_open = false }) c.fiscal_years
                (rw (from, to) refl),
          )
          refl,
      rw (years, lookup-insert id id (record fy { is_open = false }) c.fiscal_years, ==_refl id)
          refl,
    )
