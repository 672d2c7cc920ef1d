-- ===== src/Finance/Fiscal/Months.antt =====
-- `GenerateFiscalPeriods` of apps/finance/application/use_cases/generate_fiscal_periods.py. Python's
-- `date` ends with the year 9999: beyond it the loop raises `ValueError`.
use gs_erp.Base.{
  ℕ, zero, suc, ◌+◌, ◌-◌, ◌*◌, ◌%◌, ◌≡◌, Bool, true, not, ◌&&◌, ◌||◌, List, [], ◌∷◌, arith, ◌==◌,
  if◌then◌else◌, Result, ok, err, ◌>>=◌, value_error, ltb, map, ◌≤◌, All, ◌<◌, false, Bool-cases,
  inl, ap, inr, refl,
}
use gs_erp.Core.Date.{Date, before, not_after}

-- `max(a, b)` and `min(a, b)`
abbrev later : Date → Date → Date
later a b = if before a b then b else a

abbrev earlier : Date → Date → Date
earlier a b = if before b a then b else a

abbrev is_leap : ℕ → Bool
is_leap y = y % 4 == 0 && (not (y % 100 == 0) || y % 400 == 0)

-- `calendar.monthrange(year, month)[1]`
abbrev last_day : ℕ → ℕ → ℕ
last_day y m =
    if m == 2
    then (if is_leap y then 29 else 28)
    else if m == 4 || m == 6 || m == 9 || m == 11
    then 30
    else 31

-- One entry of the list: a month and what the fiscal year covers of it.
pub record Month : Type 0 where
  pub year : ℕ
  pub month : ℕ
  pub start : Date
  pub end : Date

abbrev month_of : Date → Date → ℕ → ℕ → Month
month_of start end y m = record {
  year = y;
  month = m;
  start = later (record { year = y; month = m; day = 1 }) start;
  end = earlier (record { year = y; month = m; day = last_day y m }) end;
}

-- The loop from a month on. Each round takes one month, so the fuel is the number of months before
-- the year 10000, at which `date` raises.
unfoldable walk : ℕ → Date → Date → ℕ → ℕ → Result (List Month)
walk zero start end y m = err value_error
walk (suc fuel) start end y m =
    let rest =
      if ltb 12 (suc m) then walk fuel start end (suc y) 1 else walk fuel start end y (suc m) in
    if y == end.year && m == end.month
    then ok (month_of start end y m ∷ [])
    else (do ms ← rest; ok (month_of start end y m ∷ ms))

-- `_months_in_range`
unfoldable pub months_in_range : Date → Date → Result (List Month)
unfolding walk
months_in_range start end =
    walk (12 * 10000 - (12 * start.year + (start.month - 1))) start end start.year start.month

-- The number of a month, counted from the year 0.
abbrev pub number : ℕ → ℕ → ℕ
number y m = 12 * y + m

-- Consecutive numbers.
abbrev pub count_up : ℕ → ℕ → List ℕ
count_up a zero = []
count_up a (suc n) = a ∷ count_up (suc a) n

-- What a fiscal year covers of a month lies in the year.
pub record IsInside (start end : Date) (m : Month) : Type 0 where
  pub from : not_after start m.start ≡ true
  pub to : not_after m.end end ≡ true

month_of-IsInside : (start end : Date) (y m : ℕ) → IsInside start end (month_of start end y m)
month_of-IsInside start end y m = record {
  from = later_lem (record { year = y; month = m; day = 1 }) start;
  to = earlier_lem (record { year = y; month = m; day = last_day y m }) end;
}
  where
    later_lem : (a b : Date) → not_after b (later a b) ≡ true
    later_lem a b = grind arith

    earlier_lem : (a b : Date) → not_after (earlier a b) b ≡ true
    earlier_lem a b = grind arith

abbrev pub number_of : Month → ℕ
number_of m = number m.year m.month

-- What the loop returns from a month that lies `n` months before the last one.
abbrev Counted : Date → Date → ℕ → ℕ → Result (List Month) → Type 0
Counted start end a n r =
    (ms : List Month) × (r ≡ ok ms)
    × (map number_of ms ≡ count_up a (suc n))
    × All (IsInside start end) ms

walk_counts :
    (n fuel : ℕ) (start end : Date) (y m : ℕ)
    → 1 ≤ m
    → m ≤ 12
    → 1 ≤ end.month
    → end.month ≤ 12
    → number y m + n ≡ number end.year end.month
    → n < fuel
    → Counted start end (number y m) n (walk fuel start end y m)
unfolding walk
walk_counts n zero start end y m a b c d e f = absurd (omega (arith, f))
walk_counts zero (suc fuel) start end y m a b c d e f =
    let last : (y == end.year && m == end.month) ≡ true = ground arith in
    (month_of start end y m ∷ [], rw last refl, refl, (month_of-IsInside start end y m, tt))
walk_counts (suc n) (suc fuel) start end y m a b c d e f =
    let more : (y == end.year && m == end.month) ≡ false = ground arith in
    elim (Bool-cases (ltb 12 (suc m))) [
      | inl over ↦
          let twelve : m ≡ 12 = ground arith in
          let (ms, g, counted, inside) =
            walk_counts n fuel start end (suc y) 1 (omega arith) (omega arith) c d
              (omega (arith, e, twelve)) (omega (arith, f)) in
          let same : number (suc y) 1 ≡ suc (number y m) = omega (arith, twelve) in
          (
            month_of start end y m ∷ ms,
            rw (more, over, g) refl,
            rw counted (ap (λ x. number y m ∷ count_up x (suc n)) same),
            (month_of-IsInside start end y m, inside),
          )
      | inr within ↦
          let (ms, g, counted, inside) =
            walk_counts n fuel start end y (suc m) (omega arith) (ground arith) c d
              (omega (arith, e)) (omega (arith, f)) in
          let same : number y (suc m) ≡ suc (number y m) = omega arith in
          (
            month_of start end y m ∷ ms,
            rw (more, within, g) refl,
            rw counted (ap (λ x. number y m ∷ count_up x (suc n)) same),
            (month_of-IsInside start end y m, inside),
          )
    ]

-- For a fiscal year that ends no earlier than the month in which it starts, and not after the year
-- 9999, the loop ends and returns each month from the first to the last exactly once, in order;
-- what it takes of each month lies inside the fiscal year.
pub months_in_range_complete :
    (start end : Date)
    → 1 ≤ start.month
    → start.month ≤ 12
    → 1 ≤ end.month
    → end.month ≤ 12
    → end.year ≤ 9999
    → number start.year start.month ≤ number end.year end.month
    → (ms : List Month) × (months_in_range start end ≡ ok ms)
      × (map number_of ms
          ≡ count_up
              (number start.year start.month)
              (suc (number end.year end.month - number start.year start.month)))
      × All (IsInside start end) ms
unfolding months_in_range
months_in_range_complete start end a b c d last le =
    let n = number end.year end.month - number start.year start.month in
    walk_counts n (12 * 10000 - (12 * start.year + (start.month - 1))) start end start.year
      start.month a b c d (omega (arith, le)) (omega (arith, le, last, d, a))
