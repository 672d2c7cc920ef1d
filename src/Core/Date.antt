-- ===== src/Core/Date.antt =====
-- The dates of Python's `datetime` and the months of its `calendar`.
use gs_erp.Base.{ℕ, Bool, not, ◌&&◌, ◌||◌, ltb, ◌==◌}

-- A date, by its year, month and day.
pub record Date : Type 0 where
  pub year : ℕ
  pub month : ℕ
  pub day : ℕ

-- `a <= b` and `a < b` on dates: by year, then month, then day.
abbrev pub before : Date → Date → Bool
before a b =
    ltb a.year b.year
    || (a.year == b.year && (ltb a.month b.month || (a.month == b.month && ltb a.day b.day)))

abbrev pub not_after : Date → Date → Bool
not_after a b = not (before b a)
