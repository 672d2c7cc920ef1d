-- ===== src/Core/Currency.antt =====
-- `Currency` of apps/core/domain/value_objects.py.
use gs_erp.Base.{
  ℕ, ◌≡◌, ◌↔◌, String, Bool, List, not, ◌&&◌, length, all, any, arith, ◌==◌, leb_ℤ, ℤ, pos,
  pos_part, codes, str_eq, eq_iff, Result, ok, guard, invalid_currency, ◌>>◌, true,
}

pub record Currency : Type 0 where
  pub code : String
  pub minor_units : ℕ

-- The character classes of the Unicode database that `str.isalpha` and `str.isupper` read.
pub record Unicode : Type 0 where
  pub is_alpha : ℕ → Bool
  pub is_upper : ℕ → Bool
  pub is_lower_or_title : ℕ → Bool

abbrev pub isalpha : Unicode → List ℕ → Bool
isalpha u s = leb_ℤ (pos 1) (pos (length s)) && all u.is_alpha s

abbrev pub isupper : Unicode → List ℕ → Bool
isupper u s = any u.is_upper s && not (any u.is_lower_or_title s)

-- `Currency(code, minor_units)`: `__post_init__`
unfoldable pub make_currency : Unicode → String → ℤ → Result Currency
make_currency u code minor_units = do
  let s = codes code
  guard (length s == 3 && isalpha u s && isupper u s) invalid_currency
  guard (leb_ℤ (pos 0) minor_units && leb_ℤ minor_units (pos 4)) invalid_currency
  ok (record { code = code; minor_units = pos_part minor_units })

-- The equality of the frozen dataclass.
abbrev pub same_currency : Currency → Currency → Bool
same_currency a b = str_eq a.code b.code && a.minor_units == b.minor_units

pub same_currency_iff : (a b : Currency) → (same_currency a b ≡ true) ↔ (a ≡ b)
same_currency_iff a b = ground (arith, eq_iff a.code b.code)

pub same_currency_refl : (a : Currency) → same_currency a a ≡ true
same_currency_refl a = (same_currency_iff a a).1 (λ i. a)
