-- ===== src/Base/Text.antt =====
-- What the source does with text: `not s.strip()`, and comparison.
use Prim.Native.Nat.{ℕ, zero, suc, ◌/◌, ◌%◌, ◌<◌}
use Prim.Native.Char.{code}
use Prim.Native.String.{String, ◌++◌, char_at}
use mathlib.Core.List.{List, [], ◌∷◌}
use mathlib.Core.Bool.{Bool, true, false, ◌&&◌, ◌||◌}
use gs_erp.Base.Tests.{leb, ltb, ◌==◌, if◌then◌else◌, Bool-cases}
use native.Mathlib.Omega.{arith}
use text.Mathlib.Text.{◌==◌ as str_eq}
use text.Mathlib.TextEquality.{eq_iff}
use mathlib.Core.Path.{◌≡◌, refl}
use mathlib.Core.Logic.{inl, inr}

-- The code points that `str.strip` removes (`str.isspace`).
unfoldable pub is_space : ℕ → Bool
is_space c =
    (leb 9 c && leb c 13)
    || (leb 28 c && leb c 32)
    || c == 0x85
    || c == 0xa0
    || c == 0x1680
    || (leb 0x2000 c && leb c 0x200a)
    || c == 0x2028
    || c == 0x2029
    || c == 0x202f
    || c == 0x205f
    || c == 0x3000

-- `not s.strip()`
unfoldable pub is_blank : String → Bool
unfolding is_space
is_blank String.[] = true
is_blank (String.◌∷◌ c s) = is_space (code c) && is_blank s

-- `not s`
abbrev pub is_empty_text : String → Bool
is_empty_text String.[] = true
is_empty_text (String.◌∷◌ c s) = false

-- The code points of a text.
abbrev pub codes : String → List ℕ
codes String.[] = []
codes (String.◌∷◌ c s) = code c ∷ codes s

-- `str` of a digit
abbrev digit : ℕ → String
digit d = String.◌∷◌ (char_at "0123456789" d) ""

-- The decimal digits of a number below the fuel.
unfoldable digits : ℕ → ℕ → String
digits zero n = ""
digits (suc fuel) n =
    let rest = digits fuel (n / 10) in if ltb n 10 then digit n else rest ++ digit (n % 10)

-- `str` of a number
unfoldable pub str : ℕ → String
unfolding digits
str n = digits (suc n) n

-- `f"{n:02d}"`
unfoldable pub two_digits : ℕ → String
unfolding str
two_digits n = if ltb n 10 then "0" ++ str n else str n

-- `f"{n:06d}"`
unfoldable pub six_digits : ℕ → String
unfolding str
six_digits n =
    if ltb n 10
    then "00000" ++ str n
    else if ltb n 100
    then "0000" ++ str n
    else if ltb n 1000
    then "000" ++ str n
    else if ltb n 10000
    then "00" ++ str n
    else if ltb n 100000
    then "0" ++ str n
    else str n

digits_fuel : (f g n : ℕ) → n < f → n < g → digits f n ≡ digits g n
unfolding digits
digits_fuel zero g n h k = ground arith
digits_fuel (suc f) zero n h k = ground arith
digits_fuel (suc f) (suc g) n h k = elim (Bool-cases (ltb n 10)) [
  | inl small ↦ rw small refl
  | inr large ↦ rw (large, digits_fuel f g (n / 10) (ground arith) (ground arith)) refl
]

-- The fuel is enough: a number prints as the digits of its tenth before its last digit.
pub str_lem : (n : ℕ) → str n ≡ (if ltb n 10 then digit n else str (n / 10) ++ digit (n % 10))
unfolding str digits
str_lem n = elim (Bool-cases (ltb n 10)) [
  | inl small ↦ rw small refl
  | inr large ↦ rw (large, digits_fuel n (suc (n / 10)) (n / 10) (ground arith) (omega arith)) refl
]

pub str_eq_refl : (s : String) → str_eq s s ≡ true
str_eq_refl s = let b = eq_iff s s in ground (arith, b)
