-- ===== src/Base/Tables.antt =====
-- A database table, or a `dict`, keyed by numbers.
use Prim.Native.Nat.{ℕ}
use mathlib.Core.Path.{◌≡◌, refl, subst}
use mathlib.Core.Option.{Option, none, some}
use mathlib.Core.List.{List, [], ◌∷◌}
use native.Mathlib.Omega.{arith}
use gs_erp.Base.Tests.{◌==◌, if◌then◌else◌, Bool-cases}
use gs_erp.Base.Lists.{All, any}
use mathlib.Core.Bool.{Bool, true, false, ◌||◌}
use mathlib.Core.Logic.{inl, inr}
use mathlib.Core.Option.{some-injective}
use gs_erp.Base.Int.{ℤ, pos, ◌+ℤ◌, int_laws}

or_true : (b : Bool) → (b || true) ≡ true
or_true true = refl
or_true false = refl

abbrev pub Table {ℓ} : Type ℓ → Type ℓ
Table V = List (ℕ × V)

module _ {ℓ} {V : Type ℓ} where
  -- `objects.filter(pk=k).first()`
  abbrev pub lookup : ℕ → Table V → Option V
  lookup k [] = none
  lookup k ((j, v) ∷ t) = if j == k then some v else lookup k t

  -- `objects.filter(pk=k).update(...)`, or a new row
  abbrev pub insert : ℕ → V → Table V → Table V
  insert k v [] = (k, v) ∷ []
  insert k v (e ∷ t) = if e.0 == k then (k, v) ∷ t else e ∷ insert k v t

  -- `row.delete()`
  abbrev pub erase : ℕ → Table V → Table V
  erase k [] = []
  erase k (e ∷ t) = if e.0 == k then t else e ∷ erase k t

  pub lookup-insert :
      (k j : ℕ) (v : V) (t : Table V)
      → lookup j (insert k v t) ≡ (if k == j then some v else lookup j t)
  lookup-insert k j v [] = refl
  lookup-insert k j v (e ∷ t) = ground (arith, lookup-insert k j v t)

  -- A row that is written is found by every test that it passes.
  pub any-insert :
      (q : V → Bool) (k : ℕ) (v : V) (t : Table V)
      → q v ≡ true
      → any (λ e. q e.1) (insert k v t) ≡ true
  any-insert q k v [] h = rw h refl
  any-insert q k v (e ∷ t) h = elim (Bool-cases (e.0 == k)) [
    | inl same ↦ rw (same, h) refl
    | inr other ↦ rw (other, any-insert q k v t h) (or_true (q e.1))
  ]

-- The sum of a numeric column.
abbrev pub total : Table ℤ → ℤ
total [] = pos 0
total ((k, v) ∷ t) = v +ℤ total t

abbrev pub value_or_zero : Option ℤ → ℤ
value_or_zero none = pos 0
value_or_zero (some v) = v

-- A write moves the sum by the change at its key.
pub total-insert :
    (k : ℕ) (v : ℤ) (t : Table ℤ)
    → total (insert k v t) +ℤ value_or_zero (lookup k t) ≡ total t +ℤ v
total-insert k v [] = omega int_laws
total-insert k v (e ∷ t) = grind (int_laws, total-insert k v t)

pub total-erase : (k : ℕ) (t : Table ℤ) → total (erase k t) +ℤ value_or_zero (lookup k t) ≡ total t
total-erase k [] = omega int_laws
total-erase k (e ∷ t) = grind (int_laws, total-erase k t)

-- A table of which only single rows are read: a finite map, as a function.
abbrev pub Rows {ℓ} : Type ℓ → Type ℓ
Rows V = ℕ → Option V

abbrev pub update {ℓ} : {V : Type ℓ} → ℕ → V → Rows V → Rows V
update k v t j = if k == j then some v else t j

-- The same for a table that has a value at every key.
abbrev pub put {ℓ} : {V : Type ℓ} → ℕ → V → (ℕ → V) → ℕ → V
put k v t j = if k == j then v else t j

-- A statement about every row.
abbrev pub AllRows {ℓ κ} : {V : Type ℓ} → (V → Type κ) → Table V → Type κ
AllRows P t = All (λ e. P e.1) t

module _ {ℓ κ} {V : Type ℓ} (P : V → Type κ) where
  pub AllRows-insert : (k : ℕ) (v : V) (t : Table V) → P v → AllRows P t → AllRows P (insert k v t)
  AllRows-insert k v [] h b = (h, tt)
  AllRows-insert k v (d ∷ t) h (b, bs) = elim (Bool-cases (d.0 == k)) [
    | inl same ↦ rw same (h, bs)
    | inr other ↦ rw other (b, AllRows-insert k v t h bs)
  ]

  pub AllRows-lookup : (k : ℕ) (v : V) (t : Table V) → AllRows P t → lookup k t ≡ some v → P v
  AllRows-lookup k v [] b h = cc
  AllRows-lookup k v ((j, d) ∷ t) (b, bs) h = elim (Bool-cases (j == k)) [
    | inl same ↦ subst P (some-injective _ _ (rw same at h)) b
    | inr other ↦ AllRows-lookup k v t bs (rw other at h)
  ]
