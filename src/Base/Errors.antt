-- ===== src/Base/Errors.antt =====
-- Exceptions as values. `Error` has one constructor for each exception class that the modelled
-- code raises; messages are left out.
use mathlib.Core.List.{List, [], ◌∷◌}
use mathlib.Core.Path.{◌≡◌, refl, subst, ap}
use mathlib.Core.Bool.{Bool, true, false}
use mathlib.Core.Option.{Option, none, some}
use mathlib.Core.List.{List, [], ◌∷◌}
use gs_erp.Base.Lists.{All}

pub data Error : Type 0 where
  invalid_currency invalid_money_amount currency_mismatch invalid_quantity uom_mismatch : Error
  account_not_found account_not_postable journal_not_balanced empty_journal_entry : Error
  journal_currency_mixed journal_already_posted journal_already_reversed : Error
  journal_line_invalid invalid_debit_credit period_closed : Error
  empty_sale invalid_sale invalid_sale_line invalid_sale_transition sale_currency_mismatch : Error
  empty_sale_return invalid_sale_return invalid_sale_return_line : Error
  allocation_exceeds_receipt : Error
  invalid_movement insufficient_stock non_stockable_product warehouse_not_found : Error
  invalid_transfer empty_transfer transfer_already_posted : Error
  invalid_adjustment_line empty_adjustment adjustment_already_posted : Error
  invalid_stock_count_line empty_stock_count stock_count_already_finalised : Error
  invalid_float register_already_open register_already_closed register_not_found : Error
  invalid_wallet_operation customer_not_found insufficient_wallet_balance : Error
  wallet_currency_mismatch : Error
  delivery_note_error invalid_quotation quotation_status : Error
  duplicate_settlement no_tax_transactions : Error
  period_already_closed checklist_incomplete closing_run_exists : Error
  period_not_closed period_signed_off : Error
  treasury_not_found treasury_already_posted treasury_already_reversed invalid_treasury_party :
      Error
  balance_insufficient self_transfer cashbox_inactive bank_account_inactive : Error
  -- Django's `ValidationError`, `ValueError`, `IndexError`, an uncaught `DoesNotExist`, `decimal.InvalidOperation`, and the `IntegrityError` of a violated database constraint
  validation_error value_error index_error does_not_exist invalid_operation integrity_error : Error

-- What a use case comes to: the exception that it raised, or its value.
pub data Result {ℓ} (V : Type ℓ) : Type ℓ where
  err : Error → Result V
  ok : V → Result V

-- `if b: raise e`, and `if not b: raise e`
abbrev pub raise_if : Bool → Error → Result (Unit {0})
raise_if false _ = ok tt
raise_if true e = err e

abbrev pub guard : Bool → Error → Result (Unit {0})
guard false e = err e
guard true _ = ok tt

-- `try: objects.get(...) except DoesNotExist: raise e`
abbrev pub or_raise {ℓ} : {V : Type ℓ} → Option V → Error → Result V
or_raise (some v) _ = ok v
or_raise none e = err e

abbrev pub is_ok {ℓ} : {V : Type ℓ} → Result V → Bool
is_ok (err _) = false
is_ok (ok _) = true

-- The rest of a use case runs on the value; an exception ends it.
infixl 5 ◌>>=◌ ◌>>◌
abbrev pub ◌>>=◌ {ι ℓ} : {V : Type ι} {W : Type ℓ} → Result V → (V → Result W) → Result W
err e >>= rest = err e
ok v >>= rest = rest v

abbrev pub ◌>>◌ {ℓ} : {W : Type ℓ} → Result (Unit {0}) → Result W → Result W
check >> rest = check >>= λ _. rest

-- A statement about the value, on success.
abbrev pub OnOk {ℓ κ} : {A : Type ℓ} → (A → Type κ) → Result A → Type κ
OnOk P (err _) = Unit
OnOk P (ok v) = P v

pub >>=-eq-ok {ι ℓ} :
    {V : Type ι} {W : Type ℓ} (first : Result V) (rest : V → Result W) {w : W}
    → (first >>= rest) ≡ ok w
    → (v : V) × (first ≡ ok v) × (rest v ≡ ok w)
>>=-eq-ok (err e) rest done = cc
>>=-eq-ok (ok v) rest done = (v, refl, done)

-- A `for` loop over a list whose body may raise; what it changes is the accumulator.
abbrev pub each {ℓ κ} : {S : Type ℓ} {A : Type κ} → (S → A → Result S) → S → List A → Result S
each step s [] = ok s
each step s (a ∷ rest) = step s a >>= λ t. each step t rest

-- An invariant of the body is one of the loop.
pub each_inv {ℓ κ ι} :
    {S : Type ℓ} {A : Type κ} (P : S → Type ι) (step : S → A → Result S)
    → ((s : S) (a : A) (t : S) → P s → step s a ≡ ok t → P t)
    → (s : S) (xs : List A) (t : S) → P s
    → each step s xs ≡ ok t
    → P t
each_inv P step keep s [] t p h = subst P (cc) p
each_inv P step keep s (a ∷ rest) t p h =
    let (u, e, r) = >>=-eq-ok (step s a) (λ u. each step u rest) h in
    each_inv P step keep u rest t (keep s a u p e) r

-- The same, with what holds of every element.
pub each_all {ℓ κ ι ο} :
    {S : Type ℓ} {A : Type κ} (P : S → Type ι) (Q : A → Type ο) (step : S → A → Result S)
    → ((s : S) (a : A) (t : S) → Q a → P s → step s a ≡ ok t → P t)
    → (s : S) (xs : List A) (t : S) → All Q xs
    → P s
    → each step s xs ≡ ok t
    → P t
each_all P Q step keep s [] t q p h = subst P (cc) p
each_all P Q step keep s (a ∷ rest) t (q, qs) p h =
    let (u, e, r) = >>=-eq-ok (step s a) (λ u. each step u rest) h in
    each_all P Q step keep u rest t qs (keep s a u q p e) r

-- The value, or a default.
abbrev pub value_of {ℓ} : {V : Type ℓ} → V → Result V → V
value_of d (err _) = d
value_of d (ok v) = v

pub ok-injective {ℓ} : {A : Type ℓ} {a b : A} → ok a ≡ ok b → a ≡ b
ok-injective {a = a} h = ap (value_of a) h

pub guard-eq-ok : (b : Bool) (e : Error) {u : Unit {0}} → guard b e ≡ ok u → b ≡ true
guard-eq-ok true e h = refl
guard-eq-ok false e h = cc

pub or_raise-eq-ok {ℓ} :
    {A : Type ℓ} (o : Option A) (e : Error) {a : A} → or_raise o e ≡ ok a → o ≡ some a
or_raise-eq-ok none e h = cc
or_raise-eq-ok (some a) e h = ap some (ok-injective h)

pub raise_if-eq-ok : (b : Bool) (e : Error) {u : Unit {0}} → raise_if b e ≡ ok u → b ≡ false
raise_if-eq-ok false e h = refl
raise_if-eq-ok true e h = cc
