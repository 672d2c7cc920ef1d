-- ===== src/Sales/Draft/Payment.antt =====
-- The payment label of a sale, as a function of what has been paid.
use gs_erp.Base.{ℕ, ◌≤◌, ◌≡◌, ◌↔◌, ℤ, pos, ◌≤ℤ◌, ◌<ℤ◌, ok, arith, if◌then◌else◌, eqb_ℤ, ltb_ℤ}
use gs_erp.Core.Currency.{Currency, same_currency_refl}
use gs_erp.Core.Money.{Money}
use gs_erp.Sales.Draft.{
  PaymentStatus, unpaid, partial, paid, overpaid, refunded, derive_payment_status,
}

-- The order in which payments move a sale through the labels.
abbrev pub rank : PaymentStatus → ℕ
rank unpaid = 0
rank partial = 1
rank paid = 2
rank overpaid = 3
rank refunded = 4

abbrev money : Currency → ℤ → Money
money c amount = record { amount = amount; currency = c }

abbrev label : ℤ → ℤ → PaymentStatus
label g p =
    if eqb_ℤ p (pos 0)
    then unpaid
    else if ltb_ℤ p g
    then partial
    else if eqb_ℤ p g
    then paid
    else overpaid

derive_payment_status_lem :
    (c : Currency) (g p : ℤ) → derive_payment_status (money c g) (money c p) ≡ ok (label g p)
unfolding derive_payment_status
derive_payment_status_lem c g p = rw (same_currency_refl c) (ground arith)

-- In one currency a further payment never moves the label backwards, a sale that is not free is
-- labelled paid exactly when the payments reach its total and overpaid exactly when they pass it.
pub derive_payment_status_mono :
    (c : Currency) (g p q : ℤ)
    → pos 0 <ℤ g
    → pos 0 ≤ℤ p
    → p ≤ℤ q
    → (s t : PaymentStatus) × (derive_payment_status (money c g) (money c p) ≡ ok s)
      × (derive_payment_status (money c g) (money c q) ≡ ok t)
      × (rank s ≤ rank t)
      × ((s ≡ paid) ↔ (p ≡ g))
      × ((s ≡ overpaid) ↔ (g <ℤ p))
derive_payment_status_mono c g p q h hp le = (
  label g p,
  label g q,
  derive_payment_status_lem c g p,
  derive_payment_status_lem c g q,
  ground arith,
  (ground arith, ground arith),
  (ground arith, ground arith),
)
