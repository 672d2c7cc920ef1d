-- ===== src/Finance/Tax/Amount.antt =====
-- The tax on an amount: its rounding, its bounds, and how it is recorded.
use gs_erp.Base.{
  ℕ, ◌+◌, ◌*◌, ◌≤◌, ◌<◌, ◌≡◌, sym, ap, ◌∙◌, some, [], ◌∷◌, ◌++◌, arith, pos, ltb_ℤ, half_up,
  half_up_nearest, ok, guard, raise_if, >>=-eq-ok, value_error, integrity_error, ok-injective,
  pos-+ℤ,
}
use gs_erp.Core.Number.{quantize-percent, half_up-percent-le}
use gs_erp.Finance.Tax.{
  TaxCode, TaxBooks, CalculateTaxCommand, TaxCalculationResult, active_code, same_direction, tax_on,
  transaction_of, persist_tax_transaction, calculate_tax,
}

tax_on_lem : (n c : ℕ) → tax_on (pos n) (pos c) ≡ pos (half_up (n * c) 1000000)
unfolding tax_on
tax_on_lem n c = quantize-percent n c 4

-- An accepted calculation on an amount `n` and a rate `c` that are not negative: twice the error of
-- the tax is at most one unit of 0.0001, a rate of at most 100 percent takes at most the amount, the
-- gross amount is their sum, and one transaction is added that records the same net amount and tax.
pub calculate_tax-nearest :
    (cmd : CalculateTaxCommand) (s t : TaxBooks) (r : TaxCalculationResult) (code : TaxCode)
    (n c : ℕ)
    → cmd.net_amount ≡ pos n
    → code.rate ≡ pos c
    → active_code (s.tax_codes cmd.tax_code_id) ≡ some code
    → calculate_tax cmd s ≡ ok (t, r)
    → (tax : ℕ) × (r.tax_amount ≡ pos tax)
      × (2 * (tax * 1000000) ≤ 2 * (n * c) + 1000000)
      × (2 * (n * c) < 2 * (tax * 1000000) + 1000000)
      × (c ≤ 1000000 → tax ≤ n)
      × (r.gross_amount ≡ pos (n + tax))
      × (t.transactions ≡ s.transactions ++ transaction_of cmd (pos tax) ∷ [])
unfolding calculate_tax persist_tax_transaction
calculate_tax-nearest cmd s t r code n c net rate found h =
    let tax = half_up (n * c) 1000000 in
    let amount : tax_on cmd.net_amount code.rate ≡ pos tax = rw (net, rate) (tax_on_lem n c) in
    let (u1, e1, h1) =
      >>=-eq-ok (guard (same_direction cmd.direction code.tax_type) value_error) _
        (rw found at h) in
    let ((b, key), e2, h2) =
      >>=-eq-ok (persist_tax_transaction cmd (tax_on cmd.net_amount code.rate) s) _ h1 in
    let (u3, e3, h3) =
      >>=-eq-ok (raise_if (ltb_ℤ (tax_on cmd.net_amount code.rate) (pos 0)) integrity_error) _ e2 in
    let (low, high) = half_up_nearest (n * c) 1000000 (omega arith) in
    (
      tax,
      sym (ap (λ z. z.1.tax_amount) (ok-injective h2)) ∙ amount,
      low,
      high,
      λ le. half_up-percent-le n c 4 (omega (arith, le)),
      sym (ap (λ z. z.1.gross_amount) (ok-injective h2)) ∙ rw (amount, net) (pos-+ℤ n tax),
      sym (ap (λ z. z.0.transactions) (ok-injective h2))
          ∙ sym (ap (λ z. z.0.transactions) (ok-injective h3))
          ∙ ap (λ x. s.transactions ++ transaction_of cmd x ∷ []) amount,
    )
