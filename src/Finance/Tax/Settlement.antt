-- ===== src/Finance/Tax/Settlement.antt =====
-- A settlement clears the two tax accounts against the settlement account.
use gs_erp.Base.{
  any-insert, subst, ℕ, ◌≡◌, refl, sym, ap, ◌∙◌, inl, inr, true, false, ◌&&◌, none, List, [], ◌∷◌,
  ◌++◌, arith, ◌==◌, if◌then◌else◌, Bool-cases, any, ℤ, pos, ◌+ℤ◌, ◌-ℤ◌, neg, abs, ltb_ℤ, eqb_ℤ,
  eqb_ℤ_iff, ok, err, raise_if, >>=-eq-ok, str_eq, ok-injective, str_eq_refl, duplicate_settlement,
  no_tax_transactions,
}
use gs_erp.Core.Currency.{Currency, Unicode, make_currency}
use gs_erp.Core.Money.{Money, is_zero}
use gs_erp.Finance.Journal.{
  JournalLine, JournalEntryDraft, make_draft, make_draft-IsDraft, debit_only, credit_only, IsDraft,
}
use gs_erp.Finance.Ledger.{post_journal_entry, posted_entry}
use gs_erp.Finance.Ledger.Sums.{balance}
use gs_erp.Finance.Ledger.Balance.{draft_net, post_journal_entry-Posting}
use gs_erp.Finance.Ledger.History.{IsLedger}
use gs_erp.Finance.Posting.{
  command_of, debit_only-debit_line, credit_only-credit_line, debit_line-net, credit_line-net,
  draft_net-append, post_journal_entry-Adds,
}
use gs_erp.Finance.Tax.{
  TaxDirection, TaxBooks, SettleVatCommand, SettleVatResult, settlement_reference, tax_sum,
  is_settlement, debit_unless_zero, credit_unless_zero, net_line, settlement_lines,
  settlement_draft, settle_vat,
}

at_zero : (a b : ℕ) (n : ℤ) → n ≡ pos 0 → pos 0 ≡ (if a == b then n else pos 0)
at_zero a b n h = rw h (ground arith)

neg_zero : (n : ℤ) → n ≡ pos 0 → neg n ≡ pos 0
neg_zero n h = rw h refl

debit_unless_zero-net :
    (d : ℕ) (m : Money) (ls : List JournalLine) (a : ℕ)
    → debit_unless_zero d m ≡ ok ls
    → draft_net a ls ≡ (if d == a then m.amount else pos 0)
debit_unless_zero-net d m ls a h = elim (Bool-cases (is_zero m)) [
  | inl free ↦
      let e = ok-injective (rw free at h) in
      sym (ap (draft_net a) e) ∙ at_zero d a m.amount ((eqb_ℤ_iff m.amount (pos 0)).0 free)
  | inr some_tax ↦
      let (l, e1, h1) = >>=-eq-ok (debit_only d m) _ (rw some_tax at h) in
      sym (ap (draft_net a) (ok-injective h1))
      ∙ ap (λ z. draft_net a (z ∷ [])) (debit_only-debit_line d m l e1)
      ∙ debit_line-net d m a
]

credit_unless_zero-net :
    (c : ℕ) (m : Money) (ls : List JournalLine) (a : ℕ)
    → credit_unless_zero c m ≡ ok ls
    → draft_net a ls ≡ (if c == a then neg m.amount else pos 0)
credit_unless_zero-net c m ls a h = elim (Bool-cases (is_zero m)) [
  | inl free ↦
      let e = ok-injective (rw free at h) in
      sym (ap (draft_net a) e)
      ∙ at_zero c a (neg m.amount) (neg_zero m.amount ((eqb_ℤ_iff m.amount (pos 0)).0 free))
  | inr some_tax ↦
      let (l, e1, h1) = >>=-eq-ok (credit_only c m) _ (rw some_tax at h) in
      sym (ap (draft_net a) (ok-injective h1))
      ∙ ap (λ z. draft_net a (z ∷ [])) (credit_only-credit_line c m l e1)
      ∙ credit_line-net c m a
]

owed : (n : ℤ) → ltb_ℤ (pos 0) n ≡ true → neg (pos (abs n)) ≡ neg n
owed n h = ground arith

refunded : (n : ℤ) → ltb_ℤ n (pos 0) ≡ true → pos (abs n) ≡ neg n
refunded n h = ground arith

level : (n : ℤ) → ltb_ℤ (pos 0) n ≡ false → ltb_ℤ n (pos 0) ≡ false → neg n ≡ pos 0
level n h k = ground arith

net_line-net :
    (account : ℕ) (currency : Currency) (n : ℤ) (ls : List JournalLine) (a : ℕ)
    → net_line account currency n ≡ ok ls
    → draft_net a ls ≡ (if account == a then neg n else pos 0)
net_line-net account currency n ls a h =
    let m : Money = record { amount = pos (abs n); currency = currency } in
    elim (Bool-cases (ltb_ℤ (pos 0) n)) [
      | inl due ↦
          let (l, e1, h1) = >>=-eq-ok (credit_only account m) _ (rw due at h) in
          sym (ap (draft_net a) (ok-injective h1))
          ∙ ap (λ z. draft_net a (z ∷ [])) (credit_only-credit_line account m l e1)
          ∙ credit_line-net account m a
          ∙ ap (λ z. if account == a then z else pos 0) (owed n due)
      | inr not_due ↦ elim (Bool-cases (ltb_ℤ n (pos 0))) [
        | inl back ↦
            let (l, e1, h1) = >>=-eq-ok (debit_only account m) _ (rw (not_due, back) at h) in
            sym (ap (draft_net a) (ok-injective h1))
            ∙ ap (λ z. draft_net a (z ∷ [])) (debit_only-debit_line account m l e1)
            ∙ debit_line-net account m a
            ∙ ap (λ z. if account == a then z else pos 0) (refunded n back)
        | inr even ↦
            let e = ok-injective (rw (not_due, even) at h) in
            sym (ap (draft_net a) e) ∙ at_zero account a (neg n) (level n not_due even)
      ]
    ]

-- What a settlement adds to the balance of an account.
abbrev pub settled : SettleVatCommand → ℤ → ℤ → ℕ → ℤ
settled c output_tax input_tax a =
    (if c.tax_payable_account_id == a then output_tax else pos 0)
    +ℤ ((if c.tax_recoverable_account_id == a then neg input_tax else pos 0)
        +ℤ (if c.settlement_account_id == a then neg (output_tax -ℤ input_tax) else pos 0))

settlement_lines-net :
    (c : SettleVatCommand) (currency : Currency) (out_tax in_tax : ℤ) (ls : List JournalLine)
    (a : ℕ)
    → settlement_lines c currency out_tax in_tax ≡ ok ls
    → draft_net a ls ≡ settled c out_tax in_tax a
unfolding settlement_lines
settlement_lines-net c currency out_tax in_tax ls a h =
    let out_money : Money = record { amount = out_tax; currency = currency } in
    let in_money : Money = record { amount = in_tax; currency = currency } in
    let (xs, e1, h1) = >>=-eq-ok (debit_unless_zero c.tax_payable_account_id out_money) _ h in
    let (ys, e2, h2) = >>=-eq-ok (credit_unless_zero c.tax_recoverable_account_id in_money) _ h1 in
    let (zs, e3, h3) =
      >>=-eq-ok (net_line c.settlement_account_id currency (out_tax -ℤ in_tax)) _ h2 in
    sym (ap (draft_net a) (ok-injective h3))
    ∙ rw
        (
          draft_net-append a xs (ys ++ zs),
          draft_net-append a ys zs,
          debit_unless_zero-net c.tax_payable_account_id out_money xs a e1,
          credit_unless_zero-net c.tax_recoverable_account_id in_money ys a e2,
          net_line-net c.settlement_account_id currency (out_tax -ℤ in_tax) zs a e3,
        )
        refl

-- An accepted settlement debits the payable account by the output tax of the period and currency,
-- credits the recoverable account by the input tax, puts the difference on the settlement account,
-- changes no other balance, and keeps the ledger's invariant; its result states both sums and their
-- difference, and a second settlement with the reference is refused.
pub settle_vat-clears :
    (u : Unicode) (c again : SettleVatCommand) (s t : TaxBooks) (r : SettleVatResult)
    → IsLedger s.ledger
    → settlement_reference again ≡ settlement_reference c
    → settle_vat u c s ≡ ok (t, r)
    → ((a : ℕ)
        → balance a t.ledger.entries
          ≡ balance a s.ledger.entries
            +ℤ settled c
                (tax_sum c TaxDirection.output s.transactions)
                (tax_sum c TaxDirection.input s.transactions)
                a)
      × IsLedger t.ledger
      × (r.net_vat ≡ r.output_tax -ℤ r.input_tax)
      × (r.output_tax ≡ tax_sum c TaxDirection.output s.transactions)
      × (r.input_tax ≡ tax_sum c TaxDirection.input s.transactions)
      × (settle_vat u again t ≡ err duplicate_settlement)
unfolding settle_vat
settle_vat-clears u c again s t r v same h =
    let out_tax = tax_sum c TaxDirection.output s.transactions in
    let in_tax = tax_sum c TaxDirection.input s.transactions in
    let reference = settlement_reference c in
    let (u1, e1, h1) =
      >>=-eq-ok
        (raise_if (any (λ e. is_settlement reference e.1) s.ledger.entries) duplicate_settlement) _
        h in
    let (u2, e2, h2) =
      >>=-eq-ok (raise_if (eqb_ℤ out_tax (pos 0) && eqb_ℤ in_tax (pos 0)) no_tax_transactions) _
        h1 in
    let (currency, e3, h3) = >>=-eq-ok (make_currency u c.currency_code (pos 2)) _ h2 in
    let (ls, e4, h4) = >>=-eq-ok (settlement_lines c currency out_tax in_tax) _ h3 in
    let (d, e5, h5) = >>=-eq-ok (make_draft (settlement_draft c ls)) _ h4 in
    let ((ledger, posted), e6, h6) =
      >>=-eq-ok (post_journal_entry (command_of d "finance.vat_settlement" none) s.ledger) _ h5 in
    let e = sym (ok-injective h6) in
    let (is_d, valid) = make_draft-IsDraft (settlement_draft c ls) d e5 in
    let command = command_of d "finance.vat_settlement" none in
    let (adds, keeps) =
      post_journal_entry-Adds command s.ledger ledger posted v (subst IsDraft (sym is_d) valid)
        e6 in
    let p = post_journal_entry-Posting command s.ledger ledger posted e6 in
    let row = posted_entry command p.currency p.period in
    let stamped : is_settlement reference row ≡ true =
      subst
        (λ (z : JournalEntryDraft).
          (str_eq z.reference reference && str_eq "finance.vat_settlement" "finance.vat_settlement")
          ≡ true)
        (sym is_d) (rw (str_eq_refl reference) refl) in
    (
      λ a.
          ap (λ z. balance a z.0.ledger.entries) e
          ∙ adds a
          ∙ ap (λ x. balance a s.ledger.entries +ℤ x)
              (ap (λ z. draft_net a z.lines) is_d
                ∙ settlement_lines-net c currency out_tax in_tax ls a e4),
      subst (λ z. IsLedger z.0.ledger) (sym e) keeps,
      subst (λ z. z.1.net_vat ≡ z.1.output_tax -ℤ z.1.input_tax) (sym e) refl,
      ap (λ z. z.1.output_tax) e,
      ap (λ z. z.1.input_tax) e,
      rw
          (
            same,
            ap (λ z. z.0.ledger.entries) e,
            ap (λ z. z.entries) p.end,
            any-insert (is_settlement reference) s.ledger.next_pk row s.ledger.entries stamped,
          )
          refl,
    )
