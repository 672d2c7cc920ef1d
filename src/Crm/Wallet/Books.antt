-- ===== src/Crm/Wallet/Books.antt =====
-- A wallet and its liability account move together.
use gs_erp.Base.{
  ℕ, String, ◌≡◌, refl, sym, ap, ◌∙◌, ◌≢◌, inl, inr, false, ◌&&◌, List, [], ◌∷◌, ◌++◌, arith, ◌==◌,
  if◌then◌else◌, ==_refl, Bool-cases, ℤ, pos, ◌+ℤ◌, neg, leb_ℤ, int_laws, ok, >>=-eq-ok, str_eq,
  neg_parts, some, ◌≤ℤ◌, guard, str_eq_refl, customer_not_found, wallet_currency_mismatch, raise_if,
  ltb_ℤ, insufficient_wallet_balance, integrity_error, ok-injective, none, eqb_ℤ, subst, negsuc,
  ◌||◌, true, eqb_ℤ_iff,
}
use gs_erp.Finance.Ledger.{Ledger, PostedJournalEntry}
use gs_erp.Finance.Ledger.Sums.{balance}
use gs_erp.Finance.Posting.{moved, post_pair, post_pair-moves}
use gs_erp.Finance.Ledger.History.{IsLedger}
use gs_erp.Crm.Wallet.{
  WalletOperationSpec, WalletOperation, deposit, redeem, refund, adjustment, make_operation,
  is_adjustment, RecordWalletOperationCommand, RecordedWalletOperation, CustomerWallet,
  WalletTransaction, Crm, balance_delta_sign, wallet_delta, posting_accounts, wallet_pair,
  is_recorded, put_wallet, record_wallet_operation, Money,
}

-- The two lines take the operation's delta from the wallet's liability account.
liability_moved :
    (c : RecordWalletOperationCommand) (w : CustomerWallet)
    → w.liability_account_id ≢ c.counterparty_account_id
    → moved
        (wallet_pair c w).debit_account
        (wallet_pair c w).credit_account
        (wallet_pair c w).amount.amount
        w.liability_account_id
      ≡ neg (wallet_delta c.spec)
unfolding wallet_pair posting_accounts wallet_delta
liability_moved c w ne =
    let other : (c.counterparty_account_id == w.liability_account_id) ≡ false = ground arith in
    elim (Bool-cases (leb_ℤ (pos 0) (balance_delta_sign c.spec))) [
      | inl up ↦
          rw (up, other, ==_refl w.liability_account_id)
            (omega (int_laws, neg_parts c.spec.amount.amount))
      | inr down ↦
          rw (down, other, ==_refl w.liability_account_id)
            (omega (int_laws, neg_parts c.spec.amount.amount, neg_parts (neg c.spec.amount.amount)))
    ]

-- The sum of the logged deltas of a wallet.
abbrev pub logged : ℕ → String → List WalletTransaction → ℤ
logged customer code [] = pos 0
logged customer code (t ∷ ts) =
    (if t.customer_id == customer && str_eq t.currency_code code then t.signed_delta else pos 0)
    +ℤ logged customer code ts

logged-append :
    (customer : ℕ) (code : String) (ts : List WalletTransaction) (t : WalletTransaction)
    → logged customer code (ts ++ t ∷ [])
      ≡ logged customer code ts
        +ℤ (if t.customer_id == customer && str_eq t.currency_code code
            then t.signed_delta
            else pos 0)
logged-append customer code [] t = omega int_laws
logged-append customer code (u ∷ ts) t = rw (logged-append customer code ts t) (omega int_laws)

-- What an operation is for the wallet: a deposit and a refund bring the amount in, a redemption takes
-- it out, and an adjustment does what its sign says.
abbrev pub gain : WalletOperationSpec → ℤ
gain w = elim w.operation [
  | deposit ↦ w.amount.amount
  | redeem ↦ neg w.amount.amount
  | refund ↦ w.amount.amount
  | adjustment ↦
      if eqb_ℤ w.signed_for_adjustment (pos 1) then w.amount.amount else neg w.amount.amount
]

valid_sign :
    (w : WalletOperationSpec)
    → make_operation w ≡ ok w
    → (if is_adjustment w.operation
        then eqb_ℤ w.signed_for_adjustment (negsuc 0) || eqb_ℤ w.signed_for_adjustment (pos 1)
        else eqb_ℤ w.signed_for_adjustment (pos 0))
      ≡ true
unfolding make_operation
valid_sign w h = ground (arith, h)

by_sign :
    (sign n : ℤ)
    → (eqb_ℤ sign (negsuc 0) || eqb_ℤ sign (pos 1)) ≡ true
    → (if leb_ℤ (pos 0) sign then n else neg n) ≡ (if eqb_ℤ sign (pos 1) then n else neg n)
by_sign sign n h = elim (Bool-cases (eqb_ℤ sign (pos 1))) [
  | inl up ↦ rw (up, (eqb_ℤ_iff sign (pos 1)).0 up) refl
  | inr down ↦ rw (down, (eqb_ℤ_iff sign (negsuc 0)).0 (ground (arith, h, down))) refl
]

operation_gain :
    (id : ℕ) (op : WalletOperation) (m : Money) (reference : String) (sign : ℤ)
    → (if is_adjustment op then eqb_ℤ sign (negsuc 0) || eqb_ℤ sign (pos 1) else eqb_ℤ sign (pos 0))
      ≡ true
    → let w : WalletOperationSpec = record {
      customer_id = id;
      operation = op;
      amount = m;
      reference = reference;
      signed_for_adjustment = sign;
    } in
      wallet_delta w ≡ gain w
unfolding wallet_delta balance_delta_sign
operation_gain id deposit m reference sign h = refl
operation_gain id redeem m reference sign h = refl
operation_gain id refund m reference sign h = refl
operation_gain id adjustment m reference sign h = by_sign sign m.amount h

wallet_delta-gain : (w : WalletOperationSpec) → make_operation w ≡ ok w → wallet_delta w ≡ gain w
wallet_delta-gain w h =
    operation_gain w.customer_id w.operation w.amount w.reference w.signed_for_adjustment
      (valid_sign w h)

-- An accepted operation, taken apart.
record Operated (c : RecordWalletOperationCommand) (s t : Crm) (r : RecordedWalletOperation)
    (w : CustomerWallet) : Type 0 where
  posted : Ledger × PostedJournalEntry
  is_posted : post_pair (wallet_pair c w) "crm.CustomerWalletTransaction" none s.ledger ≡ ok posted
  covered : pos 0 ≤ℤ w.balance +ℤ wallet_delta c.spec
  ledger : t.ledger ≡ posted.0
  wallets :
      t.wallets
      ≡ put_wallet c.spec.customer_id c.spec.amount.currency.code
          (record w { balance = w.balance +ℤ wallet_delta c.spec })
          s.wallets
  logs :
      logged c.spec.customer_id c.spec.amount.currency.code t.transactions
      ≡ logged c.spec.customer_id c.spec.amount.currency.code s.transactions +ℤ wallet_delta c.spec
  result : r.new_balance ≡ w.balance +ℤ wallet_delta c.spec

record_wallet_operation-Operated :
    (c : RecordWalletOperationCommand) (s t : Crm) (r : RecordedWalletOperation)
    (w : CustomerWallet)
    → s.wallets c.spec.customer_id c.spec.amount.currency.code ≡ some w
    → record_wallet_operation c s ≡ ok (t, r)
    → Operated c s t r w
unfolding record_wallet_operation
record_wallet_operation-Operated c s t r w found done =
    let id = c.spec.customer_id in
    let code = c.spec.amount.currency.code in
    let new = w.balance +ℤ wallet_delta c.spec in
    let (u1, e1, h1) = >>=-eq-ok (guard (s.active_customers id) customer_not_found) _ done in
    let (u3, e3, h3) =
      >>=-eq-ok (guard (str_eq w.currency_code code) wallet_currency_mismatch) _ (rw found at h1) in
    let (u4, e4, h4) = >>=-eq-ok (raise_if (ltb_ℤ new (pos 0)) insufficient_wallet_balance) _ h3 in
    let (p, e6, h6) =
      >>=-eq-ok (post_pair (wallet_pair c w) "crm.CustomerWalletTransaction" none s.ledger) _ h4 in
    let (u7, e7, h7) =
      >>=-eq-ok (raise_if (is_recorded id code c.spec.reference s.transactions) integrity_error) _
        h6 in
    let e = ok-injective h7 in
    record {
      posted = p;
      is_posted = e6;
      covered = ground (arith, e4);
      ledger = sym (ap (λ x. x.0.ledger) e);
      wallets = sym (ap (λ x. x.0.wallets) e);
      logs =
          ap (λ x. logged id code x.0.transactions) (sym e)
          ∙ logged-append id code s.transactions _
          ∙ rw (==_refl id, str_eq_refl code) refl;
      result = sym (ap (λ x. x.1.new_balance) e);
    }

-- An accepted operation of a valid spec, whose counterparty account is not the wallet's liability
-- account, keeps wallet, log and ledger in step: the wallet's balance and the sum of its logged deltas
-- grow by what the operation brings in (the amount for a deposit and a refund, its negative for a
-- redemption, and the one or the other for an adjustment, by its sign), the balance of the liability
-- account falls by it, which is a credit, the new balance is the one returned and is not negative,
-- and the ledger keeps its invariant.
pub record_wallet_operation_in_step :
    (c : RecordWalletOperationCommand) (s t : Crm) (r : RecordedWalletOperation)
    (w : CustomerWallet)
    → IsLedger s.ledger
    → make_operation c.spec ≡ ok c.spec
    → s.wallets c.spec.customer_id c.spec.amount.currency.code ≡ some w
    → w.liability_account_id ≢ c.counterparty_account_id
    → record_wallet_operation c s ≡ ok (t, r)
    → (after : CustomerWallet) × (t.wallets c.spec.customer_id c.spec.amount.currency.code
        ≡ some after)
      × (after.balance ≡ w.balance +ℤ gain c.spec)
      × (r.new_balance ≡ after.balance)
      × (pos 0 ≤ℤ after.balance)
      × (logged c.spec.customer_id c.spec.amount.currency.code t.transactions
          ≡ logged c.spec.customer_id c.spec.amount.currency.code s.transactions +ℤ gain c.spec)
      × (balance w.liability_account_id t.ledger.entries
          ≡ balance w.liability_account_id s.ledger.entries +ℤ neg (gain c.spec))
      × IsLedger t.ledger
record_wallet_operation_in_step c s t r w v valid found apart done =
    let a = record_wallet_operation-Operated c s t r w found done in
    let same = wallet_delta-gain c.spec valid in
    let (adds, keeps) =
      post_pair-moves (wallet_pair c w) "crm.CustomerWalletTransaction" none s.ledger a.posted.0
        a.posted.1 v a.is_posted in
    (
      record w { balance = w.balance +ℤ wallet_delta c.spec },
      rw (a.wallets, ==_refl c.spec.customer_id, str_eq_refl c.spec.amount.currency.code) refl,
      ap (λ z. w.balance +ℤ z) same,
      a.result,
      a.covered,
      a.logs
          ∙ ap (λ z. logged c.spec.customer_id c.spec.amount.currency.code s.transactions +ℤ z)
              same,
      ap (λ z. balance w.liability_account_id z.entries) a.ledger
          ∙ adds w.liability_account_id
          ∙ ap (λ x. balance w.liability_account_id s.ledger.entries +ℤ x)
              (liability_moved c w apart ∙ ap neg same),
      subst IsLedger (sym a.ledger) keeps,
    )
