-- ===== src/Pos/Register/Stuck.antt =====
-- A register whose count falls short by at least what was counted.
use gs_erp.Base.{
  subst, ℕ, ◌+◌, ◌≤◌, ◌<◌, String, ◌≡◌, refl, sym, ap, ◌∙◌, ◌≢◌, inl, inr, false, some, List, arith,
  ℤ, pos, ◌-ℤ◌, neg, ◌<ℤ◌, ltb_ℤ, eqb_ℤ, neg_parts, int_laws, Result, ok, err, guard, raise_if,
  or_raise, is_ok, >>=-eq-ok, str_eq, lookup, invalid_float, register_already_closed,
  register_not_found, ltb_ℤ_of_le, ok-injective, concat, str,
}
use gs_erp.Core.Date.{Date}
use gs_erp.Core.Currency.{Currency, same_currency}
use gs_erp.Core.Money.{Money, money_zero, sub, is_negative}
use gs_erp.Core.Money.Laws.{sub_same}
use gs_erp.Finance.Journal.{JournalLine, make_line-IsLine, debit_only, credit_only}
use gs_erp.Finance.Ledger.{Ledger}
use gs_erp.Pos.Register.{
  Registers, CloseRegisterCommand, close_lines, close_register, expected_or_closing,
  post_session_close,
}
use gs_erp.Pos.Register.Entry.{money}

credited_positive :
    (a : ℕ) (m : Money) (l : JournalLine) → credit_only a m ≡ ok l → pos 0 <ℤ m.amount
unfolding credit_only
credited_positive a m l h =
    let line =
      make_line-IsLine (record { account_id = a; debit = money_zero m.currency; credit = m }) l h in
    elim (line.1).one_side [
      | inl (nothing, _) ↦ absurd (omega (arith, nothing))
      | inr (_, some_credit) ↦ some_credit
    ]

below : (a b : ℤ) → a <ℤ b → eqb_ℤ a b ≡ false
below a b h = ground arith

-- Such a count leaves nothing to credit to the clearing account.
close_lines_none :
    (cash clearing id : ℕ) (c : Currency) (n e : ℕ) (ls : List JournalLine)
    → n < e
    → n + n ≤ e
    → close_lines cash clearing (some id) (money c (pos n)) (money c (pos n -ℤ pos e)) ≢ ok ls
unfolding close_lines
close_lines_none cash clearing id c n e ls short half h =
    let v = pos n -ℤ pos e in
    let missing : Money = money c (neg v) in
    let (x, e1, h1) = >>=-eq-ok (debit_only cash (money c (pos n))) _ h in
    let (y, e2, h2) = >>=-eq-ok (credit_only clearing (money c (pos n))) _ h1 in
    let differs : eqb_ℤ v (pos 0) ≡ false = below v (pos 0) (omega (int_laws, short)) in
    let less : ltb_ℤ (pos 0) v ≡ false = ltb_ℤ_of_le (pos 0) v (omega (int_laws, short)) in
    let (z, e3, h3) = >>=-eq-ok (debit_only id missing) _ (rw (differs, less) at h2) in
    let (r, e4, h4) = >>=-eq-ok (sub (money c (pos n)) missing) _ h3 in
    let rest : r ≡ money c (pos n -ℤ neg v) =
      ok-injective (sym e4 ∙ sub_same (money c (pos n)) missing refl) in
    let (w, e5, h5) = >>=-eq-ok (credit_only clearing r) _ h4 in
    let positive : pos 0 <ℤ pos n -ℤ neg v =
      subst (λ m. pos 0 <ℤ m.amount) rest (credited_positive clearing r w e5) in
    omega (int_laws, neg_parts v, positive, half, short)

not_ok : {A : Type 0} (x : Result A) → ((v : A) → x ≢ ok v) → is_ok x ≡ false
not_ok (err e) h = refl
not_ok (ok v) h = absurd (h v refl)

posting_fails :
    (date : Date) (reference : String) (session : ℕ) (g ledger : Ledger) (cash clearing id : ℕ)
    (currency : Currency) (n e : ℕ)
    → 0 < e
    → n + n ≤ e
    → post_session_close date reference session
        (money currency (pos n))
        (money currency (pos n -ℤ pos e))
        (record { cash = some cash; clearing = some clearing; variance = some id })
        g
      ≢ ok ledger
unfolding post_session_close
posting_fails date reference session g ledger cash clearing id currency n e some_cash half h =
    let (ls, e1, h1) =
      >>=-eq-ok
        (close_lines cash clearing (some id) (money currency (pos n))
          (money currency (pos n -ℤ pos e)))
        _ h in
    close_lines_none cash clearing id currency n e ls (omega (arith, some_cash, half)) half e1

-- When the three accounts of a closing are there, and the cash counted is at most half of what was
-- expected, with something expected, so that the shortage is at least what was counted, the register
-- is not closed, whatever its session: the closing raises.
pub close_register-stuck :
    (closed_at : Date) (stamp : String) (c : CloseRegisterCommand) (s : Registers)
    (cash clearing id : ℕ) (currency : Currency) (n e : ℕ)
    → s.accounts ≡ record { cash = some cash; clearing = some clearing; variance = some id }
    → c.closing_float ≡ money currency (pos n)
    → c.expected_cash ≡ some (money currency (pos e))
    → 0 < e
    → n + n ≤ e
    → is_ok (close_register closed_at stamp c s) ≡ false
unfolding close_register
close_register-stuck closed_at stamp c s cash clearing id currency n e accounts counted expected
      some_cash half =
    not_ok (close_register closed_at stamp c s) λ v h.
      let wanted : expected_or_closing c ≡ money currency (pos e) = rw expected refl in
      let (u1, e1, h1) = >>=-eq-ok (raise_if (is_negative c.closing_float) invalid_float) _ h in
      let (u2, e2, h2) =
        >>=-eq-ok
          (guard (same_currency (expected_or_closing c).currency c.closing_float.currency)
            invalid_float)
          _ h1 in
      let (session, e3, h3) =
        >>=-eq-ok (or_raise (lookup c.session_id s.sessions) register_not_found) _ h2 in
      let (u4, e4, h4) = >>=-eq-ok (guard session.is_open register_already_closed) _ h3 in
      let (u5, e5, h5) =
        >>=-eq-ok (guard (str_eq session.currency_code c.closing_float.currency.code) invalid_float)
          _ h4 in
      let (variance, e6, h6) = >>=-eq-ok (sub c.closing_float (expected_or_closing c)) _ h5 in
      let reference = concat "POS-CLOSE-" (concat (str c.session_id) (concat "-" stamp)) in
      let (ledger, e7, h7) =
        >>=-eq-ok
          (post_session_close closed_at reference c.session_id c.closing_float variance s.accounts
            s.ledger)
          _ h6 in
      let is_variance : variance ≡ money currency (pos n -ℤ pos e) = ok-injective (
        sym e6
        ∙ ap (λ m. sub m (expected_or_closing c)) counted
        ∙ ap (sub (money currency (pos n))) wanted
        ∙ sub_same (money currency (pos n)) (money currency (pos e)) refl) in
      posting_fails closed_at reference c.session_id s.ledger ledger cash clearing id currency n e
        some_cash half
        (sym (
            ap
              (λ m.
                post_session_close closed_at reference c.session_id m variance s.accounts s.ledger)
              counted
            ∙ ap
                (λ m.
                  post_session_close closed_at reference c.session_id (money currency (pos n)) m
                    s.accounts s.ledger)
                is_variance
            ∙ ap
                (λ m.
                  post_session_close closed_at reference c.session_id (money currency (pos n))
                    (money currency (pos n -ℤ pos e)) m s.ledger)
                accounts)
          ∙ e7)
