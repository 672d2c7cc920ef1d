-- ===== src/Pos/Register/Sessions.antt =====
-- At most one session is open for a user in a warehouse.
use gs_erp.Base.{
  concat, str, ◌==◌, ◌&&◌, ℕ, ◌+◌, ◌≤◌, ◌≡◌, refl, sym, ap, false, [], ◌∷◌, ◌++◌, arith,
  if◌then◌else◌, any, ok, raise_if, >>=-eq-ok, Table, insert, invalid_float, register_already_open,
  ok-injective, raise_if-eq-ok, Bool-cases, String, err, register_already_closed, guard, or_raise,
  lookup, register_not_found, str_eq, some, lookup-insert, ◌∙◌, ==_refl, guard-eq-ok, true, subst,
  inl, inr,
}
use gs_erp.Core.Date.{Date}
use gs_erp.Core.Money.{Money, sub, is_negative}
use gs_erp.Core.Currency.{same_currency}
use gs_erp.Pos.Register.{
  CashRegisterSession, Registers, OpenRegisterCommand, CloseRegisterCommand, is_open_for,
  open_register, close_register, closed_session, expected_or_closing, post_session_close,
}

-- How many sessions are open for a user in a warehouse.
abbrev pub count_open : ℕ → ℕ → Table CashRegisterSession → ℕ
count_open user warehouse [] = 0
count_open user warehouse ((k, s) ∷ t) =
    (if is_open_for user warehouse s then 1 else 0) + count_open user warehouse t

abbrev pub IsSingle : Registers → Type 0
IsSingle s = (user warehouse : ℕ) → count_open user warehouse s.sessions ≤ 1

count_open-append :
    (u w k : ℕ) (s : CashRegisterSession) (t : Table CashRegisterSession)
    → count_open u w (t ++ (k, s) ∷ []) ≡ count_open u w t + (if is_open_for u w s then 1 else 0)
count_open-append u w k s [] = omega arith
count_open-append u w k s (e ∷ t) = let i = count_open-append u w k s t in omega (arith, i)

count_open_none :
    (u w : ℕ) (t : Table CashRegisterSession)
    → any (λ e. is_open_for u w e.1) t ≡ false
    → count_open u w t ≡ 0
count_open_none u w [] h = refl
count_open_none u w ((k, s) ∷ t) h = ground (arith, count_open_none u w t)

count_open-insert :
    (u w k : ℕ) (s : CashRegisterSession) (t : Table CashRegisterSession)
    → s.is_open ≡ false
    → count_open u w (insert k s t) ≤ count_open u w t
count_open-insert u w k s [] h = ground (arith, h)
count_open-insert u w k s ((j, r) ∷ t) h = grind (arith, count_open-insert u w k s t h)

-- Opening a register keeps at most one session open for each user in each warehouse.
pub open_register-IsSingle :
    (c : OpenRegisterCommand) (s t : Registers) (id : ℕ)
    → IsSingle s
    → open_register c s ≡ ok (t, id)
    → IsSingle t
unfolding open_register
open_register-IsSingle c s t id single done u w =
    let (u1, e1, h1) = >>=-eq-ok (raise_if (is_negative c.opening_float) invalid_float) _ done in
    let (u2, e2, h2) =
      >>=-eq-ok
        (raise_if (any (λ e. is_open_for c.user_id c.warehouse_id e.1) s.sessions)
          register_already_open)
        _ h1 in
    let e = ap (λ x. x.0.sessions) (ok-injective h2) in
    let free = raise_if-eq-ok _ register_already_open e2 in
    let none_open = count_open_none c.user_id c.warehouse_id s.sessions free in
    rw (sym e, count_open-append u w s.next_pk _ s.sessions)
      (elim (Bool-cases (c.user_id == u && c.warehouse_id == w && true)) [
        | inl same ↦
            let eu : c.user_id ≡ u = ground arith in
            let ew : c.warehouse_id ≡ w = ground arith in
            let nothing : count_open u w s.sessions ≡ 0 = rw (eu, ew) at none_open in
            rw (same, nothing) (omega arith)
        | inr other ↦ let i = single u w in rw other (omega (arith, i))
      ])

-- Closing a register keeps at most one session open for each user in each warehouse, and a session
-- that is closed is not closed again.
pub close_register-IsSingle :
    (date again : Date) (stamp other : String) (c : CloseRegisterCommand) (s t : Registers)
    (v : Money)
    → IsSingle s
    → close_register date stamp c s ≡ ok (t, v)
    → IsSingle t × (close_register again other c t ≡ err register_already_closed)
unfolding close_register
close_register-IsSingle date again stamp other c s t v single done =
    let closing = c.closing_float in
    let expected = expected_or_closing c in
    let (u1, e1, h1) = >>=-eq-ok (raise_if (is_negative closing) invalid_float) _ done in
    let (u2, e2, h2) =
      >>=-eq-ok (guard (same_currency expected.currency closing.currency) invalid_float) _ h1 in
    let (session, e3, h3) =
      >>=-eq-ok (or_raise (lookup c.session_id s.sessions) register_not_found) _ h2 in
    let (u4, e4, h4) = >>=-eq-ok (guard session.is_open register_already_closed) _ h3 in
    let (u5, e5, h5) =
      >>=-eq-ok (guard (str_eq session.currency_code closing.currency.code) invalid_float) _ h4 in
    let (variance, e6, h6) = >>=-eq-ok (sub closing expected) _ h5 in
    let reference = concat "POS-CLOSE-" (concat (str c.session_id) (concat "-" stamp)) in
    let (ledger, e7, h7) =
      >>=-eq-ok
        (post_session_close date reference c.session_id closing variance s.accounts s.ledger) _
        h6 in
    let new = closed_session session closing expected variance in
    let e : t.sessions ≡ insert c.session_id new s.sessions =
      sym (ap (λ x. x.0.sessions) (ok-injective h7)) in
    let found : lookup c.session_id t.sessions ≡ some new =
      ap (lookup c.session_id) e
      ∙ lookup-insert c.session_id c.session_id new s.sessions
      ∙ ap (λ b. if b then some new else lookup c.session_id s.sessions) (==_refl c.session_id) in
    (
      λ u w.
          let fewer = count_open-insert u w c.session_id new s.sessions refl in
          let i = single u w in subst (λ x. count_open u w x ≤ 1) (sym e) (omega (arith, fewer, i)),
      rw
          (
            raise_if-eq-ok (is_negative closing) invalid_float e1,
            guard-eq-ok (same_currency expected.currency closing.currency) invalid_float e2,
            found,
          )
          refl,
    )
