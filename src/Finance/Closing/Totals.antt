-- ===== src/Finance/Closing/Totals.antt =====
-- The balances that a closing works on are the sums of the period's posted lines.
use gs_erp.Base.{
  ℕ, ◌≡◌, refl, sym, ap, ◌∙◌, inl, inr, Bool, true, false, none, List, [], ◌∷◌, arith, ◌==◌,
  if◌then◌else◌, ==_iff, Bool-cases, ℤ, pos, pos_part, neg_part, ◌+ℤ◌, ◌-ℤ◌, eqb_ℤ, int_laws,
  +ℤ_zero, +ℤ_assoc, eqb_ℤ_iff, Table, lookup, insert, lookup-insert, value_or_zero, +ℤ-shift,
}
use gs_erp.Core.Date.{Date}
use gs_erp.Finance.Ledger.{LedgerLine, JournalEntry}
use gs_erp.Finance.Closing.{in_period, add_line, add_lines, group_lines, nonzero, net_balance}

-- What a table of balances has for an account.
abbrev pub at_sum : ℕ → Table ℤ → ℤ
at_sum a [] = pos 0
at_sum a ((k, v) ∷ t) = (if k == a then v else pos 0) +ℤ at_sum a t

-- Debit less credit of an account on some lines, and over a period.
abbrev pub lines_on : ℕ → List LedgerLine → ℤ
lines_on a [] = pos 0
lines_on a (l ∷ ls) = (if l.account_id == a then l.debit -ℤ l.credit else pos 0) +ℤ lines_on a ls

abbrev pub period_sum : Date → Date → ℕ → Table JournalEntry → ℤ
period_sum start end a [] = pos 0
period_sum start end a ((k, e) ∷ es) =
    (if in_period start end e then lines_on a e.lines else pos 0) +ℤ period_sum start end a es

at_sum-insert :
    (a k : ℕ) (v : ℤ) (t : Table ℤ)
    → at_sum a (insert k v t) +ℤ (if k == a then value_or_zero (lookup k t) else pos 0)
      ≡ at_sum a t +ℤ (if k == a then v else pos 0)
at_sum-insert a k v [] = elim (Bool-cases (k == a)) [
  | inl h ↦ rw h (omega int_laws)
  | inr h ↦ rw h (omega int_laws)
]
at_sum-insert a k v ((j, w) ∷ t) = elim (Bool-cases (j == k)) [
  | inl same ↦
      let e = (==_iff j k).0 same in
      rw (same, e)
        (exchange (at_sum a t) (if k == a then v else pos 0) (if k == a then w else pos 0))
  | inr other ↦ rw other (+ℤ-shift (if j == a then w else pos 0) _ _ _ _ (at_sum-insert a k v t))
]
  where
    exchange : (x y z : ℤ) → y +ℤ x +ℤ z ≡ z +ℤ x +ℤ y
    exchange x y z = omega int_laws

add_on : (x y old d : ℤ) → x +ℤ old ≡ y +ℤ (old +ℤ d) → x ≡ y +ℤ d
add_on x y old d h = omega (int_laws, ap (λ z. pos_part z) h, ap (λ z. neg_part z) h)

at_sum-add_line :
    (chosen : ℕ → Bool) (a : ℕ) (t : Table ℤ) (l : LedgerLine)
    → chosen a ≡ true
    → at_sum a (add_line chosen t l)
      ≡ at_sum a t +ℤ (if l.account_id == a then l.debit -ℤ l.credit else pos 0)
at_sum-add_line chosen a t l h = elim (Bool-cases (l.account_id == a)) [
  | inl here ↦
      let e = (==_iff l.account_id a).0 here in
      let picked : chosen l.account_id ≡ true = ap chosen e ∙ h in
      let m =
        at_sum-insert a l.account_id
          (value_or_zero (lookup l.account_id t) +ℤ (l.debit -ℤ l.credit)) t in
      rw (here, picked)
        (add_on _ (at_sum a t) (value_or_zero (lookup l.account_id t)) _ (rw here at m))
  | inr there ↦ elim (Bool-cases (chosen l.account_id)) [
    | inl picked ↦
        let m =
          at_sum-insert a l.account_id
            (value_or_zero (lookup l.account_id t) +ℤ (l.debit -ℤ l.credit)) t in
        rw (there, picked) (sym (+ℤ_zero _) ∙ (rw there at m))
    | inr left_out ↦ rw (there, left_out) (sym (+ℤ_zero _))
  ]
]

at_sum-add_lines :
    (chosen : ℕ → Bool) (a : ℕ) (t : Table ℤ) (ls : List LedgerLine)
    → chosen a ≡ true
    → at_sum a (add_lines chosen t ls) ≡ at_sum a t +ℤ lines_on a ls
at_sum-add_lines chosen a t [] h = sym (+ℤ_zero _)
at_sum-add_lines chosen a t (l ∷ ls) h =
    at_sum-add_lines chosen a (add_line chosen t l) ls h
    ∙ ap (λ x. x +ℤ lines_on a ls) (at_sum-add_line chosen a t l h)
    ∙ +ℤ_assoc _ _ _

at_sum-group_lines :
    (chosen : ℕ → Bool) (start end : Date) (a : ℕ) (t : Table ℤ) (es : Table JournalEntry)
    → chosen a ≡ true
    → at_sum a (group_lines chosen start end t es) ≡ at_sum a t +ℤ period_sum start end a es
at_sum-group_lines chosen start end a t [] h = sym (+ℤ_zero _)
at_sum-group_lines chosen start end a t ((k, e) ∷ es) h =
    elim (Bool-cases (in_period start end e)) [
      | inl inside ↦ rw inside (
          at_sum-group_lines chosen start end a (add_lines chosen t e.lines) es h
          ∙ ap (λ x. x +ℤ period_sum start end a es) (at_sum-add_lines chosen a t e.lines h)
          ∙ +ℤ_assoc _ _ _)
      | inr outside ↦ rw outside (
          at_sum-group_lines chosen start end a t es h
          ∙ ap (λ x. at_sum a t +ℤ x) (zero_left (period_sum start end a es)))
    ]
  where
    zero_left : (x : ℤ) → x ≡ pos 0 +ℤ x
    zero_left x = omega int_laws

at_sum-nonzero : (a : ℕ) (t : Table ℤ) → at_sum a (nonzero t) ≡ at_sum a t
at_sum-nonzero a [] = refl
at_sum-nonzero a ((k, v) ∷ t) = elim (Bool-cases (eqb_ℤ v (pos 0))) [
  | inl free ↦
      rw (free, (eqb_ℤ_iff v (pos 0)).0 free, at_sum-nonzero a t) (nothing (k == a) (at_sum a t))
  | inr kept ↦ rw (kept, at_sum-nonzero a t) refl
]
  where
    nothing : (b : Bool) (x : ℤ) → x ≡ (if b then pos 0 else pos 0) +ℤ x
    nothing true x = omega int_laws
    nothing false x = omega int_laws

-- For a chosen account, the balance is the sum over the period.
pub net_balance-period_sum :
    (chosen : ℕ → Bool) (start end : Date) (a : ℕ) (es : Table JournalEntry)
    → chosen a ≡ true
    → at_sum a (net_balance chosen start end es) ≡ period_sum start end a es
unfolding net_balance
net_balance-period_sum chosen start end a es h =
    at_sum-nonzero a (group_lines chosen start end [] es)
    ∙ at_sum-group_lines chosen start end a [] es h
    ∙ zero_left (period_sum start end a es)
  where
    zero_left : (x : ℤ) → pos 0 +ℤ x ≡ x
    zero_left x = omega int_laws

-- Each account stands in the table once.
abbrev pub IsOnce : Table ℤ → Type 0
IsOnce [] = Unit
IsOnce ((k, v) ∷ t) = (lookup k t ≡ none) × IsOnce t

IsOnce-insert : (k : ℕ) (v : ℤ) (t : Table ℤ) → IsOnce t → IsOnce (insert k v t)
IsOnce-insert k v [] o = (refl, tt)
IsOnce-insert k v ((j, w) ∷ t) (gone, o) = elim (Bool-cases (j == k)) [
  | inl same ↦ rw same (ap (λ x. lookup x t) (sym ((==_iff j k).0 same)) ∙ gone, o)
  | inr other ↦
      let apart : (k == j) ≡ false = ground arith in
      rw other (lookup-insert k j v t ∙ rw apart gone, IsOnce-insert k v t o)
]

IsOnce-add_lines :
    (chosen : ℕ → Bool) (t : Table ℤ) (ls : List LedgerLine)
    → IsOnce t
    → IsOnce (add_lines chosen t ls)
IsOnce-add_lines chosen t [] o = o
IsOnce-add_lines chosen t (l ∷ ls) o = elim (Bool-cases (chosen l.account_id)) [
  | inl picked ↦ rw picked (
      IsOnce-add_lines chosen
        (insert l.account_id (value_or_zero (lookup l.account_id t) +ℤ (l.debit -ℤ l.credit)) t) ls
        (IsOnce-insert l.account_id (value_or_zero (lookup l.account_id t) +ℤ (l.debit -ℤ l.credit))
          t o))
  | inr left_out ↦ rw left_out (IsOnce-add_lines chosen t ls o)
]

IsOnce-group_lines :
    (chosen : ℕ → Bool) (start end : Date) (t : Table ℤ) (es : Table JournalEntry)
    → IsOnce t
    → IsOnce (group_lines chosen start end t es)
IsOnce-group_lines chosen start end t [] o = o
IsOnce-group_lines chosen start end t ((k, e) ∷ es) o = elim (Bool-cases (in_period start end e)) [
  | inl inside ↦ rw inside (
      IsOnce-group_lines chosen start end (add_lines chosen t e.lines) es
        (IsOnce-add_lines chosen t e.lines o))
  | inr outside ↦ rw outside (IsOnce-group_lines chosen start end t es o)
]

lookup-nonzero : (k : ℕ) (t : Table ℤ) → lookup k t ≡ none → lookup k (nonzero t) ≡ none
lookup-nonzero k [] h = refl
lookup-nonzero k ((j, v) ∷ t) h = ground (arith, lookup-nonzero k t)

IsOnce-nonzero : (t : Table ℤ) → IsOnce t → IsOnce (nonzero t)
IsOnce-nonzero [] o = tt
IsOnce-nonzero ((k, v) ∷ t) (gone, o) = elim (Bool-cases (eqb_ℤ v (pos 0))) [
  | inl free ↦ rw free (IsOnce-nonzero t o)
  | inr kept ↦ rw kept (lookup-nonzero k t gone, IsOnce-nonzero t o)
]

pub net_balance-IsOnce :
    (chosen : ℕ → Bool) (start end : Date) (es : Table JournalEntry)
    → IsOnce (net_balance chosen start end es)
unfolding net_balance
net_balance-IsOnce chosen start end es =
    IsOnce-nonzero (group_lines chosen start end [] es)
      (IsOnce-group_lines chosen start end [] es tt)

at_sum-add_line_other :
    (chosen : ℕ → Bool) (a : ℕ) (t : Table ℤ) (l : LedgerLine)
    → chosen a ≡ false
    → at_sum a (add_line chosen t l) ≡ at_sum a t
at_sum-add_line_other chosen a t l h = elim (Bool-cases (chosen l.account_id)) [
  | inl picked ↦
      let apart : (l.account_id == a) ≡ false = elim (Bool-cases (l.account_id == a)) [
        | inl same ↦ cc (ap chosen ((==_iff l.account_id a).0 same), picked, h)
        | inr other ↦ other
      ] in
      let m =
        at_sum-insert a l.account_id
          (value_or_zero (lookup l.account_id t) +ℤ (l.debit -ℤ l.credit)) t in
      rw picked (sym (+ℤ_zero _) ∙ (rw apart at m) ∙ +ℤ_zero _)
  | inr left_out ↦ rw left_out refl
]

at_sum-add_lines_other :
    (chosen : ℕ → Bool) (a : ℕ) (t : Table ℤ) (ls : List LedgerLine)
    → chosen a ≡ false
    → at_sum a (add_lines chosen t ls) ≡ at_sum a t
at_sum-add_lines_other chosen a t [] h = refl
at_sum-add_lines_other chosen a t (l ∷ ls) h =
    at_sum-add_lines_other chosen a (add_line chosen t l) ls h
    ∙ at_sum-add_line_other chosen a t l h

at_sum-group_lines_other :
    (chosen : ℕ → Bool) (start end : Date) (a : ℕ) (t : Table ℤ) (es : Table JournalEntry)
    → chosen a ≡ false
    → at_sum a (group_lines chosen start end t es) ≡ at_sum a t
at_sum-group_lines_other chosen start end a t [] h = refl
at_sum-group_lines_other chosen start end a t ((k, e) ∷ es) h =
    elim (Bool-cases (in_period start end e)) [
      | inl inside ↦ rw inside (
          at_sum-group_lines_other chosen start end a (add_lines chosen t e.lines) es h
          ∙ at_sum-add_lines_other chosen a t e.lines h)
      | inr outside ↦ rw outside (at_sum-group_lines_other chosen start end a t es h)
    ]

-- Any other account has no balance there.
pub net_balance-other :
    (chosen : ℕ → Bool) (start end : Date) (a : ℕ) (es : Table JournalEntry)
    → chosen a ≡ false
    → at_sum a (net_balance chosen start end es) ≡ pos 0
unfolding net_balance
net_balance-other chosen start end a es h =
    at_sum-nonzero a (group_lines chosen start end [] es)
    ∙ at_sum-group_lines_other chosen start end a [] es h
