-- ===== src/Pos/Register/Entry.antt =====
-- The entry that the closing of a register posts, when the count differs from what was expected.
use gs_erp.Base.{
  ◌==◌, ℕ, ◌<◌, ◌≡◌, ◌≢◌, some, [], ◌∷◌, arith, ℤ, pos, ◌-ℤ◌, ◌<ℤ◌, ok, suc, String, negsuc, ◌+ℤ◌,
  List, int_laws, err, eqb_ℤ, journal_not_balanced, refl, false, eqb_ℤ_iff, ==_refl,
}
use gs_erp.Core.Date.{Date}
use gs_erp.Core.Currency.{Currency, same_currency_refl}
use gs_erp.Core.Money.{Money, money_zero}
use gs_erp.Core.Money.Laws.{add_same, sub_same}
use gs_erp.Finance.Journal.{
  sum_debit, sum_credit, JournalLine, make_line, make_draft, debit_only, credit_only,
}
use gs_erp.Finance.Ledger.{Ledger}
use gs_erp.Finance.Ledger.Balance.{draft_net}
use gs_erp.Pos.Register.{close_lines, draft_of, post_close}

abbrev pub money : Currency → ℤ → Money
money c n = record { amount = n; currency = c }

abbrev on_debit : ℕ → Currency → ℤ → JournalLine
on_debit a c n = record { account_id = a; debit = money c n; credit = money_zero c }

abbrev on_credit : ℕ → Currency → ℤ → JournalLine
on_credit a c n = record { account_id = a; debit = money_zero c; credit = money c n }

debit_only_lem :
    (a : ℕ) (c : Currency) (n : ℤ)
    → 0 < a
    → pos 0 <ℤ n
    → debit_only a (money c n) ≡ ok (on_debit a c n)
unfolding debit_only make_line
debit_only_lem a c n h k = rw (same_currency_refl c) (ground arith)

credit_only_lem :
    (a : ℕ) (c : Currency) (n : ℤ)
    → 0 < a
    → pos 0 <ℤ n
    → credit_only a (money c n) ≡ ok (on_credit a c n)
unfolding credit_only make_line
credit_only_lem a c n h k = rw (same_currency_refl c) (ground arith)

-- Three accounts with keys, of which the cash account is no other.
pub record Accounts (cash clearing id : ℕ) : Type 0 where
  pub cash_key : 0 < cash
  pub clearing_key : 0 < clearing
  pub id_key : 0 < id
  pub cash_apart : clearing ≢ cash
  pub cash_aside : id ≢ cash

abbrev short_lines : ℕ → ℕ → ℕ → Currency → ℕ → ℕ → List JournalLine
short_lines cash clearing id c n m =
    on_debit cash c (pos n)
    ∷ on_credit clearing c (pos n -ℤ pos (suc m))
    ∷ on_debit id c (pos (suc m))
    ∷ []

abbrev over_lines : ℕ → ℕ → ℕ → Currency → ℕ → ℕ → List JournalLine
over_lines cash clearing id c n m =
    on_debit cash c (pos n +ℤ pos (suc m))
    ∷ on_credit clearing c (pos n)
    ∷ on_credit id c (pos (suc m))
    ∷ []

unequal : (a b : ℤ) → b <ℤ a → eqb_ℤ a b ≡ false
unequal a b h = ground arith

-- A count of `n` that lacks `m + 1` of what was expected.
close_lines_missing :
    (cash clearing id : ℕ) (c : Currency) (n m : ℕ)
    → Accounts cash clearing id
    → suc m < n
    → close_lines cash clearing (some id) (money c (pos n)) (money c (negsuc m))
      ≡ ok (short_lines cash clearing id c n m)
unfolding close_lines
close_lines_missing cash clearing id c n m a h =
    rw
      (
        debit_only_lem cash c (pos n) a.cash_key (omega (arith, h)),
        credit_only_lem clearing c (pos n) a.clearing_key (omega (arith, h)),
        debit_only_lem id c (pos (suc m)) a.id_key (omega arith),
        sub_same (money c (pos n)) (money c (pos (suc m))) refl,
        credit_only_lem clearing c (pos n -ℤ pos (suc m)) a.clearing_key
            (omega (arith, int_laws, h)),
      )
      (ground arith)

-- A count of `n` that has `m + 1` more than what was expected.
close_lines_surplus :
    (cash clearing id : ℕ) (c : Currency) (n m : ℕ)
    → Accounts cash clearing id
    → 0 < n
    → close_lines cash clearing (some id) (money c (pos n)) (money c (pos (suc m)))
      ≡ ok (over_lines cash clearing id c n m)
unfolding close_lines
close_lines_surplus cash clearing id c n m a h =
    rw
      (
        debit_only_lem cash c (pos n) a.cash_key (omega (arith, h)),
        credit_only_lem clearing c (pos n) a.clearing_key (omega (arith, h)),
        credit_only_lem id c (pos (suc m)) a.id_key (omega arith),
        add_same (money c (pos n)) (money c (pos (suc m))) refl,
        debit_only_lem cash c (pos n +ℤ pos (suc m)) a.cash_key (omega (arith, int_laws, h)),
      )
      (ground arith)

short_refused :
    (cash clearing id : ℕ) (c : Currency) (n m : ℕ) (date : Date) (reference : String)
    → suc m < n
    → make_draft (draft_of date reference (short_lines cash clearing id c n m))
      ≡ err journal_not_balanced
unfolding make_draft
short_refused cash clearing id c n m date reference h =
    let ls = short_lines cash clearing id c n m in
    let apart = unequal (sum_debit ls) (sum_credit ls) (omega (int_laws, h)) in
    let same = same_currency_refl c in ground (arith, same, apart)

-- When cash is missing, but less than the cash that was counted, and the three accounts are there, of
-- which the cash account is no other, the lines of the closing do not balance: the entry is refused
-- and the ledger stays as it was.
pub close_lines_short :
    (cash clearing id : ℕ) (c : Currency) (n m : ℕ) (date : Date) (reference : String) (session : ℕ)
    (ledger : Ledger)
    → Accounts cash clearing id
    → suc m < n
    → (ls : List JournalLine) × (close_lines cash clearing
          (some id)
          (money c (pos n))
          (money c (negsuc m))
        ≡ ok ls)
      × (make_draft (draft_of date reference ls) ≡ err journal_not_balanced)
      × (post_close date reference session ls ledger ≡ ledger)
unfolding post_close
close_lines_short cash clearing id c n m date reference session ledger a h =
    let ls = short_lines cash clearing id c n m in
    let refused = short_refused cash clearing id c n m date reference h in
    (ls, close_lines_missing cash clearing id c n m a h, refused, rw (post_close, refused) refl)

-- When there is more cash than expected, some cash is counted, and the three accounts are there, of
-- which the cash account is no other, the lines of the closing balance, and they put on the cash
-- account what was counted and the surplus once more.
pub close_lines_over :
    (cash clearing id : ℕ) (c : Currency) (n m : ℕ) (date : Date) (reference : String)
    → Accounts cash clearing id
    → 0 < n
    → (ls : List JournalLine) × (close_lines cash clearing
          (some id)
          (money c (pos n))
          (money c (pos (suc m)))
        ≡ ok ls)
      × (make_draft (draft_of date reference ls) ≡ ok (draft_of date reference ls))
      × (draft_net cash ls ≡ pos n +ℤ pos (suc m))
unfolding make_draft
close_lines_over cash clearing id c n m date reference a h =
    let ls = over_lines cash clearing id c n m in
    let equal = (eqb_ℤ_iff (sum_debit ls) (sum_credit ls)).1 (omega int_laws) in
    let apart : (clearing == cash) ≡ false = ground (arith, a.cash_apart) in
    let aside : (id == cash) ≡ false = ground (arith, a.cash_aside) in
    (
      ls,
      close_lines_surplus cash clearing id c n m a h,
      ground (arith, same_currency_refl c, equal),
      rw (==_refl cash, apart, aside) (omega int_laws),
    )
