-- ===== src/Finance/Closing/Net.antt =====
-- What a closing entry does to each account.
use gs_erp.Base.{
  subst, ℕ, ◌≡◌, refl, sym, ap, ◌∙◌, inl, inr, Bool, true, false, not, List, [], ◌∷◌, ◌++◌, arith,
  ◌==◌, if◌then◌else◌, Bool-cases, ℤ, pos, ◌+ℤ◌, ◌-ℤ◌, neg, ◌≤ℤ◌, ltb_ℤ, leb_ℤ, neg_parts, int_laws,
  sum, ok, >>=-eq-ok, Table, total, ok-injective,
}
use gs_erp.Core.Currency.{Currency}
use gs_erp.Core.Money.{Money}
use gs_erp.Finance.Journal.{JournalLine, debit_only, credit_only}
use gs_erp.Finance.Ledger.Balance.{draft_net}
use gs_erp.Finance.Posting.{
  debit_line, credit_line, debit_only-debit_line, credit_only-credit_line, debit_line-net,
  credit_line-net, draft_net-append, pair_net, moved, swap_sides,
}
use gs_erp.Finance.Closing.{
  income_lines, expense_lines, credit_if_positive, debit_if_positive, two_lines, transfer_lines,
  net_income_of, closing_lines,
}

-- A balance that step 1, or step 2, closes.
abbrev pub is_credit : ℤ → Bool
is_credit v = not (leb_ℤ (neg v) (pos 0))

abbrev pub is_debit : ℤ → Bool
is_debit v = not (leb_ℤ v (pos 0))

-- What closing the balances that pass a test adds to an account; the sum of these balances, and of
-- the others.
abbrev pub closed_at : (ℤ → Bool) → ℕ → Table ℤ → ℤ
closed_at normal a [] = pos 0
closed_at normal a ((k, v) ∷ t) =
    (if normal v then (if k == a then neg v else pos 0) else pos 0) +ℤ closed_at normal a t

abbrev pub kept : (ℤ → Bool) → Table ℤ → ℤ
kept normal [] = pos 0
kept normal ((k, v) ∷ t) = (if normal v then v else pos 0) +ℤ kept normal t

abbrev pub skipped : (ℤ → Bool) → Table ℤ → ℤ
skipped normal [] = pos 0
skipped normal ((k, v) ∷ t) = (if normal v then pos 0 else v) +ℤ skipped normal t

kept-skipped : (normal : ℤ → Bool) (t : Table ℤ) → kept normal t +ℤ skipped normal t ≡ total t
kept-skipped normal [] = omega int_laws
kept-skipped normal ((k, v) ∷ t) = elim (Bool-cases (normal v)) [
  | inl passes ↦ rw (passes, sym (kept-skipped normal t)) (first v _ _)
  | inr fails ↦ rw (fails, sym (kept-skipped normal t)) (second v _ _)
]
  where
    first : (v x y : ℤ) → v +ℤ x +ℤ (pos 0 +ℤ y) ≡ v +ℤ (x +ℤ y)
    first v x y = omega int_laws

    second : (v x y : ℤ) → pos 0 +ℤ x +ℤ (v +ℤ y) ≡ v +ℤ (x +ℤ y)
    second v x y = omega int_laws

zero_left : (x : ℤ) → x ≡ pos 0 +ℤ x
zero_left x = omega int_laws

income_lines-net :
    (currency : Currency) (t : Table ℤ) (ls : List JournalLine) (sum : ℤ) (a : ℕ)
    → income_lines currency t ≡ ok (ls, sum)
    → (draft_net a ls ≡ closed_at is_credit a t) × (sum ≡ neg (kept is_credit t)) × (pos 0 ≤ℤ sum)
unfolding income_lines
income_lines-net currency [] ls sum a h =
    let e = ok-injective h in
    (
      sym (ap (λ z. draft_net a z.0) e),
      sym (ap (λ z. z.1) e),
      subst (λ z. pos 0 ≤ℤ z.1) e (omega arith),
    )
income_lines-net currency ((k, v) ∷ t) ls sum a h = elim (Bool-cases (leb_ℤ (neg v) (pos 0))) [
  | inl skip ↦
      let (d, s, p) = income_lines-net currency t ls sum a (rw skip at h) in
      rw skip (d ∙ zero_left _, s ∙ ap neg (zero_left _), p)
  | inr close ↦
      let m : Money = record { amount = neg v; currency = currency } in
      let (l, e1, h1) = >>=-eq-ok (debit_only k m) _ (rw close at h) in
      let ((xs, rest), e2, h2) = >>=-eq-ok (income_lines currency t) _ h1 in
      let (d, s, p) = income_lines-net currency t xs rest a e2 in
      let e = sym (ok-injective h2) in
      rw close (
        ap (λ z. draft_net a z.0) e
            ∙ ap (λ z. draft_net a (z ∷ xs)) (debit_only-debit_line k m l e1)
            ∙ draft_net-append a (debit_line k m ∷ []) xs
            ∙ rw (debit_line-net k m a, d) refl,
        ap (λ z. z.1) e ∙ ap (λ z. neg v +ℤ z) s ∙ neg_add v (kept is_credit t),
        subst (λ z. pos 0 ≤ℤ z.1) (sym e) (positive (neg v) rest close p),
      )
]
  where
    neg_add : (v x : ℤ) → neg v +ℤ neg x ≡ neg (v +ℤ x)
    neg_add v x = omega (int_laws, neg_parts v, neg_parts x, neg_parts (v +ℤ x))

    positive : (v x : ℤ) → leb_ℤ v (pos 0) ≡ false → pos 0 ≤ℤ x → pos 0 ≤ℤ v +ℤ x
    positive v x h k = let up : pos 0 ≤ℤ v = ground arith in omega (int_laws, up)

expense_lines-net :
    (currency : Currency) (t : Table ℤ) (ls : List JournalLine) (sum : ℤ) (a : ℕ)
    → expense_lines currency t ≡ ok (ls, sum)
    → (draft_net a ls ≡ closed_at is_debit a t) × (sum ≡ kept is_debit t) × (pos 0 ≤ℤ sum)
unfolding expense_lines
expense_lines-net currency [] ls sum a h =
    let e = ok-injective h in
    (
      sym (ap (λ z. draft_net a z.0) e),
      sym (ap (λ z. z.1) e),
      subst (λ z. pos 0 ≤ℤ z.1) e (omega arith),
    )
expense_lines-net currency ((k, v) ∷ t) ls sum a h = elim (Bool-cases (leb_ℤ v (pos 0))) [
  | inl skip ↦
      let (d, s, p) = expense_lines-net currency t ls sum a (rw skip at h) in
      rw skip (d ∙ zero_left _, s ∙ zero_left _, p)
  | inr close ↦
      let m : Money = record { amount = v; currency = currency } in
      let (l, e1, h1) = >>=-eq-ok (credit_only k m) _ (rw close at h) in
      let ((xs, rest), e2, h2) = >>=-eq-ok (expense_lines currency t) _ h1 in
      let (d, s, p) = expense_lines-net currency t xs rest a e2 in
      let e = sym (ok-injective h2) in
      rw close (
        ap (λ z. draft_net a z.0) e
            ∙ ap (λ z. draft_net a (z ∷ xs)) (credit_only-credit_line k m l e1)
            ∙ draft_net-append a (credit_line k m ∷ []) xs
            ∙ rw (credit_line-net k m a, d) refl,
        ap (λ z. z.1) e ∙ ap (λ z. v +ℤ z) s,
        subst (λ z. pos 0 ≤ℤ z.1) (sym e) (positive v rest close p),
      )
]
  where
    positive : (v x : ℤ) → leb_ℤ v (pos 0) ≡ false → pos 0 ≤ℤ x → pos 0 ≤ℤ v +ℤ x
    positive v x h k = let up : pos 0 ≤ℤ v = ground arith in omega (int_laws, up)

at_zero : (a b : ℕ) (n : ℤ) → n ≡ pos 0 → pos 0 ≡ (if a == b then n else pos 0)
at_zero a b n h = rw h (ground arith)

zero_of : (n : ℤ) → pos 0 ≤ℤ n → ltb_ℤ (pos 0) n ≡ false → n ≡ pos 0
zero_of n h k = ground arith

neg_zero_of : (n : ℤ) → pos 0 ≤ℤ n → ltb_ℤ (pos 0) n ≡ false → neg n ≡ pos 0
neg_zero_of n h k = rw (zero_of n h k) refl

credit_if_positive-net :
    (c : ℕ) (currency : Currency) (n : ℤ) (ls : List JournalLine) (a : ℕ)
    → pos 0 ≤ℤ n
    → credit_if_positive c currency n ≡ ok ls
    → draft_net a ls ≡ (if c == a then neg n else pos 0)
credit_if_positive-net c currency n ls a p h =
    let m : Money = record { amount = n; currency = currency } in
    elim (Bool-cases (ltb_ℤ (pos 0) n)) [
      | inl more ↦
          let (l, e1, h1) = >>=-eq-ok (credit_only c m) _ (rw more at h) in
          sym (ap (draft_net a) (ok-injective h1))
          ∙ ap (λ z. draft_net a (z ∷ [])) (credit_only-credit_line c m l e1)
          ∙ credit_line-net c m a
      | inr free ↦
          sym (ap (draft_net a) (ok-injective (rw free at h)))
          ∙ at_zero c a (neg n) (neg_zero_of n p free)
    ]

debit_if_positive-net :
    (d : ℕ) (currency : Currency) (n : ℤ) (ls : List JournalLine) (a : ℕ)
    → pos 0 ≤ℤ n
    → debit_if_positive d currency n ≡ ok ls
    → draft_net a ls ≡ (if d == a then n else pos 0)
debit_if_positive-net d currency n ls a p h =
    let m : Money = record { amount = n; currency = currency } in
    elim (Bool-cases (ltb_ℤ (pos 0) n)) [
      | inl more ↦
          let (l, e1, h1) = >>=-eq-ok (debit_only d m) _ (rw more at h) in
          sym (ap (draft_net a) (ok-injective h1))
          ∙ ap (λ z. draft_net a (z ∷ [])) (debit_only-debit_line d m l e1)
          ∙ debit_line-net d m a
      | inr free ↦
          sym (ap (draft_net a) (ok-injective (rw free at h))) ∙ at_zero d a n (zero_of n p free)
    ]

two_lines-net :
    (d c : ℕ) (m : Money) (ls : List JournalLine) (a : ℕ)
    → two_lines d c m ≡ ok ls
    → draft_net a ls ≡ moved d c m.amount a
two_lines-net d c m ls a h =
    let (x, e1, h1) = >>=-eq-ok (debit_only d m) _ h in
    let (y, e2, h2) = >>=-eq-ok (credit_only c m) _ h1 in
    sym (ap (draft_net a) (ok-injective h2))
    ∙ rw (debit_only-debit_line d m x e1, credit_only-credit_line c m y e2) (pair_net d c m a)

moved_zero : (d c : ℕ) (n : ℤ) (a : ℕ) → n ≡ pos 0 → pos 0 ≡ moved d c n a
moved_zero d c n a h =
    rw (h, sym (at_zero d a (pos 0) refl), sym (at_zero c a (pos 0) refl)) (omega int_laws)

neither : (n : ℤ) → ltb_ℤ (pos 0) n ≡ false → ltb_ℤ n (pos 0) ≡ false → n ≡ pos 0
neither n h k = ground arith

transfer_lines-net :
    (summary retained : ℕ) (currency : Currency) (n : ℤ) (ls : List JournalLine) (a : ℕ)
    → transfer_lines summary retained currency n ≡ ok ls
    → draft_net a ls ≡ moved summary retained n a
unfolding transfer_lines
transfer_lines-net summary retained currency n ls a h = elim (Bool-cases (ltb_ℤ (pos 0) n)) [
  | inl profit ↦
      two_lines-net summary retained (record { amount = n; currency = currency }) ls a
        (rw profit at h)
  | inr no_profit ↦ elim (Bool-cases (ltb_ℤ n (pos 0))) [
    | inl loss ↦
        two_lines-net retained summary (record { amount = neg n; currency = currency }) ls a
          (rw (no_profit, loss) at h)
        ∙ sym (swap_sides summary retained n a)
    | inr even ↦
        sym (ap (draft_net a) (ok-injective (rw (no_profit, even) at h)))
        ∙ moved_zero summary retained n a (neither n no_profit even)
  ]
]

-- What is left on the income summary: the balances that the two steps skip.
abbrev pub leftover : Table ℤ → Table ℤ → ℤ
leftover incomes expenses = skipped is_credit incomes +ℤ skipped is_debit expenses

-- What a closing adds to the balance of an account.
abbrev pub closing : ℕ → ℕ → Table ℤ → Table ℤ → ℕ → ℤ
closing summary retained incomes expenses a =
    closed_at is_credit a incomes
    +ℤ closed_at is_debit a expenses
    +ℤ (if summary == a then neg (leftover incomes expenses) else pos 0)
    +ℤ (if retained == a then neg (net_income_of incomes expenses) else pos 0)

-- The three amounts on the income summary.
summary_sum :
    (b : Bool) (ki si ke se ti te ni : ℤ)
    → ki +ℤ si ≡ ti
    → ke +ℤ se ≡ te
    → ni ≡ neg ti -ℤ te
    → (x y r : ℤ)
    → x
        +ℤ ((if b then neg (neg ki) else pos 0)
            +ℤ (y +ℤ ((if b then ke else pos 0) +ℤ ((if b then ni else pos 0) +ℤ r))))
      ≡ x +ℤ y +ℤ (if b then neg (si +ℤ se) else pos 0) +ℤ r
summary_sum true ki si ke se ti te ni h k n x y r =
    rw (n, sym h, sym k)
      (omega
        (int_laws, neg_parts ki, neg_parts (neg ki), neg_parts (ki +ℤ si), neg_parts (si +ℤ se)))
summary_sum false ki si ke se ti te ni h k n x y r = omega int_laws

pub closing_lines-net :
    (summary retained : ℕ) (currency : Currency) (incomes expenses : Table ℤ)
    (ls : List JournalLine) (a : ℕ)
    → closing_lines summary retained currency incomes expenses ≡ ok ls
    → draft_net a ls ≡ closing summary retained incomes expenses a
unfolding closing_lines net_income_of
closing_lines-net summary retained currency incomes expenses ls a h =
    let ni = net_income_of incomes expenses in
    let ((xs, r), e1, h1) = >>=-eq-ok (income_lines currency incomes) _ h in
    let (ys, e2, h2) = >>=-eq-ok (credit_if_positive summary currency r) _ h1 in
    let ((zs, c), e3, h3) = >>=-eq-ok (expense_lines currency expenses) _ h2 in
    let (ws, e4, h4) = >>=-eq-ok (debit_if_positive summary currency c) _ h3 in
    let (vs, e5, h5) = >>=-eq-ok (transfer_lines summary retained currency ni) _ h4 in
    let (dx, is_r, r_pos) = income_lines-net currency incomes xs r a e1 in
    let (dz, is_c, c_pos) = expense_lines-net currency expenses zs c a e3 in
    sym (ap (draft_net a) (ok-injective h5))
    ∙ rw
        (
          draft_net-append a xs (ys ++ (zs ++ (ws ++ vs))),
          draft_net-append a ys (zs ++ (ws ++ vs)),
          draft_net-append a zs (ws ++ vs),
          draft_net-append a ws vs,
          dx,
          credit_if_positive-net summary currency r ys a r_pos e2,
          dz,
          debit_if_positive-net summary currency c ws a c_pos e4,
          transfer_lines-net summary retained currency ni vs a e5,
          is_r,
          is_c,
        )
        (summary_sum (summary == a) (kept is_credit incomes) (skipped is_credit incomes)
          (kept is_debit expenses) (skipped is_debit expenses) (total incomes) (total expenses) ni
          (kept-skipped is_credit incomes) (kept-skipped is_debit expenses) refl _ _ _)
