-- ===== src/Treasury/Reversal/Undo.antt =====
-- What the reversal of a transaction does, and that it undoes the posting.
use gs_erp.Base.{
  ℕ, ◌≡◌, refl, sym, ap, ◌∙◌, inl, inr, true, false, Option, none, some, ◌==◌, ==_refl, Bool-cases,
  ℤ, pos, ◌+ℤ◌, neg, neg_parts, int_laws, ok, err, guard, or_raise, >>=-eq-ok, does_not_exist,
  ok-injective, or_raise-eq-ok, treasury_already_reversed,
}
use mathlib.Core.Option.{some-injective}
use gs_erp.Core.Date.{Date}
use gs_erp.Core.Currency.{Unicode, make_currency}
use gs_erp.Finance.Fiscal.{assert_period_open}
use gs_erp.Finance.Ledger.Sums.{balance}
use gs_erp.Finance.Ledger.History.{IsLedger}
use gs_erp.Finance.Posting.{moved, swap_sides, post_credit_first, post_credit_first-moves}
use gs_erp.Treasury.{
  TransactionType, inflow, outflow, adjustment, reversed, TreasuryParty, PartyKey,
  TreasuryTransaction, Treasury, is_posted, find_party, moved_party, delta, transaction_accounts,
  post_treasury_transaction, posted_transaction, cashbox, bank_account, PostedTreasuryTransaction,
}
use gs_erp.Treasury.Reversal.{
  reversal_pair, reversal_delta, reverse_treasury_transaction, ReversedTreasuryTransaction,
}
use gs_erp.Treasury.Books.{
  Moved, Moved-write, row-write, same_party, post_treasury_transaction-Posted, resolve-found,
}

reversal-moved :
    (kind : TransactionType) (treasury contra : ℕ) (n : ℤ) (a : ℕ)
    → moved
        (transaction_accounts kind treasury contra).1
        (transaction_accounts kind treasury contra).0
        n
        a
      ≡ moved treasury contra (reversal_delta kind n) a
unfolding transaction_accounts reversal_delta
reversal-moved inflow treasury contra n a = swap_sides contra treasury n a
reversal-moved outflow treasury contra n a = refl
reversal-moved adjustment treasury contra n a = refl

-- An accepted reversal, taken apart.
record Reversed (txn : TreasuryTransaction) (id : ℕ) (s t : Treasury) : Type 0 where
  party : TreasuryParty
  found : find_party txn.party s ≡ some party
  moved_back : Moved txn party (reversal_delta txn.transaction_type txn.amount) s t
  stamped : t.transactions id ≡ some (record txn { status = reversed })

reverse_treasury_transaction-Reversed :
    (u : Unicode) (id : ℕ) (today : Date) (txn : TreasuryTransaction) (s t : Treasury)
    (result : ReversedTreasuryTransaction)
    → IsLedger s.ledger
    → s.transactions id ≡ some txn
    → reverse_treasury_transaction u id today s ≡ ok (t, result)
    → Reversed txn id s t
unfolding reverse_treasury_transaction
reverse_treasury_transaction-Reversed u id today txn s t result v found h =
    let (u1, e1, h1) =
      >>=-eq-ok (guard (is_posted txn.status) treasury_already_reversed) _ (rw found at h) in
    let (party, e2, h2) = >>=-eq-ok (or_raise (find_party txn.party s) does_not_exist) _ h1 in
    let (u3, e3, h3) = >>=-eq-ok (assert_period_open today s.ledger.calendar) _ h2 in
    let (currency, e4, h4) = >>=-eq-ok (make_currency u txn.currency_code (pos 2)) _ h3 in
    let pair = reversal_pair currency id today party.gl_account_id txn in
    let ((ledger, r), e5, h5) =
      >>=-eq-ok (post_credit_first pair "treasury_transaction_reversal" (some id) s.ledger) _ h4 in
    let e = sym (ok-injective h5) in
    let (moves, keeps) =
      post_credit_first-moves pair "treasury_transaction_reversal" (some id) s.ledger ledger r v
        e5 in
    record {
      party = party;
      found = or_raise-eq-ok _ _ e2;
      moved_back =
          Moved-write txn party _ s t ledger _ (ap (λ z. z.0) e)
            (λ a.
              moves a
              ∙ ap (λ x. balance a s.ledger.entries +ℤ x)
                  (reversal-moved txn.transaction_type party.gl_account_id txn.contra_account_id
                    txn.amount a))
            keeps;
      stamped = row-write txn.party _ id _ s t ledger (ap (λ z. z.0) e);
    }

-- The two steps cancel.
neg_cancel : (x n : ℤ) → x +ℤ n +ℤ neg n ≡ x
neg_cancel x n = omega (int_laws, neg_parts n)

neg_cancel_left : (x n : ℤ) → x +ℤ neg n +ℤ n ≡ x
neg_cancel_left x n = omega (int_laws, neg_parts n)

pub back_sides :
    (gl contra : ℕ) (n b : ℤ) (a : ℕ) → b +ℤ moved gl contra n a +ℤ moved gl contra (neg n) a ≡ b
back_sides gl contra n b a = elim (Bool-cases (gl == a)) [
  | inl here ↦ elim (Bool-cases (contra == a)) [
    | inl both ↦ rw (here, both) (omega (int_laws, neg_parts n, neg_parts (neg n)))
    | inr other ↦ rw (here, other) (omega (int_laws, neg_parts n))
  ]
  | inr there ↦ elim (Bool-cases (contra == a)) [
    | inl both ↦ rw (there, both) (omega (int_laws, neg_parts n, neg_parts (neg n)))
    | inr other ↦ rw (there, other) (omega int_laws)
  ]
]

swap_last : (b x y : ℤ) → b +ℤ x +ℤ y ≡ b +ℤ y +ℤ x
swap_last b x y = omega int_laws

cancel :
    (kind : TransactionType) (gl contra : ℕ) (n b : ℤ) (a : ℕ)
    → b +ℤ moved gl contra (delta kind n) a +ℤ moved gl contra (reversal_delta kind n) a ≡ b
unfolding delta reversal_delta
cancel inflow gl contra n b a = back_sides gl contra n b a
cancel outflow gl contra n b a = swap_last b _ _ ∙ back_sides gl contra n b a
cancel adjustment gl contra n b a = swap_last b _ _ ∙ back_sides gl contra n b a

moved_party_back :
    (kind : TransactionType) (n : ℤ) (x : Option TreasuryParty)
    → moved_party (reversal_delta kind n) (moved_party (delta kind n) x) ≡ x
unfolding delta reversal_delta
moved_party_back kind n none = refl
moved_party_back inflow n (some p) =
    ap (λ z. some (record p { current_balance = z })) (neg_cancel p.current_balance n)
moved_party_back outflow n (some p) =
    ap (λ z. some (record p { current_balance = z })) (neg_cancel_left p.current_balance n)
moved_party_back adjustment n (some p) =
    ap (λ z. some (record p { current_balance = z })) (neg_cancel_left p.current_balance n)

same_party_refl : (k : PartyKey) → same_party k k ≡ true
same_party_refl (cashbox k) = ==_refl k
same_party_refl (bank_account k) = ==_refl k

-- The party's account, read again after its balance has changed.
account_after :
    (txn : TreasuryTransaction) (p q : TreasuryParty) (d : ℤ) (s t : Treasury)
    → Moved txn p d s t
    → find_party txn.party s ≡ some p
    → find_party txn.party t ≡ some q
    → q.gl_account_id ≡ p.gl_account_id
account_after txn p q d s t m before after =
    let now : find_party txn.party t ≡ moved_party d (some p) =
      m.parties txn.party ∙ rw (same_party_refl txn.party, before) refl in
    ap (λ z. z.gl_account_id) (some-injective _ _ (sym after ∙ now))

party_here :
    (txn : TreasuryTransaction) (p : TreasuryParty) (d : ℤ) (s t : Treasury) (j : PartyKey)
    → Moved txn p d s t
    → same_party txn.party j ≡ true
    → find_party j t ≡ moved_party d (find_party j s)
party_here txn p d s t j m h = m.parties j ∙ rw h refl

party_there :
    (txn : TreasuryTransaction) (p : TreasuryParty) (d : ℤ) (s t : Treasury) (j : PartyKey)
    → Moved txn p d s t
    → same_party txn.party j ≡ false
    → find_party j t ≡ find_party j s
party_there txn p d s t j m h = m.parties j ∙ rw h refl

-- When a transaction is posted and then reversed, the balance of every account and every party are
-- what they were before the posting, and the transaction is not reversed again.
pub post-reverse_treasury_transaction :
    (u : Unicode) (id : ℕ) (today again : Date) (txn : TreasuryTransaction) (s t w : Treasury)
    (entry : PostedTreasuryTransaction) (reversal : ReversedTreasuryTransaction)
    → IsLedger s.ledger
    → s.transactions id ≡ some txn
    → post_treasury_transaction u id s ≡ ok (t, entry)
    → reverse_treasury_transaction u id today t ≡ ok (w, reversal)
    → ((a : ℕ) → balance a w.ledger.entries ≡ balance a s.ledger.entries)
      × ((k : PartyKey) → find_party k w ≡ find_party k s)
      × (reverse_treasury_transaction u id again w ≡ err treasury_already_reversed)
unfolding reverse_treasury_transaction
post-reverse_treasury_transaction u id today again txn s t w entry reversal v found h k =
    let a = post_treasury_transaction-Posted u id txn s t entry v found h in
    let b =
      reverse_treasury_transaction-Reversed u id today (posted_transaction id a.period a.entry txn)
        t w reversal a.moved_by.ledger a.stamped k in
    let account =
      account_after txn a.party b.party _ s t a.moved_by
        (resolve-found txn.party s a.party a.resolved) b.found in
    (
      λ n.
          b.moved_back.balances n
          ∙ rw (account, a.moved_by.balances n)
              (cancel txn.transaction_type a.party.gl_account_id txn.contra_account_id txn.amount
                (balance n s.ledger.entries) n),
      λ j. elim (Bool-cases (same_party txn.party j)) [
        | inl here ↦
            party_here _ _ _ t w j b.moved_back here
            ∙ ap (moved_party (reversal_delta txn.transaction_type txn.amount))
                (party_here txn a.party _ s t j a.moved_by here)
            ∙ moved_party_back txn.transaction_type txn.amount (find_party j s)
        | inr other ↦
            party_there _ _ _ t w j b.moved_back other
            ∙ party_there txn a.party _ s t j a.moved_by other
      ],
      rw b.stamped refl,
    )
