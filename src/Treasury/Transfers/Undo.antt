-- ===== src/Treasury/Transfers/Undo.antt =====
-- A transfer that is posted and then reversed.
use gs_erp.Base.{
  subst, ℕ, ◌≡◌, refl, sym, ap, ◌∙◌, inl, inr, Bool, true, false, Option, none, some, if◌then◌else◌,
  Bool-cases, ℤ, pos, ◌+ℤ◌, neg, neg_parts, int_laws, ok, err, guard, or_raise, >>=-eq-ok,
  does_not_exist, ok-injective, or_raise-eq-ok, treasury_already_reversed,
}
use gs_erp.Core.Date.{Date}
use gs_erp.Core.Currency.{Unicode, make_currency}
use gs_erp.Finance.Fiscal.{assert_period_open}
use gs_erp.Finance.Ledger.{Ledger}
use gs_erp.Finance.Ledger.Sums.{balance}
use gs_erp.Finance.Ledger.History.{IsLedger}
use gs_erp.Finance.Posting.{moved, swap_sides, post_credit_first, post_credit_first-moves}
use gs_erp.Treasury.{
  reversed, TreasuryParty, PartyKey, TreasuryTransfer, Treasury, is_posted, find_party, moved_party,
}
use gs_erp.Treasury.Books.{same_party}
use gs_erp.Treasury.Reversal.Undo.{back_sides}
use gs_erp.Treasury.Transfers.{
  transfer_reversal_pair, posted_transfer, post_treasury_transfer, PostedTreasuryTransfer,
  ReversedTreasuryTransfer, reverse_treasury_transfer,
}
use gs_erp.Treasury.Transfers.Moves.{
  shifted, Written, Written-add_balances, post_treasury_transfer-Transferred,
}

abbrev gl_of : Option TreasuryParty → ℕ
gl_of none = 0
gl_of (some p) = p.gl_account_id

gl_of-moved_party : (d : ℤ) (x : Option TreasuryParty) → gl_of (moved_party d x) ≡ gl_of x
gl_of-moved_party d none = refl
gl_of-moved_party d (some p) = refl

gl_of-shifted :
    (k j : PartyKey) (d : ℤ) (x : Option TreasuryParty) → gl_of (shifted k d j x) ≡ gl_of x
gl_of-shifted k j d x = elim (Bool-cases (same_party k j)) [
  | inl here ↦ rw here (gl_of-moved_party d x)
  | inr other ↦ rw other refl
]

-- The account of a party, read again after a transfer.
gl_after :
    (x row : TreasuryTransfer) (id : ℕ) (d e : ℤ) (ledger : Ledger) (s t : Treasury) (j : PartyKey)
    (p q : TreasuryParty)
    → Written x row id d e ledger s t
    → find_party j s ≡ some p
    → find_party j t ≡ some q
    → q.gl_account_id ≡ p.gl_account_id
gl_after x row id d e ledger s t j p q w before after =
    ap gl_of (sym after ∙ w.parties j)
    ∙ gl_of-shifted x.destination j e (shifted x.source d j (find_party j s))
    ∙ gl_of-shifted x.source j d (find_party j s)
    ∙ ap gl_of before

-- The two steps cancel on every party.
four : (b n : ℤ) → b +ℤ neg n +ℤ n +ℤ n +ℤ neg n ≡ b
four b n = omega (int_laws, neg_parts n)

one_out : (b n : ℤ) → b +ℤ neg n +ℤ n ≡ b
one_out b n = omega (int_laws, neg_parts n)

one_in : (b n : ℤ) → b +ℤ n +ℤ neg n ≡ b
one_in b n = omega (int_laws, neg_parts n)

abbrev shift : Bool → ℤ → Option TreasuryParty → Option TreasuryParty
shift b d x = if b then moved_party d x else x

shifts_back :
    (out into : Bool) (n : ℤ) (x : Option TreasuryParty)
    → shift into (neg n) (shift out n (shift into n (shift out (neg n) x))) ≡ x
shifts_back false false n x = refl
shifts_back false true n none = refl
shifts_back true false n none = refl
shifts_back true true n none = refl
shifts_back false true n (some p) =
    ap (λ z. some (record p { current_balance = z })) (one_in p.current_balance n)
shifts_back true false n (some p) =
    ap (λ z. some (record p { current_balance = z })) (one_out p.current_balance n)
shifts_back true true n (some p) =
    ap (λ z. some (record p { current_balance = z })) (four p.current_balance n)

-- An accepted reversal, taken apart.
record Returned (id : ℕ) (x : TreasuryTransfer) (s t : Treasury) : Type 0 where
  source : TreasuryParty
  destination : TreasuryParty
  ledger : Ledger
  has_source : find_party x.source s ≡ some source
  has_destination : find_party x.destination s ≡ some destination
  moves :
      (a : ℕ)
      → balance a ledger.entries
        ≡ balance a s.ledger.entries
          +ℤ moved source.gl_account_id destination.gl_account_id x.amount a
  written : Written x (record x { status = reversed }) id x.amount (neg x.amount) ledger s t

reverse_treasury_transfer-Returned :
    (u : Unicode) (id : ℕ) (today : Date) (x : TreasuryTransfer) (s t : Treasury)
    (result : ReversedTreasuryTransfer)
    → IsLedger s.ledger
    → s.transfers id ≡ some x
    → reverse_treasury_transfer u id today s ≡ ok (t, result)
    → Returned id x s t
unfolding reverse_treasury_transfer
reverse_treasury_transfer-Returned u id today x s t result v found h =
    let (u1, e1, h1) =
      >>=-eq-ok (guard (is_posted x.status) treasury_already_reversed) _ (rw found at h) in
    let (p, e2, h2) = >>=-eq-ok (or_raise (find_party x.source s) does_not_exist) _ h1 in
    let (q, e3, h3) = >>=-eq-ok (or_raise (find_party x.destination s) does_not_exist) _ h2 in
    let (u4, e4, h4) = >>=-eq-ok (assert_period_open today s.ledger.calendar) _ h3 in
    let (currency, e5, h5) = >>=-eq-ok (make_currency u x.currency_code (pos 2)) _ h4 in
    let pair = transfer_reversal_pair currency id today p.gl_account_id q.gl_account_id x in
    let ((after, r), e6, h6) =
      >>=-eq-ok (post_credit_first pair "treasury_transfer_reversal" (some id) s.ledger) _ h5 in
    let (moves, keeps) =
      post_credit_first-moves pair "treasury_transfer_reversal" (some id) s.ledger after r v e6 in
    record {
      source = p;
      destination = q;
      ledger = after;
      has_source = or_raise-eq-ok _ _ e2;
      has_destination = or_raise-eq-ok _ _ e3;
      moves = moves;
      written =
          Written-add_balances x _ id x.amount (neg x.amount) after s t
            (sym (ap (λ z. z.0) (ok-injective h6)));
    }

-- When a transfer is posted and then reversed, the balance of every account and every party are
-- what they were before the posting, and the transfer is not reversed again.
pub post-reverse_treasury_transfer :
    (u : Unicode) (id : ℕ) (today again : Date) (x : TreasuryTransfer) (s t w : Treasury)
    (result : PostedTreasuryTransfer) (reversal : ReversedTreasuryTransfer)
    → IsLedger s.ledger
    → s.transfers id ≡ some x
    → post_treasury_transfer u id s ≡ ok (t, result)
    → reverse_treasury_transfer u id today t ≡ ok (w, reversal)
    → ((a : ℕ) → balance a w.ledger.entries ≡ balance a s.ledger.entries)
      × ((k : PartyKey) → find_party k w ≡ find_party k s)
      × (reverse_treasury_transfer u id again w ≡ err treasury_already_reversed)
unfolding reverse_treasury_transfer
post-reverse_treasury_transfer u id today again x s t w result reversal v found h k =
    let a = post_treasury_transfer-Transferred u id x s t result v found h in
    let b =
      reverse_treasury_transfer-Returned u id today (posted_transfer id a.period a.entry x) t w
        reversal (subst IsLedger (sym a.written.same_ledger) a.keeps) a.written.stamped k in
    let out =
      gl_after x _ id _ _ a.ledger s t x.source a.source b.source a.written a.has_source
        b.has_source in
    let into =
      gl_after x _ id _ _ a.ledger s t x.destination a.destination b.destination a.written
        a.has_destination b.has_destination in
    (
      λ n.
          ap (λ z. balance n z.entries) b.written.same_ledger
          ∙ b.moves n
          ∙ ap
              (λ z.
                balance n z.entries
                +ℤ moved b.source.gl_account_id b.destination.gl_account_id x.amount n)
              a.written.same_ledger
          ∙ rw
              (
                out,
                into,
                a.moves n,
                swap_sides a.source.gl_account_id a.destination.gl_account_id x.amount n,
              )
              (back_sides a.destination.gl_account_id a.source.gl_account_id x.amount
                (balance n s.ledger.entries) n),
      λ j.
          b.written.parties j
          ∙ ap (λ z. shifted x.destination (neg x.amount) j (shifted x.source x.amount j z))
              (a.written.parties j)
          ∙ shifts_back (same_party x.source j) (same_party x.destination j) x.amount
              (find_party j s),
      rw b.written.stamped refl,
    )
