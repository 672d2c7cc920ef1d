-- ===== src/Treasury/Transfers/Moves.antt =====
-- What posting a transfer does to both parties.
use gs_erp.Base.{
  subst, ℕ, ◌≡◌, refl, sym, ap, ◌∙◌, false, Option, some, ◌==◌, if◌then◌else◌, ==_refl, ℤ, pos,
  ◌+ℤ◌, neg, ok, err, guard, raise_if, >>=-eq-ok, Rows, update, ok-injective, raise_if-eq-ok,
  treasury_already_posted, self_transfer,
}
use mathlib.Core.Option.{some-injective}
use gs_erp.Core.Currency.{Unicode, make_currency}
use gs_erp.Finance.Fiscal.{assert_period_open, find_open_period_id}
use gs_erp.Finance.Ledger.{Ledger}
use gs_erp.Finance.Ledger.Sums.{balance}
use gs_erp.Finance.Ledger.History.{IsLedger}
use gs_erp.Finance.Posting.{post_pair, post_pair-moves, moved}
use gs_erp.Treasury.{
  TreasuryParty, PartyKey, cashbox, bank_account, TreasuryTransfer, Treasury, is_draft, find_party,
  moved_party, add_balance, resolve,
}
use gs_erp.Treasury.Transfers.{
  transfer_pair, posted_transfer, add_balances, write_transfer, post_treasury_transfer,
  PostedTreasuryTransfer,
}
use gs_erp.Treasury.Books.{same_party, find_party-add_balance, resolve-found, add_balance-ledger}

find_party-write_transfer :
    (j : PartyKey) (ledger : Ledger) (rows : Rows TreasuryTransfer) (s : Treasury)
    → find_party j (write_transfer ledger rows s) ≡ find_party j s
find_party-write_transfer (cashbox j) ledger rows s = refl
find_party-write_transfer (bank_account j) ledger rows s = refl

add_balance-transfers :
    (k : PartyKey) (d : ℤ) (s : Treasury) → (add_balance k d s).transfers ≡ s.transfers
add_balance-transfers (cashbox k) d s = refl
add_balance-transfers (bank_account k) d s = refl

-- What adding `d` to the balance of one party makes of the row of another.
abbrev pub shifted : PartyKey → ℤ → PartyKey → Option TreasuryParty → Option TreasuryParty
shifted k d j x = if same_party k j then moved_party d x else x

add_balances-ledger :
    (x : TreasuryTransfer) (d e : ℤ) (s : Treasury) → (add_balances x d e s).ledger ≡ s.ledger
add_balances-ledger x d e s =
    add_balance-ledger x.destination e (add_balance x.source d s) ∙ add_balance-ledger x.source d s

add_balances-transfers :
    (x : TreasuryTransfer) (d e : ℤ) (s : Treasury) → (add_balances x d e s).transfers ≡ s.transfers
add_balances-transfers x d e s =
    add_balance-transfers x.destination e (add_balance x.source d s)
    ∙ add_balance-transfers x.source d s

find_party-add_balances :
    (x : TreasuryTransfer) (d e : ℤ) (j : PartyKey) (s : Treasury)
    → find_party j (add_balances x d e s)
      ≡ shifted x.destination e j (shifted x.source d j (find_party j s))
find_party-add_balances x d e j s =
    find_party-add_balance x.destination j e (add_balance x.source d s)
    ∙ ap (shifted x.destination e j) (find_party-add_balance x.source j d s)

-- What a transfer or its reversal wrote, read again.
pub record Written (x row : TreasuryTransfer) (id : ℕ) (d e : ℤ) (ledger : Ledger) (s t : Treasury)
    : Type 0 where
  pub same_ledger : t.ledger ≡ ledger
  pub stamped : t.transfers id ≡ some row
  pub parties :
      (j : PartyKey)
      → find_party j t ≡ shifted x.destination e j (shifted x.source d j (find_party j s))

pub Written-add_balances :
    (x row : TreasuryTransfer) (id : ℕ) (d e : ℤ) (ledger : Ledger) (s t : Treasury)
    → t ≡ add_balances x d e (write_transfer ledger (update id row s.transfers) s)
    → Written x row id d e ledger s t
Written-add_balances x row id d e ledger s t h =
    let mid = write_transfer ledger (update id row s.transfers) s in
    record {
      same_ledger = ap (λ z. z.ledger) h ∙ add_balances-ledger x d e mid;
      stamped =
          ap (λ z. z.transfers id) h
          ∙ ap (λ z. z id) (add_balances-transfers x d e mid)
          ∙ rw (==_refl id) refl;
      parties = λ j.
          ap (find_party j) h
          ∙ find_party-add_balances x d e j mid
          ∙ ap (λ z. shifted x.destination e j (shifted x.source d j z))
              (find_party-write_transfer j ledger (update id row s.transfers) s);
    }

-- An accepted posting, taken apart.
pub record Transferred (id : ℕ) (x : TreasuryTransfer) (s t : Treasury) : Type 0 where
  pub source : TreasuryParty
  pub destination : TreasuryParty
  pub ledger : Ledger
  pub period : Option ℕ
  pub entry : ℕ
  pub has_source : find_party x.source s ≡ some source
  pub has_destination : find_party x.destination s ≡ some destination
  pub apart : (source.gl_account_id == destination.gl_account_id) ≡ false
  pub moves :
      (a : ℕ)
      → balance a ledger.entries
        ≡ balance a s.ledger.entries
          +ℤ moved destination.gl_account_id source.gl_account_id x.amount a
  pub keeps : IsLedger ledger
  pub written : Written x (posted_transfer id period entry x) id (neg x.amount) x.amount ledger s t

pub post_treasury_transfer-Transferred :
    (u : Unicode) (id : ℕ) (x : TreasuryTransfer) (s t : Treasury) (result : PostedTreasuryTransfer)
    → IsLedger s.ledger
    → s.transfers id ≡ some x
    → post_treasury_transfer u id s ≡ ok (t, result)
    → Transferred id x s t
unfolding post_treasury_transfer
post_treasury_transfer-Transferred u id x s t result v found h =
    let (u1, e1, h1) =
      >>=-eq-ok (guard (is_draft x.status) treasury_already_posted) _ (rw found at h) in
    let (p, e2, h2) = >>=-eq-ok (resolve x.source s) _ h1 in
    let (q, e3, h3) = >>=-eq-ok (resolve x.destination s) _ h2 in
    let (u4, e4, h4) =
      >>=-eq-ok (raise_if (p.gl_account_id == q.gl_account_id) self_transfer) _ h3 in
    let (u5, e5, h5) = >>=-eq-ok (assert_period_open x.transfer_date s.ledger.calendar) _ h4 in
    let (currency, e6, h6) = >>=-eq-ok (make_currency u x.currency_code (pos 2)) _ h5 in
    let pair = transfer_pair currency id p.gl_account_id q.gl_account_id x in
    let ((after, r), e7, h7) =
      >>=-eq-ok (post_pair pair "treasury_transfer" (some id) s.ledger) _ h6 in
    let (moves, keeps) = post_pair-moves pair "treasury_transfer" (some id) s.ledger after r v e7 in
    record {
      source = p;
      destination = q;
      ledger = after;
      period = find_open_period_id x.transfer_date s.ledger.calendar.periods;
      entry = r.entry_id;
      has_source = resolve-found x.source s p e2;
      has_destination = resolve-found x.destination s q e3;
      apart = raise_if-eq-ok _ _ e4;
      moves = moves;
      keeps = keeps;
      written =
          Written-add_balances x _ id (neg x.amount) x.amount after s t
            (sym (ap (λ z. z.0) (ok-injective h7)));
    }

-- An accepted transfer between two parties moves its amount from the account of the source to the
-- account of the destination, which is another one, and from the source's own balance to the
-- destination's; it changes no other balance and no other party, keeps the ledger's invariant, and
-- is not posted again.
pub post_treasury_transfer-moves :
    (u : Unicode) (id : ℕ) (x : TreasuryTransfer) (p q : TreasuryParty) (s t : Treasury)
    (result : PostedTreasuryTransfer)
    → IsLedger s.ledger
    → s.transfers id ≡ some x
    → find_party x.source s ≡ some p
    → find_party x.destination s ≡ some q
    → post_treasury_transfer u id s ≡ ok (t, result)
    → ((a : ℕ)
        → balance a t.ledger.entries
          ≡ balance a s.ledger.entries +ℤ moved q.gl_account_id p.gl_account_id x.amount a)
      × IsLedger t.ledger
      × ((p.gl_account_id == q.gl_account_id) ≡ false)
      × ((j : PartyKey)
          → find_party j t
            ≡ shifted x.destination x.amount j (shifted x.source (neg x.amount) j (find_party j s)))
      × (post_treasury_transfer u id t ≡ err treasury_already_posted)
unfolding post_treasury_transfer
post_treasury_transfer-moves u id x p q s t result v found has_p has_q h =
    let a = post_treasury_transfer-Transferred u id x s t result v found h in
    let is_p = some-injective _ _ (sym a.has_source ∙ has_p) in
    let is_q = some-injective _ _ (sym a.has_destination ∙ has_q) in
    (
      λ n. ap (λ z. balance n z.entries) a.written.same_ledger ∙ a.moves n ∙ rw (is_p, is_q) refl,
      subst IsLedger (sym a.written.same_ledger) a.keeps,
      rw (is_p, is_q) at a.apart,
      a.written.parties,
      rw a.written.stamped refl,
    )
