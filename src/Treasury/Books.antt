-- ===== src/Treasury/Books.antt =====
-- What transactions of the treasury do to the ledger and to the balances of the parties.
use gs_erp.Base.{
  subst, ℕ, ◌≡◌, refl, sym, ap, ◌∙◌, ◌≢◌, ◌⊎◌, inl, inr, Bool, true, false, not, ◌&&◌, some, arith,
  ◌==◌, if◌then◌else◌, ==_refl, ℤ, pos, ◌+ℤ◌, neg, ◌≤ℤ◌, ltb_ℤ, neg_parts, int_laws, ok, err, guard,
  raise_if, or_raise, >>=-eq-ok, does_not_exist, Rows, update, ok-injective, le_of_ltb_ℤ,
  raise_if-eq-ok, or_raise-eq-ok, treasury_already_posted, invalid_treasury_party,
  balance_insufficient, Option,
}
use gs_erp.Core.Currency.{Unicode, make_currency}
use gs_erp.Finance.Fiscal.{assert_period_open, find_open_period_id}
use gs_erp.Finance.Ledger.{Ledger}
use gs_erp.Finance.Ledger.Sums.{balance}
use gs_erp.Finance.Ledger.History.{IsLedger}
use gs_erp.Finance.Posting.{moved, post_pair, post_pair-moves, swap_sides}
use mathlib.Core.Option.{some-injective}
use gs_erp.Treasury.{
  TransactionType, inflow, outflow, adjustment, TreasuryParty, PartyKey, cashbox, bank_account,
  TreasuryTransaction, Treasury, is_draft, is_inflow, find_party, moved_party, add_balance, write,
  resolve, delta, gl_balance, is_asset, inactive, transaction_accounts, transaction_pair,
  posted_transaction, PostedTreasuryTransaction, post_treasury_transaction,
}

abbrev pub same_party : PartyKey → PartyKey → Bool
same_party (cashbox j) (cashbox k) = j == k
same_party (bank_account j) (bank_account k) = j == k
same_party _ _ = false

-- What adding to the balance of a party does to each party.
pub find_party-add_balance :
    (k j : PartyKey) (d : ℤ) (s : Treasury)
    → find_party j (add_balance k d s)
      ≡ (if same_party k j then moved_party d (find_party j s) else find_party j s)
find_party-add_balance (cashbox k) (cashbox j) d s = refl
find_party-add_balance (cashbox k) (bank_account j) d s = refl
find_party-add_balance (bank_account k) (cashbox j) d s = refl
find_party-add_balance (bank_account k) (bank_account j) d s = refl

find_party-write :
    (j : PartyKey) (ledger : Ledger) (rows : Rows TreasuryTransaction) (s : Treasury)
    → find_party j (write ledger rows s) ≡ find_party j s
find_party-write (cashbox j) ledger rows s = refl
find_party-write (bank_account j) ledger rows s = refl

pub add_balance-ledger :
    (k : PartyKey) (d : ℤ) (s : Treasury) → (add_balance k d s).ledger ≡ s.ledger
add_balance-ledger (cashbox k) d s = refl
add_balance-ledger (bank_account k) d s = refl

add_balance-transactions :
    (k : PartyKey) (d : ℤ) (s : Treasury) → (add_balance k d s).transactions ≡ s.transactions
add_balance-transactions (cashbox k) d s = refl
add_balance-transactions (bank_account k) d s = refl

-- What an entry of the accounts of a transaction moves, seen from the party's account.
accounts-moved :
    (kind : TransactionType) (treasury contra : ℕ) (n : ℤ) (a : ℕ)
    → moved
        (transaction_accounts kind treasury contra).0
        (transaction_accounts kind treasury contra).1
        n
        a
      ≡ moved treasury contra (delta kind n) a
unfolding transaction_accounts delta
accounts-moved inflow treasury contra n a = refl
accounts-moved outflow treasury contra n a = swap_sides contra treasury n a
accounts-moved adjustment treasury contra n a = swap_sides contra treasury n a

-- A step of a transaction on a party: what it adds, by the ledger and by the party's own balance.
pub record Moved (txn : TreasuryTransaction) (party : TreasuryParty) (d : ℤ) (s t : Treasury)
    : Type 0 where
  pub balances :
      (a : ℕ)
      → balance a t.ledger.entries
        ≡ balance a s.ledger.entries +ℤ moved party.gl_account_id txn.contra_account_id d a
  pub ledger : IsLedger t.ledger
  pub parties :
      (j : PartyKey)
      → find_party j t
        ≡ (if same_party txn.party j then moved_party d (find_party j s) else find_party j s)

-- The ledger and the rows that a transaction wrote, with the balance of its party.
pub Moved-write :
    (txn : TreasuryTransaction) (party : TreasuryParty) (d : ℤ) (s t : Treasury) (ledger : Ledger)
    (rows : Rows TreasuryTransaction)
    → t ≡ add_balance txn.party d (write ledger rows s)
    → ((a : ℕ)
        → balance a ledger.entries
          ≡ balance a s.ledger.entries +ℤ moved party.gl_account_id txn.contra_account_id d a)
    → IsLedger ledger
    → Moved txn party d s t
Moved-write txn party d s t ledger rows e moves keeps = record {
  balances = λ a.
      ap (λ z. balance a z.ledger.entries) e
      ∙ ap (λ z. balance a z.entries) (add_balance-ledger txn.party d (write ledger rows s))
      ∙ moves a;
  ledger =
      subst (λ z. IsLedger z.ledger) (sym e)
        (subst IsLedger (sym (add_balance-ledger txn.party d (write ledger rows s))) keeps);
  parties = λ j.
      ap (find_party j) e
      ∙ find_party-add_balance txn.party j d (write ledger rows s)
      ∙ rw (find_party-write j ledger rows s) refl;
}

pub row-write :
    (k : PartyKey) (d : ℤ) (id : ℕ) (row : TreasuryTransaction) (s t : Treasury) (ledger : Ledger)
    → t ≡ add_balance k d (write ledger (update id row s.transactions) s)
    → t.transactions id ≡ some row
row-write k d id row s t ledger e =
    ap (λ z. z.transactions id) e
    ∙ ap (λ z. z id) (add_balance-transactions k d (write ledger (update id row s.transactions) s))
    ∙ rw (==_refl id) refl

-- An accepted posting, taken apart.
pub record Posted (u : Unicode) (id : ℕ) (txn : TreasuryTransaction) (s t : Treasury) : Type 0 where
  pub party : TreasuryParty
  pub period : Option ℕ
  pub entry : ℕ
  pub resolved : resolve txn.party s ≡ ok party
  pub covered :
      (not (is_inflow txn.transaction_type) && ltb_ℤ (gl_balance party s.ledger) txn.amount) ≡ false
  pub moved_by : Moved txn party (delta txn.transaction_type txn.amount) s t
  pub stamped : t.transactions id ≡ some (posted_transaction id period entry txn)

pub post_treasury_transaction-Posted :
    (u : Unicode) (id : ℕ) (txn : TreasuryTransaction) (s t : Treasury)
    (result : PostedTreasuryTransaction)
    → IsLedger s.ledger
    → s.transactions id ≡ some txn
    → post_treasury_transaction u id s ≡ ok (t, result)
    → Posted u id txn s t
unfolding post_treasury_transaction
post_treasury_transaction-Posted u id txn s t result v found h =
    let (u1, e1, h1) =
      >>=-eq-ok (guard (is_draft txn.status) treasury_already_posted) _ (rw found at h) in
    let (party, e2, h2) = >>=-eq-ok (resolve txn.party s) _ h1 in
    let (u3, e3, h3) = >>=-eq-ok (assert_period_open txn.transaction_date s.ledger.calendar) _ h2 in
    let (u4, e4, h4) =
      >>=-eq-ok
        (raise_if
          (not (is_inflow txn.transaction_type) && ltb_ℤ (gl_balance party s.ledger) txn.amount)
          balance_insufficient)
        _ h3 in
    let (currency, e5, h5) = >>=-eq-ok (make_currency u txn.currency_code (pos 2)) _ h4 in
    let ((ledger, r), e6, h6) =
      >>=-eq-ok
        (post_pair (transaction_pair currency id party.gl_account_id txn) "treasury_transaction"
          (some id) s.ledger)
        _ h5 in
    let e = sym (ok-injective h6) in
    let (moves, keeps) =
      post_pair-moves (transaction_pair currency id party.gl_account_id txn) "treasury_transaction"
        (some id) s.ledger ledger r v e6 in
    record {
      party = party;
      period = find_open_period_id txn.transaction_date s.ledger.calendar.periods;
      entry = r.entry_id;
      resolved = e2;
      covered = raise_if-eq-ok _ _ e4;
      moved_by =
          Moved-write txn party _ s t ledger _ (ap (λ z. z.0) e)
            (λ a.
              moves a
              ∙ ap (λ x. balance a s.ledger.entries +ℤ x)
                  (accounts-moved txn.transaction_type party.gl_account_id txn.contra_account_id
                    txn.amount a))
            keeps;
      stamped = row-write txn.party _ id _ s t ledger (ap (λ z. z.0) e);
    }

pub resolve-found :
    (k : PartyKey) (s : Treasury) (party : TreasuryParty)
    → resolve k s ≡ ok party
    → find_party k s ≡ some party
unfolding resolve
resolve-found k s party h =
    let (p, e1, h1) = >>=-eq-ok (or_raise (find_party k s) does_not_exist) _ h in
    let (u2, e2, h2) = >>=-eq-ok (guard p.is_active (inactive k)) _ h1 in
    let (x, e3, h3) =
      >>=-eq-ok (or_raise (s.ledger.accounts p.gl_account_id) does_not_exist) _ h2 in
    let (u4, e4, h4) = >>=-eq-ok (guard (is_asset x.account_type) invalid_treasury_party) _ h3 in
    or_raise-eq-ok _ _ e1 ∙ ap some (ok-injective h4)

covered_rest :
    (opening before amount : ℤ)
    → amount ≤ℤ opening +ℤ before
    → pos 0 ≤ℤ opening +ℤ (before +ℤ (neg amount +ℤ pos 0))
covered_rest opening before amount h = omega (int_laws, neg_parts amount)

-- What leaves an account that covers it leaves the account at zero at least.
covered-after :
    (kind : TransactionType) (gl contra : ℕ) (amount opening before after : ℤ)
    → gl ≢ contra
    → (not (is_inflow kind) && ltb_ℤ (opening +ℤ before) amount) ≡ false
    → after ≡ before +ℤ moved gl contra (delta kind amount) gl
    → (is_inflow kind ≡ true) ⊎ (pos 0 ≤ℤ opening +ℤ after)
unfolding delta
covered-after inflow gl contra amount opening before after apart h e = inl refl
covered-after outflow gl contra amount opening before after apart h e =
    let other : (contra == gl) ≡ false = ground arith in
    let after_is = rw (==_refl gl, other) at e in
    inr (
      subst (λ z. pos 0 ≤ℤ opening +ℤ z) (sym after_is)
        (covered_rest opening before amount (le_of_ltb_ℤ (opening +ℤ before) amount h)))
covered-after adjustment gl contra amount opening before after apart h e =
    let other : (contra == gl) ≡ false = ground arith in
    let after_is = rw (==_refl gl, other) at e in
    inr (
      subst (λ z. pos 0 ≤ℤ opening +ℤ z) (sym after_is)
        (covered_rest opening before amount (le_of_ltb_ℤ (opening +ℤ before) amount h)))

-- An accepted posting of a transaction whose contra account is not the account of its party: it
-- brings the amount into the party's account and into the party's own balance (an outflow or an
-- adjustment takes it from both), takes the same from the contra account, changes no other balance
-- and no other party, and keeps the ledger's invariant; unless it is an inflow, it leaves no
-- negative balance of the account; the transaction is not posted again.
pub post_treasury_transaction-books :
    (u : Unicode) (id : ℕ) (txn : TreasuryTransaction) (party : TreasuryParty) (s t : Treasury)
    (result : PostedTreasuryTransaction)
    → IsLedger s.ledger
    → s.transactions id ≡ some txn
    → find_party txn.party s ≡ some party
    → party.gl_account_id ≢ txn.contra_account_id
    → post_treasury_transaction u id s ≡ ok (t, result)
    → Moved txn party (delta txn.transaction_type txn.amount) s t
      × ((is_inflow txn.transaction_type ≡ true) ⊎ (pos 0 ≤ℤ gl_balance party t.ledger))
      × (post_treasury_transaction u id t ≡ err treasury_already_posted)
unfolding post_treasury_transaction
post_treasury_transaction-books u id txn party s t result v found has apart h =
    let a = post_treasury_transaction-Posted u id txn s t result v found h in
    let same : a.party ≡ party =
      some-injective _ _ (sym (resolve-found txn.party s a.party a.resolved) ∙ has) in
    let moves =
      subst (λ p. Moved txn p (delta txn.transaction_type txn.amount) s t) same a.moved_by in
    (
      moves,
      covered-after txn.transaction_type party.gl_account_id txn.contra_account_id txn.amount
          party.opening_balance (balance party.gl_account_id s.ledger.entries)
          (balance party.gl_account_id t.ledger.entries) apart
          (subst
            (λ p.
              (not (is_inflow txn.transaction_type) && ltb_ℤ (gl_balance p s.ledger) txn.amount)
              ≡ false)
            same a.covered)
          (moves.balances party.gl_account_id),
      rw a.stamped refl,
    )
