-- ===== src/Finance/Ledger/Balance.antt =====
-- What posting and reversing an entry do to the balances of the accounts.
use mathlib.Core.Option.{some-injective}
use gs_erp.Base.{
  ℕ, suc, ◌≡◌, refl, sym, ap, ◌∙◌, true, Option, some, List, [], ◌∷◌, map, arith, ◌==◌,
  if◌then◌else◌, all, ℤ, pos, ◌+ℤ◌, ◌-ℤ◌, int_laws, +ℤ_zero, ok, guard, raise_if, or_raise,
  >>=-eq-ok, lookup, account_not_found, account_not_postable, journal_already_posted,
  journal_already_reversed, integrity_error, ok-injective, index_error, concat, or_raise-eq-ok,
  raise_if-eq-ok, false, guard-eq-ok, AllRows-insert, pair_zero, swap_zero, Bool-cases, inl, inr,
  AllRows-lookup, +ℤ_assoc,
}
use gs_erp.Core.Date.{Date}
use gs_erp.Core.Number.{Decimal}
use gs_erp.Core.Currency.{Currency}
use gs_erp.Finance.Journal.{JournalLine, IsDraft, sum_debit, sum_credit}
use gs_erp.Finance.Fiscal.{assert_period_open, find_open_period_id}
use gs_erp.Finance.Ledger.{
  LedgerLine, JournalEntry, Ledger, PostJournalEntryCommand, PostedJournalEntry, is_found,
  takes_lines, draft_currency, is_used, posted_entry, add_entry, post_line, save_line, mirror_line,
  has_reversal, reversal_of, is_posted_status, set_status, post_journal_entry,
  reverse_journal_entry, reversed,
}
use gs_erp.Finance.Ledger.Sums.{
  lines_sum, entry_sum, posted_sum, difference, on_account, balance, IsEntry, IsSound, IsFresh,
  posted_sum-insert, posted_sum-set_status, IsSound-set_status,
}

-- An accepted posting, taken apart.
pub record Posting (command : PostJournalEntryCommand) (s t : Ledger) (r : PostedJournalEntry)
    : Type 0 where
  pub currency : Currency
  pub period : Option ℕ
  pub end : t ≡ add_entry (posted_entry command currency period) s
  pub id : r.entry_id ≡ s.next_pk
  pub unused : is_used command.draft.reference s.entries ≡ false

pub post_journal_entry-Posting :
    (command : PostJournalEntryCommand) (s t : Ledger) (r : PostedJournalEntry)
    → post_journal_entry command s ≡ ok (t, r)
    → Posting command s t r
unfolding post_journal_entry
post_journal_entry-Posting command s t r h =
    let d = command.draft in
    let (u1, e1, h1) = >>=-eq-ok (assert_period_open d.entry_date s.calendar) _ h in
    let (u2, e2, h2) =
      >>=-eq-ok (guard (all (λ l. is_found s.accounts l.account_id) d.lines) account_not_found) _
        h1 in
    let (u3, e3, h3) =
      >>=-eq-ok
        (guard (all (λ l. takes_lines s.accounts l.account_id) d.lines) account_not_postable) _
        h2 in
    let (c, e4, h4) = >>=-eq-ok (or_raise (draft_currency d.lines) index_error) _ h3 in
    let (u5, e5, h5) = >>=-eq-ok (raise_if (is_used d.reference s.entries) integrity_error) _ h4 in
    let e = ok-injective h5 in
    record {
      currency = c;
      period = find_open_period_id d.entry_date s.calendar.periods;
      end = sym (ap (λ x. x.0) e);
      id = sym (ap (λ x. x.1.entry_id) e);
      unused = raise_if-eq-ok _ _ e5;
    }

-- A new entry adds its lines to every sum.
pub add_entry-sum :
    (f : LedgerLine → ℤ) (e : JournalEntry) (s : Ledger)
    → IsFresh s
    → posted_sum f (add_entry e s).entries ≡ posted_sum f s.entries +ℤ entry_sum f e
add_entry-sum f e s fresh =
    let gone = fresh s.next_pk (omega arith) in
    let m = posted_sum-insert f s.next_pk e s.entries in sym (+ℤ_zero _) ∙ (rw gone at m)

-- A draft's lines as the ledger holds them: debit less credit.
draft_difference :
    (rate : Decimal) (ls : List JournalLine)
    → lines_sum difference (map (post_line rate) ls) ≡ sum_debit ls -ℤ sum_credit ls
unfolding save_line
draft_difference rate [] = omega int_laws
draft_difference rate (l ∷ ls) = rw (draft_difference rate ls) (omega int_laws)

difference_zero : (a b : ℤ) → a ≡ b → a -ℤ b ≡ pos 0
difference_zero a b h = rw h (omega int_laws)

-- What a draft puts on an account.
abbrev pub draft_net : ℕ → List JournalLine → ℤ
draft_net a [] = pos 0
draft_net a (l ∷ ls) =
    (if l.account_id == a then l.debit.amount -ℤ l.credit.amount else pos 0) +ℤ draft_net a ls

pub draft_on_account :
    (a : ℕ) (rate : Decimal) (ls : List JournalLine)
    → lines_sum (on_account a) (map (post_line rate) ls) ≡ draft_net a ls
unfolding save_line
draft_on_account a rate [] = refl
draft_on_account a rate (l ∷ ls) = rw (draft_on_account a rate ls) refl

-- An accepted posting of a valid draft adds the draft's lines to the balances of their accounts and
-- changes no other balance, and debits and credits still agree on every posted entry.
pub post_journal_entry-adds :
    (command : PostJournalEntryCommand) (s t : Ledger) (r : PostedJournalEntry)
    → IsFresh s
    → IsDraft command.draft
    → IsSound s.entries
    → post_journal_entry command s ≡ ok (t, r)
    → ((a : ℕ) → balance a t.entries ≡ balance a s.entries +ℤ draft_net a command.draft.lines)
      × IsSound t.entries
post_journal_entry-adds command s t r fresh valid b h =
    let p = post_journal_entry-Posting command s t r h in
    let e = posted_entry command p.currency p.period in
    let zero_sum : entry_sum difference e ≡ pos 0 =
      draft_difference command.exchange_rate command.draft.lines
      ∙ difference_zero _ _ valid.balanced in
    (
      λ a. rw p.end (
          add_entry-sum (on_account a) e s fresh
          ∙ ap (λ x. balance a s.entries +ℤ x)
              (draft_on_account a command.exchange_rate command.draft.lines)),
      rw p.end (
          AllRows-insert IsEntry s.next_pk e s.entries
            (record { balanced = zero_sum; stamped = refl }) b),
    )

-- An accepted reversal, taken apart.
pub record Reversal (id : ℕ) (date : Date) (s t : Ledger) : Type 0 where
  pub original : JournalEntry
  pub found : lookup id s.entries ≡ some original
  pub is_posted : is_posted_status original.status ≡ true
  pub next : t.next_pk ≡ suc s.next_pk
  pub entries :
      t.entries ≡ set_status id reversed (add_entry (reversal_of id original date) s).entries

pub reverse_journal_entry-Reversal :
    (id : ℕ) (date : Date) (s t : Ledger) (k : ℕ)
    → reverse_journal_entry id date s ≡ ok (t, k)
    → Reversal id date s t
unfolding reverse_journal_entry
reverse_journal_entry-Reversal id date s t k h =
    let (o, e1, h1) = >>=-eq-ok (or_raise (lookup id s.entries) account_not_found) _ h in
    let (u2, e2, h2) = >>=-eq-ok (guard (is_posted_status o.status) journal_already_posted) _ h1 in
    let (u3, e3, h3) =
      >>=-eq-ok (raise_if (has_reversal id s.entries) journal_already_reversed) _ h2 in
    let (u4, e4, h4) = >>=-eq-ok (assert_period_open date s.calendar) _ h3 in
    let (u5, e5, h5) =
      >>=-eq-ok (raise_if (is_used (concat "REV-" o.reference) s.entries) integrity_error) _ h4 in
    let e = ok-injective h5 in
    record {
      original = o;
      found = or_raise-eq-ok _ _ e1;
      is_posted = guard-eq-ok _ _ e2;
      next = sym (ap (λ x. x.0.next_pk) e);
      entries = sym (ap (λ x. x.0.entries) e);
    }

mirror_difference :
    (ls : List LedgerLine)
    → lines_sum difference (map mirror_line ls) +ℤ lines_sum difference ls ≡ pos 0
unfolding mirror_line save_line
mirror_difference [] = omega int_laws
mirror_difference (l ∷ ls) =
    pair_zero (l.credit -ℤ l.debit) (l.debit -ℤ l.credit) _ _ (swap_zero l.credit l.debit)
      (mirror_difference ls)

mirror_on_account :
    (a : ℕ) (ls : List LedgerLine)
    → lines_sum (on_account a) (map mirror_line ls) +ℤ lines_sum (on_account a) ls ≡ pos 0
unfolding mirror_line save_line
mirror_on_account a [] = omega int_laws
mirror_on_account a (l ∷ ls) =
    pair_zero (on_account a (mirror_line l)) (on_account a l) _ _
      (elim (Bool-cases (l.account_id == a)) [
        | inl here ↦ rw here (swap_zero l.credit l.debit)
        | inr there ↦ rw there (omega int_laws)
      ])
      (mirror_on_account a ls)

-- A reversal takes the original's lines from the balances of their accounts, changes no other
-- balance, and leaves debits and credits in agreement on every posted entry.
pub reverse_journal_entry-nets :
    (id : ℕ) (date : Date) (s t : Ledger) (k : ℕ) (original : JournalEntry)
    → IsFresh s
    → IsSound s.entries
    → lookup id s.entries ≡ some original
    → reverse_journal_entry id date s ≡ ok (t, k)
    → ((a : ℕ)
        → balance a t.entries +ℤ lines_sum (on_account a) original.lines ≡ balance a s.entries)
      × IsSound t.entries
reverse_journal_entry-nets id date s t k original fresh b found h =
    let v = reverse_journal_entry-Reversal id date s t k h in
    let same : v.original ≡ original = some-injective _ _ (sym v.found ∙ found) in
    let e = reversal_of id v.original date in
    let old = AllRows-lookup IsEntry id v.original s.entries b v.found in
    let stamped : v.original.is_posted ≡ true = ground (arith, old.stamped, v.is_posted) in
    let zero_sum : lines_sum difference v.original.lines ≡ pos 0 = rw stamped at old.balanced in
    let both = mirror_difference v.original.lines in
    let mirrored = sym (+ℤ_zero _) ∙ (rw zero_sum at both) in
    (
      λ a.
          rw
            (
              v.entries,
              posted_sum-set_status (on_account a) id reversed (add_entry e s).entries,
              add_entry-sum (on_account a) e s fresh,
              sym same,
            )
            (+ℤ_assoc _ _ _
              ∙ ap (λ x. balance a s.entries +ℤ x) (mirror_on_account a v.original.lines)
              ∙ +ℤ_zero _),
      rw v.entries (
          IsSound-set_status id reversed (add_entry e s).entries refl (
            AllRows-insert IsEntry s.next_pk e s.entries
              (record { balanced = mirrored; stamped = refl }) b)),
    )
