-- ===== src/Finance/Ledger/Sums.antt =====
-- Sums over the posted lines of the ledger, and how a write of an entry moves them.
use gs_erp.Base.{
  ℕ, ◌≤◌, ◌≡◌, refl, sym, inl, inr, Option, none, some, List, [], ◌∷◌, ◌==◌, if◌then◌else◌, ==_iff,
  Bool-cases, Option-cases, ℤ, pos, ◌+ℤ◌, ◌-ℤ◌, int_laws, Table, lookup, insert, lookup-insert,
  +ℤ-shift, +ℤ-cancel_right, ◌||◌, AllRows, false, not, AllRows-lookup, true, AllRows-insert, arith,
}
use mathlib.Core.Option
use mathlib.Core.Option.{some-injective}
use gs_erp.Finance.Ledger.{
  LedgerLine, JournalEntry, JournalEntryStatus, Ledger, set_status, with_status, is_posted_status,
}

abbrev pub lines_sum : (LedgerLine → ℤ) → List LedgerLine → ℤ
lines_sum f [] = pos 0
lines_sum f (l ∷ ls) = f l +ℤ lines_sum f ls

-- What an entry adds: an entry that is not posted adds nothing.
abbrev pub entry_sum : (LedgerLine → ℤ) → JournalEntry → ℤ
entry_sum f e = if e.is_posted then lines_sum f e.lines else pos 0

abbrev pub posted_sum : (LedgerLine → ℤ) → Table JournalEntry → ℤ
posted_sum f [] = pos 0
posted_sum f ((k, e) ∷ t) = entry_sum f e +ℤ posted_sum f t

-- Debit less credit.
abbrev pub difference : LedgerLine → ℤ
difference l = l.debit -ℤ l.credit

-- Debit less credit, on the lines of one account.
abbrev pub on_account : ℕ → LedgerLine → ℤ
on_account a l = if l.account_id == a then l.debit -ℤ l.credit else pos 0

-- The balance of an account, derived from the posted lines.
abbrev pub balance : ℕ → Table JournalEntry → ℤ
balance a t = posted_sum (on_account a) t

-- An entry that is posted is balanced and bears the posting's flag.
pub record IsEntry (e : JournalEntry) : Type 0 where
  pub balanced : entry_sum difference e ≡ pos 0
  pub stamped : (e.is_posted || not (is_posted_status e.status)) ≡ true

abbrev pub IsSound : Table JournalEntry → Type 0
IsSound t = AllRows IsEntry t

-- No key has been given from the next one on.
abbrev pub IsFresh : Ledger → Type 0
IsFresh s = (k : ℕ) → s.next_pk ≤ k → lookup k s.entries ≡ none

abbrev pub sum_at : (LedgerLine → ℤ) → Option JournalEntry → ℤ
sum_at f none = pos 0
sum_at f (some e) = entry_sum f e

pub posted_sum-insert :
    (f : LedgerLine → ℤ) (k : ℕ) (e : JournalEntry) (t : Table JournalEntry)
    → posted_sum f (insert k e t) +ℤ sum_at f (lookup k t) ≡ posted_sum f t +ℤ entry_sum f e
posted_sum-insert f k e [] = omega int_laws
posted_sum-insert f k e ((j, d) ∷ t) = elim (Bool-cases (j == k)) [
  | inl same ↦ rw same (omega int_laws)
  | inr other ↦ rw other (+ℤ-shift (entry_sum f d) _ _ _ _ (posted_sum-insert f k e t))
]

-- In a sound ledger debits equal credits over all posted lines.
pub posted_sum-IsSound : (t : Table JournalEntry) → IsSound t → posted_sum difference t ≡ pos 0
posted_sum-IsSound [] b = refl
posted_sum-IsSound ((k, e) ∷ t) (b, bs) = rw (b.balanced, posted_sum-IsSound t bs) (omega int_laws)

-- A change of status moves no sum.
pub posted_sum-set_status :
    (f : LedgerLine → ℤ) (k : ℕ) (status : JournalEntryStatus) (t : Table JournalEntry)
    → posted_sum f (set_status k status t) ≡ posted_sum f t
posted_sum-set_status f k status t = elim (Option-cases (lookup k t)) [
  | inl gone ↦ rw (set_status, gone) refl
  | inr (e, found) ↦
      let m = posted_sum-insert f k (with_status status e) t in
      rw (set_status, found) (+ℤ-cancel_right _ _ (entry_sum f e) (rw found at m))
]

pub IsSound-set_status :
    (k : ℕ) (status : JournalEntryStatus) (t : Table JournalEntry)
    → is_posted_status status ≡ false
    → IsSound t
    → IsSound (set_status k status t)
IsSound-set_status k status t other b = elim (Option-cases (lookup k t)) [
  | inl gone ↦ rw (set_status, gone) b
  | inr (e, found) ↦
      let old = AllRows-lookup IsEntry k e t b found in
      rw (set_status, found)
        (AllRows-insert IsEntry k (with_status status e) t
          (record { balanced = old.balanced; stamped = ground (arith, other) }) b)
]

pub lookup-set_status :
    (k j : ℕ) (status : JournalEntryStatus) (t : Table JournalEntry)
    → lookup j (set_status k status t)
      ≡ (if k == j then Option.map (with_status status) (lookup k t) else lookup j t)
lookup-set_status k j status t = elim (Option-cases (lookup k t)) [
  | inl gone ↦
      rw (set_status, gone)
        (elim (Bool-cases (k == j)) [
          | inl same ↦ let e = (==_iff k j).0 same in rw (same, sym e) gone
          | inr other ↦ rw other refl
        ])
  | inr (e, found) ↦ rw (set_status, found, lookup-insert k j (with_status status e) t) refl
]
