-- ===== src/Finance/Ledger/History.antt =====
-- Runs of the ledger's operations, and what they keep.
use gs_erp.Base.{
  ℕ, ◌≡◌, refl, ◌∙◌, inl, inr, false, none, arith, ◌==◌, ==_iff, Bool-cases, ok, Table, lookup,
  lookup-insert, ◌⊎◌, >>=-eq-ok, or_raise, account_not_found, raise_if, journal_already_posted, sym,
  ok-injective, guard, period_closed,
}
use gs_erp.Core.Date.{Date}
use gs_erp.Finance.Journal.{IsDraft}
use gs_erp.Finance.Ledger.{
  JournalEntry, JournalEntryStatus, Ledger, PostJournalEntryCommand, PostedJournalEntry,
  posted_entry, add_entry, reversal_of, is_approved_status, is_pending_status, set_status,
  post_journal_entry, reverse_journal_entry, approve_journal_entry, reversed, approved,
}
use gs_erp.Finance.Ledger.Sums.{IsSound, IsFresh, lookup-set_status, IsSound-set_status}
use gs_erp.Finance.Ledger.Balance.{
  post_journal_entry-Posting, post_journal_entry-adds, reverse_journal_entry-Reversal,
  reverse_journal_entry-nets,
}

-- One operation on the ledger.
pub data Step (s : Ledger) : Ledger → Type 0 where
  post :
      (command : PostJournalEntryCommand) (t : Ledger) (r : PostedJournalEntry)
      → IsDraft command.draft
      → post_journal_entry command s ≡ ok (t, r)
      → Step s t
  reverse :
      (id : ℕ) (date : Date) (t : Ledger) (k : ℕ)
      → reverse_journal_entry id date s ≡ ok (t, k)
      → Step s t
  approve : (id : ℕ) (t : Ledger) → approve_journal_entry id s ≡ ok t → Step s t

pub data Run : Ledger → Ledger → Type 0 where
  done : (s : Ledger) → Run s s
  next : (s t u : Ledger) → Step s t → Run t u → Run s u

-- What every run keeps.
pub record IsLedger (s : Ledger) : Type 0 where
  pub fresh : IsFresh s
  pub sound : IsSound s.entries

IsFresh-add_entry : (e : JournalEntry) (s : Ledger) → IsFresh s → IsFresh (add_entry e s)
IsFresh-add_entry e s fresh k h =
    let apart : (s.next_pk == k) ≡ false = ground arith in
    lookup-insert s.next_pk k e s.entries ∙ rw apart (fresh k (omega (arith, h)))

IsFresh-set_status :
    (id k : ℕ) (status : JournalEntryStatus) (t : Table JournalEntry)
    → lookup k t ≡ none
    → lookup k (set_status id status t) ≡ none
IsFresh-set_status id k status t gone = elim (Bool-cases (id == k)) [
  | inl same ↦
      let e = (==_iff id k).0 same in lookup-set_status id k status t ∙ rw (same, e, gone) refl
  | inr other ↦ lookup-set_status id k status t ∙ rw other gone
]

pub approve-IsLedger :
    (id : ℕ) (s t : Ledger)
    → IsLedger s
    → approve_journal_entry id s ≡ ok t
    → (t ≡ s) ⊎ (t ≡ record s { entries = set_status id approved s.entries })
unfolding approve_journal_entry
approve-IsLedger id s t v h =
    let (e, e1, h1) = >>=-eq-ok (or_raise (lookup id s.entries) account_not_found) _ h in
    let (u2, e2, h2) = >>=-eq-ok (raise_if e.is_posted journal_already_posted) _ h1 in
    elim (Bool-cases (is_approved_status e.status)) [
      | inl before ↦ inl (sym (ok-injective (rw before at h2)))
      | inr other ↦
          let h3 = rw other at h2 in
          let (u4, e4, h4) = >>=-eq-ok (guard (is_pending_status e.status) period_closed) _ h3 in
          inr (sym (ok-injective h4))
    ]

pub Step-IsLedger : (s t : Ledger) → IsLedger s → Step s t → IsLedger t
Step-IsLedger s _ v (post command t r d h) =
    let p = post_journal_entry-Posting command s t r h in
    record {
      fresh = rw p.end (IsFresh-add_entry (posted_entry command p.currency p.period) s v.fresh);
      sound = (post_journal_entry-adds command s t r v.fresh d v.sound h).1;
    }
Step-IsLedger s _ v (reverse id date t k h) =
    let p = reverse_journal_entry-Reversal id date s t k h in
    record {
      fresh = λ j le. rw p.entries (
          IsFresh-set_status id j reversed (add_entry (reversal_of id p.original date) s).entries
            (IsFresh-add_entry (reversal_of id p.original date) s v.fresh j (rw p.next at le)));
      sound = (reverse_journal_entry-nets id date s t k p.original v.fresh v.sound p.found h).1;
    }
Step-IsLedger s _ v (approve id t h) = elim (approve-IsLedger id s t v h) [
  | inl same ↦ rw same v
  | inr e ↦ rw e (record {
    fresh = λ j le. IsFresh-set_status id j approved s.entries (v.fresh j le);
    sound = IsSound-set_status id approved s.entries refl v.sound;
  })
]

-- Every run of postings of valid drafts, reversals and approvals keeps the ledger sound: on every
-- posted entry debits equal credits, and the next key is unused.
pub Run-IsLedger : (s t : Ledger) → IsLedger s → Run s t → IsLedger t
Run-IsLedger _ _ v (done s) = v
Run-IsLedger _ _ v (next s u t step run) = Run-IsLedger u t (Step-IsLedger s u v step) run
