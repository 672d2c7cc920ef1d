-- ===== src/Finance/Ledger/Immutable.antt =====
-- Posted entries stay as they were posted.
use gs_erp.Base.{
  validation_error, err, ap, ℕ, ◌≡◌, refl, ◌∙◌, inl, inr, arith, ◌==◌, ==_iff, Bool-cases, lookup,
  lookup-insert, some, true, journal_already_posted,
}
use gs_erp.Finance.Ledger.{
  guard_posted_journal_entry, JournalEntry, JournalEntryStatus, Ledger, posted_entry, add_entry,
  reversal_of, set_status, with_status, approve_journal_entry, reversed, approved,
}
use gs_erp.Finance.Ledger.Sums.{IsFresh, lookup-set_status}
use gs_erp.Finance.Ledger.Balance.{post_journal_entry-Posting, reverse_journal_entry-Reversal}
use gs_erp.Finance.Ledger.History.{
  Step, Run, IsLedger, post, reverse, approve, done, next, approve-IsLedger, Step-IsLedger,
}

-- An entry at its key, as it was posted; its status may have changed.
pub record Remains (k : ℕ) (e : JournalEntry) (t : Ledger) : Type 0 where
  pub row : JournalEntry
  pub found : lookup k t.entries ≡ some row
  pub posted : row.is_posted ≡ true
  pub lines : row.lines ≡ e.lines
  pub date : row.entry_date ≡ e.entry_date
  pub reference : row.reference ≡ e.reference

pub lookup-add_entry :
    (x e : JournalEntry) (s : Ledger) (k : ℕ)
    → IsFresh s
    → lookup k s.entries ≡ some e
    → lookup k (add_entry x s).entries ≡ some e
lookup-add_entry x e s k fresh found = elim (Bool-cases (s.next_pk == k)) [
  | inl same ↦ let gone = fresh k (let i = (==_iff s.next_pk k).0 same in omega (arith, i)) in cc
  | inr other ↦ lookup-insert s.next_pk k x s.entries ∙ rw other found
]

Remains-set_status :
    (id k : ℕ) (status : JournalEntryStatus) (e : JournalEntry) (t u : Ledger)
    → lookup k t.entries ≡ some e
    → e.is_posted ≡ true
    → u.entries ≡ set_status id status t.entries
    → Remains k e u
Remains-set_status id k status e t u found posted is = elim (Bool-cases (id == k)) [
  | inl same ↦
      let i = (==_iff id k).0 same in
      record {
        row = with_status status e;
        found = rw is (lookup-set_status id k status t.entries ∙ rw (same, i, found) refl);
        posted = posted;
        lines = refl;
        date = refl;
        reference = refl;
      }
  | inr other ↦ record {
    row = e;
    found = rw is (lookup-set_status id k status t.entries ∙ rw (other, found) refl);
    posted = posted;
    lines = refl;
    date = refl;
    reference = refl;
  }
]

Step-Remains :
    (s t : Ledger) (k : ℕ) (e : JournalEntry)
    → IsLedger s
    → lookup k s.entries ≡ some e
    → e.is_posted ≡ true
    → Step s t
    → Remains k e t
Step-Remains s _ k e v found posted (post command t r d h) =
    let p = post_journal_entry-Posting command s t r h in
    record {
      row = e;
      found =
          rw p.end
            (lookup-add_entry (posted_entry command p.currency p.period) e s k v.fresh found);
      posted = posted;
      lines = refl;
      date = refl;
      reference = refl;
    }
Step-Remains s _ k e v found posted (reverse id date t j h) =
    let p = reverse_journal_entry-Reversal id date s t j h in
    Remains-set_status id k reversed e (add_entry (reversal_of id p.original date) s) t
      (lookup-add_entry (reversal_of id p.original date) e s k v.fresh found) posted p.entries
Step-Remains s _ k e v found posted (approve id t h) = elim (approve-IsLedger id s t v h) [
  | inl same ↦ record {
    row = e;
    found = rw same found;
    posted = posted;
    lines = refl;
    date = refl;
    reference = refl;
  }
  | inr x ↦ Remains-set_status id k approved e s t found posted (ap (λ y. y.entries) x)
]

-- A posted entry is immutable: whatever run of operations follows, the entry is found at its key,
-- is posted, and has the lines, the date and the reference that it was posted with.
pub Run-Remains :
    (s t : Ledger) (k : ℕ) (e : JournalEntry)
    → IsLedger s
    → lookup k s.entries ≡ some e
    → e.is_posted ≡ true
    → Run s t
    → Remains k e t
Run-Remains _ _ k e v found posted (done s) = record {
  row = e;
  found = found;
  posted = posted;
  lines = refl;
  date = refl;
  reference = refl;
}
Run-Remains _ _ k e v found posted (next s u t step run) =
    let a = Step-Remains s u k e v found posted step in
    let b = Run-Remains u t k a.row (Step-IsLedger s u v step) a.found a.posted run in
    record {
      row = b.row;
      found = b.found;
      posted = b.posted;
      lines = b.lines ∙ a.lines;
      date = b.date ∙ a.date;
      reference = b.reference ∙ a.reference;
    }

-- Whatever run of operations follows its posting, a save of a posted entry is refused, and so is
-- its approval.
pub Run-guard_posted_journal_entry :
    (s t : Ledger) (k : ℕ) (e : JournalEntry)
    → IsLedger s
    → lookup k s.entries ≡ some e
    → e.is_posted ≡ true
    → Run s t
    → (guard_posted_journal_entry k t.entries ≡ err validation_error)
      × (approve_journal_entry k t ≡ err journal_already_posted)
unfolding guard_posted_journal_entry approve_journal_entry
Run-guard_posted_journal_entry s t k e v found posted run =
    let a = Run-Remains s t k e v found posted run in
    (rw (guard_posted_journal_entry, a.found, a.posted) refl, rw (a.found, a.posted) refl)
