-- ===== src/Finance/Ledger/Correction.antt =====
-- The correction of an entry: it is posted, and then reversed.
use gs_erp.Base.{
  subst, ℕ, ◌≡◌, refl, sym, ap, ◌∙◌, some, ==_refl, ℤ, pos, ◌+ℤ◌, ok, err, lookup, lookup-insert,
  journal_already_posted, +ℤ-cancel_right, negsuc, half_up-mul, ◌*ℤ◌, arith, neg_ℕ, suc, ◌*◌,
  neg-*ℤ, ◌^◌, half_up,
}
use gs_erp.Core.Date.{Date}
use gs_erp.Core.Number.{quantize-product, quantize_neg, whole}
use gs_erp.Finance.Journal.{IsDraft}
use gs_erp.Finance.Ledger.{
  LedgerLine, Ledger, PostJournalEntryCommand, PostedJournalEntry, posted_entry, reversal_of,
  add_entry, with_status, reversed, save_line, mirror_line, functional, post_journal_entry,
  reverse_journal_entry,
}
use gs_erp.Finance.Ledger.Sums.{balance, IsSound, lookup-set_status}
use gs_erp.Finance.Ledger.Balance.{
  Posting, post_journal_entry-Posting, post_journal_entry-adds, reverse_journal_entry-Reversal,
  reverse_journal_entry-nets, draft_net, draft_on_account,
}
use gs_erp.Finance.Ledger.History.{IsLedger, Step-IsLedger, Step}
use gs_erp.Finance.Ledger.Immutable.{lookup-add_entry}

posted_row :
    (command : PostJournalEntryCommand) (s t : Ledger) (r : PostedJournalEntry)
    → (p : Posting command s t r)
    → lookup r.entry_id t.entries ≡ some (posted_entry command p.currency p.period)
posted_row command s t r p =
    rw (p.end, p.id)
      (lookup-insert s.next_pk s.next_pk (posted_entry command p.currency p.period) s.entries
        ∙ rw (==_refl s.next_pk) refl)

-- The same where other tables have changed in between.
pub post-reverse_later :
    (command : PostJournalEntryCommand) (s t later u : Ledger) (r : PostedJournalEntry)
    (date : Date) (k : ℕ)
    → IsLedger s
    → IsDraft command.draft
    → post_journal_entry command s ≡ ok (t, r)
    → later.entries ≡ t.entries
    → later.next_pk ≡ t.next_pk
    → reverse_journal_entry r.entry_id date later ≡ ok (u, k)
    → ((a : ℕ) → balance a u.entries ≡ balance a s.entries) × IsLedger u
post-reverse_later command s t later u r date k v d h rows next g =
    let p = post_journal_entry-Posting command s t r h in
    let w = Step-IsLedger s t v (Step.post command t r d h) in
    let at_later : IsLedger later = record {
      fresh = λ j le. ap (lookup j) rows ∙ w.fresh j (rw next at le);
      sound = subst IsSound (sym rows) w.sound;
    } in
    let (added, _) = post_journal_entry-adds command s t r v.fresh d v.sound h in
    let (netted, _) =
      reverse_journal_entry-nets r.entry_id date later u k
        (posted_entry command p.currency p.period) at_later.fresh at_later.sound
        (ap (lookup r.entry_id) rows ∙ posted_row command s t r p) g in
    (
      λ a.
          let same = draft_on_account a command.exchange_rate command.draft.lines in
          +ℤ-cancel_right _ _ (draft_net a command.draft.lines) (
            ap (λ x. balance a u.entries +ℤ x) (sym same)
            ∙ netted a
            ∙ ap (balance a) rows
            ∙ added a),
      Step-IsLedger later u at_later (Step.reverse r.entry_id date u k g),
    )

-- An entry that is posted and then reversed leaves every account's balance as it was before.
pub post-reverse :
    (command : PostJournalEntryCommand) (s t u : Ledger) (r : PostedJournalEntry) (date : Date)
    (k : ℕ)
    → IsLedger s
    → IsDraft command.draft
    → post_journal_entry command s ≡ ok (t, r)
    → reverse_journal_entry r.entry_id date t ≡ ok (u, k)
    → (a : ℕ) → balance a u.entries ≡ balance a s.entries
post-reverse command s t u r date k v d h g =
    (post-reverse_later command s t t u r date k v d h refl refl g).0

-- An entry is reversed once: to reverse it again is refused, whatever the date.
pub reverse_journal_entry-once :
    (id : ℕ) (date again : Date) (s t : Ledger) (k : ℕ)
    → IsLedger s
    → reverse_journal_entry id date s ≡ ok (t, k)
    → reverse_journal_entry id again t ≡ err journal_already_posted
unfolding reverse_journal_entry
reverse_journal_entry-once id date again s t k v h =
    let p = reverse_journal_entry-Reversal id date s t k h in
    let e = reversal_of id p.original date in
    let row : lookup id t.entries ≡ some (with_status reversed p.original) = rw p.entries (
      lookup-set_status id id reversed (add_entry e s).entries
      ∙ rw (==_refl id, lookup-add_entry e p.original s id v.fresh p.found) refl) in
    rw row refl

unit_times : (n : ℕ) → negsuc n *ℤ pos 1 ≡ neg_ℕ (suc n * 1)
unit_times n = neg-*ℤ (suc n) 1

functional-one : (x : ℤ) → functional (whole (pos 1)) x ≡ x
functional-one (pos n) =
    let e : half_up (n * 1) 1 ≡ n = half_up-mul n 1 (omega arith) in
    quantize-product n 1 0 ∙ ap pos e
functional-one (negsuc n) =
    let e : half_up (suc n * 1 * 10 ^ 4) (10 ^ 4) ≡ suc n =
      half_up-mul (suc n * 1) (10 ^ 4) (omega arith) ∙ one_more n in
    rw (unit_times n) (quantize_neg 4 (suc n * 1) 4 ∙ ap neg_ℕ e)
  where
    one_more : (n : ℕ) → suc n * 1 ≡ suc n
    one_more n = omega arith

-- The reversal of a line carries the line's amounts at a rate of one: its functional debit is the
-- line's credit and its functional credit the line's debit, whatever the rate of the line.
pub mirror_line-functional :
    (l : LedgerLine)
    → ((mirror_line l).functional_debit ≡ l.credit) × ((mirror_line l).functional_credit ≡ l.debit)
unfolding mirror_line save_line
mirror_line-functional l = (functional-one l.credit, functional-one l.debit)
