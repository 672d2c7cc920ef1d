-- ===== src/Finance/Posting.antt =====
-- Entries of two lines, which several use cases post: one amount is debited to an account and
-- credited to another (`JournalLine.debit_only` and `credit_only` of apps/finance/domain/entities.py
-- in a `JournalEntryDraft`, given to `PostJournalEntry`).
use gs_erp.Base.{
  subst, ℕ, String, ◌≡◌, refl, sym, ap, ◌∙◌, inl, inr, Option, List, [], ◌∷◌, ◌++◌, ◌==◌,
  if◌then◌else◌, Bool-cases, ℤ, pos, ◌+ℤ◌, ◌-ℤ◌, neg, neg_parts, int_laws, +ℤ_zero, Result, ok,
  ◌>>=◌, >>=-eq-ok,
}
use gs_erp.Core.Date.{Date}
use gs_erp.Core.Number.{whole}
use gs_erp.Core.Money.{Money, money_zero}
use gs_erp.Finance.Journal.{
  JournalLine, JournalEntryDraft, make_line-IsLine, debit_only, credit_only, IsDraft, make_draft,
  make_draft-IsDraft,
}
use gs_erp.Finance.Ledger.{Ledger, PostJournalEntryCommand, PostedJournalEntry, post_journal_entry}
use gs_erp.Finance.Ledger.Sums.{balance}
use gs_erp.Finance.Ledger.Balance.{draft_net, post_journal_entry-adds}
use gs_erp.Finance.Ledger.History.{IsLedger, Step, Step-IsLedger}

pub record Pair : Type 0 where
  pub entry_date : Date
  pub reference : String
  pub debit_account : ℕ
  pub credit_account : ℕ
  pub amount : Money

unfoldable pub pair_draft : Pair → Result JournalEntryDraft
unfolding debit_only credit_only
pair_draft p = do
  debit ← debit_only p.debit_account p.amount
  credit ← credit_only p.credit_account p.amount
  make_draft
      (record { entry_date = p.entry_date; reference = p.reference; lines = debit ∷ credit ∷ [] })

-- The command's rate is the default.
abbrev pub command_of : JournalEntryDraft → String → Option ℕ → PostJournalEntryCommand
command_of draft source_type source_id = record {
  draft = draft;
  source_type = source_type;
  source_id = source_id;
  exchange_rate = whole (pos 1);
}

unfoldable pub post_pair : Pair → String → Option ℕ → Ledger → Result (Ledger × PostedJournalEntry)
unfolding pair_draft
post_pair p source_type source_id s = do
  draft ← pair_draft p
  post_journal_entry (command_of draft source_type source_id) s

-- The same entry with its credit first.
unfoldable pub credit_first_draft : Pair → Result JournalEntryDraft
credit_first_draft p = do
  credit ← credit_only p.credit_account p.amount
  debit ← debit_only p.debit_account p.amount
  make_draft
      (record { entry_date = p.entry_date; reference = p.reference; lines = credit ∷ debit ∷ [] })

unfoldable pub post_credit_first :
    Pair → String → Option ℕ → Ledger → Result (Ledger × PostedJournalEntry)
unfolding credit_first_draft
post_credit_first p source_type source_id s = do
  draft ← credit_first_draft p
  post_journal_entry (command_of draft source_type source_id) s

abbrev pub debit_line : ℕ → Money → JournalLine
debit_line a m = record { account_id = a; debit = m; credit = money_zero m.currency }

abbrev pub credit_line : ℕ → Money → JournalLine
credit_line a m = record { account_id = a; debit = money_zero m.currency; credit = m }

pub debit_only-debit_line :
    (a : ℕ) (m : Money) (l : JournalLine) → debit_only a m ≡ ok l → l ≡ debit_line a m
unfolding debit_only
debit_only-debit_line a m l h = (make_line-IsLine (debit_line a m) l h).0

pub credit_only-credit_line :
    (a : ℕ) (m : Money) (l : JournalLine) → credit_only a m ≡ ok l → l ≡ credit_line a m
unfolding credit_only
credit_only-credit_line a m l h = (make_line-IsLine (credit_line a m) l h).0

-- What moving an amount from one account to another adds to the balance of an account.
abbrev pub moved : ℕ → ℕ → ℤ → ℕ → ℤ
moved debit credit n a = (if debit == a then n else pos 0) +ℤ (if credit == a then neg n else pos 0)

record Paired (p : Pair) (d : JournalEntryDraft) : Type 0 where
  lines : d.lines ≡ debit_line p.debit_account p.amount ∷ credit_line p.credit_account p.amount ∷ []
  valid : IsDraft d

pair_draft-Paired : (p : Pair) (d : JournalEntryDraft) → pair_draft p ≡ ok d → Paired p d
unfolding pair_draft
pair_draft-Paired p d h =
    let (x, e1, h1) = >>=-eq-ok (debit_only p.debit_account p.amount) _ h in
    let (y, e2, h2) = >>=-eq-ok (credit_only p.credit_account p.amount) _ h1 in
    let is_x = debit_only-debit_line p.debit_account p.amount x e1 in
    let is_y = credit_only-credit_line p.credit_account p.amount y e2 in
    let (is_d, valid) = make_draft-IsDraft _ d h2 in
    record {
      lines = ap (λ z. z.lines) is_d ∙ rw (is_x, is_y) refl;
      valid = subst IsDraft (sym is_d) valid;
    }

debit_net :
    (a b : ℕ) (n : ℤ) → (if a == b then n -ℤ pos 0 else pos 0) ≡ (if a == b then n else pos 0)
debit_net a b n = grind int_laws

credit_net :
    (a b : ℕ) (n : ℤ) → (if a == b then pos 0 -ℤ n else pos 0) ≡ (if a == b then neg n else pos 0)
credit_net a b n = elim (Bool-cases (a == b)) [
  | inl same ↦ rw same (omega (int_laws, neg_parts n))
  | inr other ↦ rw other refl
]

pub pair_net :
    (d c : ℕ) (m : Money) (a : ℕ)
    → draft_net a (debit_line d m ∷ credit_line c m ∷ []) ≡ moved d c m.amount a
pair_net d c m a = rw (debit_net d a m.amount, credit_net c a m.amount, +ℤ_zero) refl

-- Posting a valid draft keeps a ledger's invariant and adds the lines to the balances.
pub post_journal_entry-Adds :
    (command : PostJournalEntryCommand) (s t : Ledger) (r : PostedJournalEntry)
    → IsLedger s
    → IsDraft command.draft
    → post_journal_entry command s ≡ ok (t, r)
    → ((a : ℕ) → balance a t.entries ≡ balance a s.entries +ℤ draft_net a command.draft.lines)
      × IsLedger t
post_journal_entry-Adds command s t r v valid h = (
  (post_journal_entry-adds command s t r v.fresh valid v.sound h).0,
  Step-IsLedger s t v (Step.post command t r valid h),
)

-- A posted entry of two lines moves its amount from the credited account to the debited one, and
-- nothing else.
pub post_pair-moves :
    (p : Pair) (source_type : String) (source_id : Option ℕ) (s t : Ledger) (r : PostedJournalEntry)
    → IsLedger s
    → post_pair p source_type source_id s ≡ ok (t, r)
    → ((a : ℕ)
        → balance a t.entries
          ≡ balance a s.entries +ℤ moved p.debit_account p.credit_account p.amount.amount a)
      × IsLedger t
unfolding post_pair
post_pair-moves p source_type source_id s t r v h =
    let (d, e1, h1) = >>=-eq-ok (pair_draft p) _ h in
    let a = pair_draft-Paired p d e1 in
    let (adds, keeps) =
      post_journal_entry-Adds (command_of d source_type source_id) s t r v a.valid h1 in
    (
      λ k.
          adds k
          ∙ ap (λ x. balance k s.entries +ℤ x)
              (ap (draft_net k) a.lines ∙ pair_net p.debit_account p.credit_account p.amount k),
      keeps,
    )

pub draft_net-append :
    (a : ℕ) (xs ys : List JournalLine) → draft_net a (xs ++ ys) ≡ draft_net a xs +ℤ draft_net a ys
draft_net-append a [] ys = omega int_laws
draft_net-append a (x ∷ xs) ys = rw (draft_net-append a xs ys) (omega int_laws)

-- One line on the debit side, or on the credit side.
pub debit_line-net :
    (d : ℕ) (m : Money) (a : ℕ)
    → draft_net a (debit_line d m ∷ []) ≡ (if d == a then m.amount else pos 0)
debit_line-net d m a = rw (debit_net d a m.amount, +ℤ_zero) refl

pub credit_line-net :
    (c : ℕ) (m : Money) (a : ℕ)
    → draft_net a (credit_line c m ∷ []) ≡ (if c == a then neg m.amount else pos 0)
credit_line-net c m a = rw (credit_net c a m.amount, +ℤ_zero) refl

pub swap_sides : (d c : ℕ) (n : ℤ) (a : ℕ) → moved d c n a ≡ moved c d (neg n) a
swap_sides d c n a = elim (Bool-cases (d == a)) [
  | inl here ↦ elim (Bool-cases (c == a)) [
    | inl both ↦ rw (here, both) (omega (int_laws, neg_parts n, neg_parts (neg n)))
    | inr other ↦ rw (here, other) (omega (int_laws, neg_parts n, neg_parts (neg n)))
  ]
  | inr there ↦ elim (Bool-cases (c == a)) [
    | inl both ↦ rw (there, both) (omega (int_laws, neg_parts n, neg_parts (neg n)))
    | inr other ↦ rw (there, other) refl
  ]
]

swap_sum :
    (c d : ℕ) (n : ℤ) (a : ℕ)
    → (if c == a then neg n else pos 0) +ℤ (if d == a then n else pos 0) ≡ moved d c n a
swap_sum c d n a = omega int_laws

credit_debit-net :
    (c d : ℕ) (m : Money) (a : ℕ)
    → draft_net a (credit_line c m ∷ debit_line d m ∷ []) ≡ moved d c m.amount a
credit_debit-net c d m a =
    draft_net-append a (credit_line c m ∷ []) (debit_line d m ∷ [])
    ∙ rw (credit_line-net c m a, debit_line-net d m a) (swap_sum c d m.amount a)

-- An entry with its credit first moves the same.
pub post_credit_first-moves :
    (p : Pair) (source_type : String) (source_id : Option ℕ) (s t : Ledger) (r : PostedJournalEntry)
    → IsLedger s
    → post_credit_first p source_type source_id s ≡ ok (t, r)
    → ((a : ℕ)
        → balance a t.entries
          ≡ balance a s.entries +ℤ moved p.debit_account p.credit_account p.amount.amount a)
      × IsLedger t
unfolding post_credit_first credit_first_draft
post_credit_first-moves p source_type source_id s t r v h =
    let (d, e, h0) = >>=-eq-ok (credit_first_draft p) _ h in
    let (x, e1, h1) = >>=-eq-ok (credit_only p.credit_account p.amount) _ e in
    let (y, e2, h2) = >>=-eq-ok (debit_only p.debit_account p.amount) _ h1 in
    let is_x = credit_only-credit_line p.credit_account p.amount x e1 in
    let is_y = debit_only-debit_line p.debit_account p.amount y e2 in
    let (is_d, valid) = make_draft-IsDraft _ d h2 in
    let (adds, keeps) =
      post_journal_entry-Adds (command_of d source_type source_id) s t r v
        (subst IsDraft (sym is_d) valid) h0 in
    (
      λ a.
          adds a
          ∙ ap (λ z. balance a s.entries +ℤ draft_net a z.lines) is_d
          ∙ rw (is_x, is_y)
              (ap (λ z. balance a s.entries +ℤ z)
                (credit_debit-net p.credit_account p.debit_account p.amount a)),
      keeps,
    )
