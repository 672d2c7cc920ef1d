-- ===== src/Pos/Register.antt =====
-- `OpenRegister` and `CloseRegister` of apps/pos/application/use_cases/register_sessions.py, over
-- `CashRegisterSession` of apps/pos/infrastructure/models.py and the ledger. The time of a closing
-- and its text are arguments; notes are left out.
pub mod Sessions
pub mod Entry
pub mod Stuck
use gs_erp.Base.{
  ℕ, suc, ◌+◌, ◌-◌, ◌/◌, String, Bool, true, false, ◌&&◌, Option, none, some, List, [], ◌∷◌, ◌++◌,
  ◌==◌, if◌then◌else◌, any, ℤ, pos, neg, ltb_ℤ, eqb_ℤ, Result, ok, err, ◌>>=◌, ◌>>◌, guard,
  raise_if, or_raise, str_eq, Table, lookup, insert, total, invalid_float, register_already_open,
  register_already_closed, register_not_found, concat, str,
}
use gs_erp.Core.Date.{Date}
use gs_erp.Core.Number.{whole}
use gs_erp.Core.Currency.{Currency, same_currency}
use gs_erp.Core.Money.{Money, add, sub, is_negative}
use gs_erp.Finance.Journal.{JournalLine, JournalEntryDraft, make_draft, debit_only, credit_only}
use gs_erp.Finance.Ledger.{Ledger, PostJournalEntryCommand, post_journal_entry}

pub record CashRegisterSession : Type 0 where
  pub user_id : ℕ
  pub warehouse_id : ℕ
  pub currency_code : String
  pub opening_float : ℤ
  pub closing_float : ℤ
  pub expected_cash : ℤ
  pub variance : ℤ
  pub is_open : Bool

-- The accounts that are resolved by code, where they are found.
pub record RegisterAccounts : Type 0 where
  pub cash : Option ℕ
  pub clearing : Option ℕ
  pub variance : Option ℕ

pub record Registers : Type 0 where
  pub sessions : Table CashRegisterSession
  pub next_pk : ℕ
  pub accounts : RegisterAccounts
  pub ledger : Ledger

pub record OpenRegisterCommand : Type 0 where
  pub user_id : ℕ
  pub warehouse_id : ℕ
  pub opening_float : Money

-- An open session of that user in that warehouse.
abbrev pub is_open_for : ℕ → ℕ → CashRegisterSession → Bool
is_open_for user warehouse s = s.user_id == user && s.warehouse_id == warehouse && s.is_open

-- `OpenRegister.execute`. A new row has a new key.
unfoldable pub open_register : OpenRegisterCommand → Registers → Result (Registers × ℕ)
open_register c s = do
  raise_if (is_negative c.opening_float) invalid_float
  raise_if (any (λ e. is_open_for c.user_id c.warehouse_id e.1) s.sessions) register_already_open
  ok (
    record s {
      sessions =
          s.sessions
          ++ (
            s.next_pk,
            record {
              user_id = c.user_id;
              warehouse_id = c.warehouse_id;
              currency_code = c.opening_float.currency.code;
              opening_float = c.opening_float.amount;
              closing_float = pos 0;
              expected_cash = pos 0;
              variance = pos 0;
              is_open = true;
            },
          )
            ∷ [];
      next_pk = suc s.next_pk;
    },
    s.next_pk,
  )

-- The lines of the entry that a closing posts.
unfoldable pub close_lines : ℕ → ℕ → Option ℕ → Money → Money → Result (List JournalLine)
close_lines cash clearing var_id net_cash variance = do
  debit ← debit_only cash net_cash
  credit ← credit_only clearing net_cash
  if eqb_ℤ variance.amount (pos 0) then ok (debit ∷ credit ∷ []) else elim var_id [
    | none ↦ ok (debit ∷ credit ∷ [])
    | some id ↦
        if ltb_ℤ (pos 0) variance.amount
        then (do
          over ← credit_only id variance
          total ← add net_cash variance
          debit_all ← debit_only cash total
          ok (debit_all ∷ credit ∷ over ∷ []))
        else (do
          let missing : Money = record {
            amount = neg variance.amount;
            currency = variance.currency;
          }
          under ← debit_only id missing
          rest ← sub net_cash missing
          credit_rest ← credit_only clearing rest
          ok (debit ∷ credit_rest ∷ under ∷ []))
  ]

abbrev pub draft_of : Date → String → List JournalLine → JournalEntryDraft
draft_of date reference ls = record { entry_date = date; reference = reference; lines = ls }

-- The `try` block: what it raises is logged, and the ledger stays.
unfoldable pub post_close : Date → String → ℕ → List JournalLine → Ledger → Ledger
post_close date reference session ls ledger =
    elim (do
      draft ← make_draft (draft_of date reference ls)
      post_journal_entry
          (record {
            draft = draft;
            source_type = "pos_session";
            source_id = some session;
            exchange_rate = whole (pos 1);
          })
          ledger) [ ok out ↦ out.0 | err e ↦ ledger ]

-- `_post_session_close_je`: without its two accounts the posting is skipped.
unfoldable pub post_session_close :
    Date → String → ℕ → Money → Money → RegisterAccounts → Ledger → Result Ledger
unfolding close_lines post_close
post_session_close date reference session closing variance accounts ledger = elim accounts.cash [
  | none ↦ ok ledger
  | some cash ↦ elim accounts.clearing [
    | none ↦ ok ledger
    | some clearing ↦ do
      ls ← close_lines cash clearing accounts.variance closing variance
      ok (post_close date reference session ls ledger)
  ]
]

pub record CloseRegisterCommand : Type 0 where
  pub session_id : ℕ
  pub closing_float : Money
  pub expected_cash : Option Money

abbrev pub expected_or_closing : CloseRegisterCommand → Money
expected_or_closing c = elim c.expected_cash [ some m ↦ m | none ↦ c.closing_float ]

abbrev pub closed_session : CashRegisterSession → Money → Money → Money → CashRegisterSession
closed_session session closing expected variance = record session {
  closing_float = closing.amount;
  expected_cash = expected.amount;
  variance = variance.amount;
  is_open = false;
}

-- `CloseRegister.execute`, at a date with its stamp.
unfoldable pub close_register :
    Date → String → CloseRegisterCommand → Registers → Result (Registers × Money)
unfolding post_session_close
close_register closed_at stamp c s = do
  let closing = c.closing_float
  let expected = expected_or_closing c
  raise_if (is_negative closing) invalid_float
  guard (same_currency expected.currency closing.currency) invalid_float
  session ← or_raise (lookup c.session_id s.sessions) register_not_found
  guard session.is_open register_already_closed
  guard (str_eq session.currency_code closing.currency.code) invalid_float
  variance ← sub closing expected
  let reference = concat "POS-CLOSE-" (concat (str c.session_id) (concat "-" stamp))
  ledger ← post_session_close closed_at reference c.session_id closing variance s.accounts s.ledger
  ok (
    record s {
      sessions = insert c.session_id (closed_session session closing expected variance) s.sessions;
      ledger = ledger;
    },
    variance,
  )
