-- ===== src/Finance/Tax.antt =====
-- Taxes: `TaxCode` and `TaxTransaction` of apps/finance/infrastructure/tax_models.py, and
-- `CalculateTax` and `SettleVAT` of apps/finance/application/use_cases. Amounts and rates are counts
-- of 0.0001, a rate being a percentage. Memos, actors and audit events are left out.
pub mod Amount
pub mod Settlement
use gs_erp.Base.{
  ℕ, zero, ◌+◌, ◌-◌, ◌*◌, ◌/◌, String, Bool, true, false, ◌&&◌, Option, none, some, List, [], ◌∷◌,
  ◌++◌, if◌then◌else◌, length, any, ℤ, pos, ◌+ℤ◌, ◌-ℤ◌, abs, ltb_ℤ, eqb_ℤ, Result, ok, ◌>>=◌, ◌>>◌,
  guard, raise_if, or_raise, is_empty_text, str_eq, value_error, integrity_error, Rows, concat, str,
  duplicate_settlement, no_tax_transactions, two_digits,
}
use gs_erp.Core.Date.{Date, not_after}
use gs_erp.Core.Number.{Decimal, product, at_storage, percent, quantize}
use gs_erp.Core.Currency.{Currency, Unicode, make_currency}
use gs_erp.Core.Money.{Money, is_zero}
use gs_erp.Finance.Journal.{JournalLine, JournalEntryDraft, make_draft, debit_only, credit_only}
use gs_erp.Finance.Ledger.{JournalEntry, Ledger, post_journal_entry}
use gs_erp.Finance.Posting.{command_of}

pub data TaxDirection : Type 0 where
  output input : TaxDirection

abbrev pub same_direction : TaxDirection → TaxDirection → Bool
same_direction output output = true
same_direction input input = true
same_direction _ _ = false

pub record TaxCode : Type 0 where
  pub rate : ℤ
  pub tax_type : TaxDirection
  pub is_active : Bool

pub record TaxTransaction : Type 0 where
  pub tax_code_id : ℕ
  pub direction : TaxDirection
  pub txn_date : Date
  pub source_type : String
  pub source_id : ℕ
  pub net_amount : ℤ
  pub tax_amount : ℤ
  pub currency_code : String
  pub journal_entry_id : Option ℕ

-- A transaction's key is its place.
pub record TaxBooks : Type 0 where
  pub tax_codes : Rows TaxCode
  pub transactions : List TaxTransaction
  pub ledger : Ledger

pub record CalculateTaxCommand : Type 0 where
  pub net_amount : ℤ
  pub tax_code_id : ℕ
  pub direction : TaxDirection
  pub txn_date : Date
  pub currency_code : String
  pub source_type : String
  pub source_id : ℕ
  pub journal_entry_id : Option ℕ

pub record TaxCalculationResult : Type 0 where
  pub tax_code_id : ℕ
  pub rate : ℤ
  pub net_amount : ℤ
  pub tax_amount : ℤ
  pub gross_amount : ℤ
  pub currency_code : String
  pub tax_transaction_id : Option ℕ

-- `TaxCode.objects.get(pk=..., is_active=True)`
abbrev pub active_code : Option TaxCode → Option TaxCode
active_code none = none
active_code (some c) = if c.is_active then some c else none

-- `(net_amount * rate / _HUNDRED).quantize(_PRECISION, ROUND_HALF_UP)`
unfoldable pub tax_on : ℤ → ℤ → ℤ
tax_on net_amount rate = quantize 4 (product (at_storage net_amount) (percent (at_storage rate)))

abbrev pub transaction_of : CalculateTaxCommand → ℤ → TaxTransaction
transaction_of c tax_amount = record {
  tax_code_id = c.tax_code_id;
  direction = c.direction;
  txn_date = c.txn_date;
  source_type = c.source_type;
  source_id = c.source_id;
  net_amount = c.net_amount;
  tax_amount = tax_amount;
  currency_code = c.currency_code;
  journal_entry_id = c.journal_entry_id;
}

-- `_persist_tax_transaction`: a constraint of the table refuses a negative tax.
unfoldable pub persist_tax_transaction : CalculateTaxCommand → ℤ → TaxBooks → Result (TaxBooks × ℕ)
persist_tax_transaction c tax_amount s = do
  raise_if (ltb_ℤ tax_amount (pos 0)) integrity_error
  ok (
    record s { transactions = s.transactions ++ transaction_of c tax_amount ∷ [] },
    length s.transactions,
  )

-- `CalculateTax.execute`
unfoldable pub calculate_tax :
    CalculateTaxCommand → TaxBooks → Result (TaxBooks × TaxCalculationResult)
unfolding tax_on persist_tax_transaction
calculate_tax c s = do
  tax_code ← or_raise (active_code (s.tax_codes c.tax_code_id)) value_error
  guard (same_direction c.direction tax_code.tax_type) value_error
  let tax_amount = tax_on c.net_amount tax_code.rate
  (t, key) ← persist_tax_transaction c tax_amount s
  ok (
    t,
    record {
      tax_code_id = c.tax_code_id;
      rate = tax_code.rate;
      net_amount = c.net_amount;
      tax_amount = tax_amount;
      gross_amount = c.net_amount +ℤ tax_amount;
      currency_code = c.currency_code;
      tax_transaction_id = some key;
    },
  )

pub record SettleVatCommand : Type 0 where
  pub date_from : Date
  pub date_to : Date
  pub tax_payable_account_id : ℕ
  pub tax_recoverable_account_id : ℕ
  pub settlement_account_id : ℕ
  pub currency_code : String
  pub reference : String

pub record SettleVatResult : Type 0 where
  pub journal_entry_id : ℕ
  pub output_tax : ℤ
  pub input_tax : ℤ
  pub net_vat : ℤ
  pub currency_code : String

-- `command.reference or f"VAT-{year}-{month:02d}"`
unfoldable pub settlement_reference : SettleVatCommand → String
settlement_reference c =
    if is_empty_text c.reference
    then concat "VAT-" (concat (str c.date_from.year) (concat "-" (two_digits c.date_to.month)))
    else c.reference

-- The filter of the aggregate.
abbrev pub is_settled_by : SettleVatCommand → TaxTransaction → Bool
is_settled_by c t =
    not_after c.date_from t.txn_date
    && not_after t.txn_date c.date_to
    && str_eq t.currency_code c.currency_code

-- `Sum("tax_amount", filter=Q(direction=...))`; no row counts as zero.
abbrev pub tax_sum : SettleVatCommand → TaxDirection → List TaxTransaction → ℤ
tax_sum c d [] = pos 0
tax_sum c d (t ∷ ts) =
    (if is_settled_by c t && same_direction t.direction d then t.tax_amount else pos 0)
    +ℤ tax_sum c d ts

-- A settlement with that reference.
abbrev pub is_settlement : String → JournalEntry → Bool
is_settlement reference e =
    str_eq e.reference reference && str_eq e.source_type "finance.vat_settlement"

-- A line, unless the amount is zero.
abbrev pub debit_unless_zero : ℕ → Money → Result (List JournalLine)
debit_unless_zero account m =
    if is_zero m then ok [] else (do l ← debit_only account m; ok (l ∷ []))

abbrev pub credit_unless_zero : ℕ → Money → Result (List JournalLine)
credit_unless_zero account m =
    if is_zero m then ok [] else (do l ← credit_only account m; ok (l ∷ []))

-- The line for the net: owed, to be refunded, or none.
abbrev pub net_line : ℕ → Currency → ℤ → Result (List JournalLine)
net_line account currency net =
    if ltb_ℤ (pos 0) net
    then (do
      l ← credit_only account (record { amount = pos (abs net); currency = currency })
      ok (l ∷ []))
    else if ltb_ℤ net (pos 0)
    then (do
      l ← debit_only account (record { amount = pos (abs net); currency = currency })
      ok (l ∷ []))
    else ok []

unfoldable pub settlement_lines : SettleVatCommand → Currency → ℤ → ℤ → Result (List JournalLine)
settlement_lines c currency output_tax input_tax = do
  payable ←
      debit_unless_zero c.tax_payable_account_id
        (record { amount = output_tax; currency = currency })
  recoverable ←
      credit_unless_zero c.tax_recoverable_account_id
        (record { amount = input_tax; currency = currency })
  net ← net_line c.settlement_account_id currency (output_tax -ℤ input_tax)
  ok (payable ++ (recoverable ++ net))

abbrev pub settlement_draft : SettleVatCommand → List JournalLine → JournalEntryDraft
settlement_draft c ls = record {
  entry_date = c.date_to;
  reference = settlement_reference c;
  lines = ls;
}

-- `SettleVAT.execute`
unfoldable pub settle_vat :
    Unicode → SettleVatCommand → TaxBooks → Result (TaxBooks × SettleVatResult)
unfolding settlement_reference settlement_lines
settle_vat u c s = do
  raise_if (any (λ e. is_settlement (settlement_reference c) e.1) s.ledger.entries)
      duplicate_settlement
  let output_tax = tax_sum c output s.transactions
  let input_tax = tax_sum c input s.transactions
  raise_if (eqb_ℤ output_tax (pos 0) && eqb_ℤ input_tax (pos 0)) no_tax_transactions
  currency ← make_currency u c.currency_code (pos 2)
  lines ← settlement_lines c currency output_tax input_tax
  draft ← make_draft (settlement_draft c lines)
  (ledger, posted) ← post_journal_entry (command_of draft "finance.vat_settlement" none) s.ledger
  ok (
    record s { ledger = ledger },
    record {
      journal_entry_id = posted.entry_id;
      output_tax = output_tax;
      input_tax = input_tax;
      net_vat = output_tax -ℤ input_tax;
      currency_code = c.currency_code;
    },
  )
