-- ===== src/Lib.antt =====
-- A model of the core of an ERP, written in Python on Django, and what is proved of it.
--
-- The program's parts and the files that model them
--   Core       apps/core/domain/value_objects.py: `Currency`, `Money`, `Quantity` (Core/Currency,
--              Core/Money, Core/Quantity) on the decimals of Core/Number; Core/Date has the order of
--              Python's dates.
--   Sales      apps/sales/domain: `SaleLineSpec` (Sales/Line), `SaleDraft`, `SaleTotals` and
--              `derive_payment_status` (Sales/Draft), the invoice calculator (Sales/Invoice) and the
--              transition tables of sales, delivery notes and quotations (Sales/Status).
--              apps/sales/application/use_cases: allocate_receipt.py, unallocate_receipt.py and
--              apply_credit_note.py (Sales/Receipts, whose Books has the rows that they share).
--   Inventory  apps/inventory/domain/entities.py (Inventory/Movement), and of the use cases
--              compute_average_cost.py (Inventory/Cost), record_stock_movement.py (Inventory/Stock),
--              post_transfer.py with domain/transfer.py (Inventory/Transfer), record_adjustment.py
--              with domain/adjustment.py (Inventory/Adjustment), finalise_stock_count.py with
--              domain/stock_count.py (Inventory/Count), post_inventory_gl.py (Inventory/Gl),
--              issue_sold_inventory.py (Inventory/Issue) and receive_purchased_inventory.py
--              (Inventory/Receive). A count posts an adjustment; adjustments and transfers call the
--              stock movements, and these the cost engine; adjustments and sold lines post their
--              entries through Inventory/Gl to the ledger.
--   Finance    apps/finance/domain/entities.py (Finance/Journal), the fiscal calendar of
--              apps/finance/infrastructure/fiscal_year_models.py with close_fiscal_year.py and
--              generate_fiscal_periods.py (Finance/Fiscal), and post_journal_entry.py,
--              reverse_journal_entry.py and approve_journal_entry.py over the tables and signals of
--              the app (Finance/Ledger). Through the ledger post domain/payment.py with
--              record_payment.py, record_expense.py and record_money_transfer.py (Finance/Payment,
--              on the two-line entries of Finance/Posting), calculate_tax.py and settle_vat.py
--              (Finance/Tax), generate_closing_entries.py (Finance/Closing), and
--              close_fiscal_period.py and reopen_fiscal_period.py (Finance/Closing/Period).
--   Crm        `WalletOperationSpec` of apps/crm/domain/entities.py and the use case
--              record_wallet_operation.py (Crm/Wallet), which posts through the ledger.
--   Pos        register_sessions.py of apps/pos/application/use_cases (Pos/Register): the sessions of
--              cash registers and the entries that their closings post.
--   Treasury   apps/treasury/application/use_cases over cash boxes and bank accounts, which post
--              through the ledger: post_treasury_transaction.py (Treasury),
--              reverse_treasury_transaction.py (Treasury/Reversal), post_treasury_transfer.py and
--              reverse_treasury_transfer.py (Treasury/Transfers).
--   Base       numbers, lists, errors, texts and tables that all parts share.
--
-- How the code is modelled
--   A use case is a function from its command and the rows it reads to a `Result`: the rows after it
--   with what it returns, or the exception. A use case runs in one transaction, so an exception
--   leaves the rows as they were, and one run reads under its locks what no other run writes. A table
--   is a list of keyed rows or, where only single rows are read, a function from keys. All rows are of
--   one organization.
--   The reopening of a period, which locks a row before it opens its transaction, is modelled inside
--   one. Rows that a query groups come in the order of their first line. A count is finalised
--   without a currency, so its adjustment posts no entry.
--   Money, quantities, costs, net amounts and tax rates are counts of 0.0001, the scale that the code quantizes to and that
--   the columns have. A product or quotient is exact until it is rounded: the 28 digits of Python's
--   decimal context are taken to suffice. `ROUND_HALF_UP` and the default `ROUND_HALF_EVEN` are
--   defined in Base/Round.
--   The checks of `isinstance` hold by the types. Keys are natural numbers, so a key that is not
--   positive is zero. `Decimal(text)` and the character classes of Unicode are parameters.
--   `str` of a number runs on fuel above the number, which is enough (Base/Text). The loop
--   over the months of a fiscal year runs on the number of months before the year 10000, at which
--   Python's `date` raises (Finance/Fiscal/Months).
--
-- What is left out
--   Time stamps, memos, audit events, entry numbers and messages of exceptions. The web and REST
--   interfaces, reports, tenancy and the apps that no file above names.
pub mod Base
pub mod Core
pub mod Sales
pub mod Inventory
pub mod Finance
pub mod Crm
pub mod Pos
pub mod Treasury
