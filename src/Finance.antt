-- ===== src/Finance.antt =====
-- apps/finance: journal entries, the general ledger and the fiscal calendar.
pub mod Journal
pub mod Fiscal
pub mod Ledger
pub mod Posting
pub mod Payment
pub mod Tax
pub mod Closing
mod Tests
