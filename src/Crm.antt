-- ===== src/Crm.antt =====
-- apps/crm: the wallets of customers, which post to the ledger.
pub mod Wallet
mod Tests
