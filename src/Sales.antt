-- ===== src/Sales.antt =====
-- apps/sales: the sale, its totals, its life cycle and its documents.
pub mod Line
pub mod Draft
pub mod Invoice
pub mod Status
pub mod Receipts
mod Tests
