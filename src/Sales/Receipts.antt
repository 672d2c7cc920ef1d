-- ===== src/Sales/Receipts.antt =====
-- Customer receipts and what they are allocated to: the rows of
-- apps/sales/infrastructure/invoice_models.py and the use cases that move them.
pub mod Books
pub mod Allocate
pub mod Unallocate
pub mod CreditNotes
mod Tests
