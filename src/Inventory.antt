-- ===== src/Inventory.antt =====
-- apps/inventory: stock movements, the weighted-average cost, and the documents that move stock.
pub mod Movement
pub mod Cost
pub mod Stock
pub mod Transfer
pub mod Gl
pub mod Adjustment
pub mod Count
pub mod Issue
pub mod Receive
mod Tests
