-- ===== src/Core.antt =====
-- The value objects of apps/core/domain/value_objects.py.
pub mod Number
pub mod Date
pub mod Currency
pub mod Money
pub mod Quantity
mod Tests
