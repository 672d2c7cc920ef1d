-- ===== src/Pos.antt =====
-- apps/pos: the sessions of cash registers.
pub mod Register
mod Tests
