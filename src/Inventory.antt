-- ===== src/Inventory.antt =====
-- Inventory valuation: src/inventory.
pub mod Rounding
pub mod Fifo
pub mod Valuation
pub mod Policy
pub mod Serials
mod Examples
