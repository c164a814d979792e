-- ===== src/Order.antt =====
-- Orders: src/services/order.
pub mod Constants
pub mod Models
pub mod Payment
pub mod Filing
pub mod Create
pub mod Invoices
pub mod Read
