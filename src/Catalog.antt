-- ===== src/Catalog.antt =====
-- The catalog: src/services/catalog and src/database/repositories/catalog.py.
pub mod Models
pub mod Checkout
pub mod Images
pub mod Filters
pub mod Publications
pub mod Publishing
pub mod Products
pub mod Sections
