-- ===== src/Transport.antt =====
-- The dependencies and the handlers of src/transport.
pub mod Session
pub mod Logging
pub mod Notifications
pub mod Catalog
pub mod Auth
pub mod Order
pub mod User
pub mod Prepare
