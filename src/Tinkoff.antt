-- ===== src/Tinkoff.antt =====
-- The bank: src/integrations/tinkoff.
pub mod Client
mod Models
pub mod Token
mod Tests
pub use Models.*
