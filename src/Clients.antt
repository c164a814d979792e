-- ===== src/Clients.antt =====
-- The clients of other systems: src/integrations/integration_client_utils.py and
-- src/integrations/cdek/client.py.
pub mod Cdek
pub mod Httpx
pub mod Trace
mod Tests
