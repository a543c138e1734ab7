-- ===== src/Proxy/Handlers.antt =====
-- The method handlers of pkg/proxy/proxy.go.
pub mod Common
pub mod Sandbox
pub mod Container
pub mod Image
pub mod Listing
pub mod Returns
pub mod Types
