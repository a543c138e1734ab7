-- ===== src/Proxy.antt =====
-- pkg/proxy/proxy.go and the clients of pkg/proxy/apiclient.go, over the connections of all clients.
pub mod World
pub mod Quiet
pub mod Logic
pub mod Client
pub mod Routing
pub mod Handlers
pub mod Dispatch
pub mod Construction
pub mod Probe
pub mod Server
pub mod Stop
