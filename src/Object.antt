-- ===== src/Object.antt =====
-- The CRI objects of pkg/proxy/criobject.go, cri19.go and cri110.go.
pub mod Version
pub mod Items
pub mod Sandboxes
pub mod Containers
pub mod Images
pub mod Requests
pub mod Filters
pub mod Responses
pub mod Wrap
pub mod Matcher
