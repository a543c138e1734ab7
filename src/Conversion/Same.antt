-- ===== src/Conversion/Same.antt =====
-- The messages with the same fields in both versions, and their conversions: each copies the fields,
-- and converts the messages that it holds.
pub mod Values
pub mod Containers
pub mod Lifecycle
pub mod Stats
pub mod Streams
pub mod Sandboxes
pub mod Images
pub mod Services
pub mod All
