-- ===== src/Conversion.antt =====
-- The conversions of pkg/runtimeapis between CRI 1.9 and CRI 1.12.
pub mod Paths
pub mod Same
pub mod Messages
pub mod Upgrade
pub mod Downgrade
pub mod RoundTrip
pub mod Loss
pub mod All
pub mod Names
pub mod ConvertTo
