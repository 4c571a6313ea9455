-- ===== src/Scanner.antt =====
-- The package `scanner`.
pub mod Ports
pub mod Quorum
pub mod Throttle
pub mod Batch
pub mod ScanPort
pub mod Rotate
pub mod Region
pub mod Banner
pub mod Services
pub mod Direct
pub mod Run
pub mod Expand
mod Examples
