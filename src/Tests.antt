-- ===== src/Tests.antt =====
-- Runs of the code at concrete inputs, with the theorems applied there.
pub mod Data
pub mod Selection
pub mod Activity
pub mod Proxying
pub mod Loading
pub mod Starting
pub mod Connecting
pub mod Measuring
pub mod Storing
pub mod Looping
pub mod Managing
pub mod Showing
pub mod Retaining
pub mod Running
pub mod Pinning
pub mod Routing
pub mod Units
