-- ===== src/Views.antt =====
-- web/app/components: what the panel's views and windows show, and what their buttons do.
pub mod Windows
pub mod Locations
pub mod Link
pub mod Share
pub mod Setup
pub mod Group
pub mod Devices
mod Tests
