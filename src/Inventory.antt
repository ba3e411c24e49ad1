-- ===== src/Inventory.antt =====
-- internal/inventory: the hardware inventory.
pub mod Types
pub mod Changes
pub mod Identity
pub mod Health
pub mod Persistence
pub mod Engine
pub mod Rows
pub mod Status
pub mod Security
pub mod Devices
pub mod Disks
pub mod Collector
