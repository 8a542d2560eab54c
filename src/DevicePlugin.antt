-- ===== src/DevicePlugin.antt =====
-- The device plugin (pkg/deviceplugin): which resources the node offers, and what allocates them.
pub mod Lister
pub mod Plugin
pub mod Channels
pub mod Allocation
