-- ===== src/Interfaces.antt =====
-- The package that sets up a LAN on a node (pkg/interfaces): namespaces, macvtap, VXLAN.
pub mod System
pub mod Returns
pub mod Kernel
pub mod Namespace
pub mod Netlink
pub mod Macvtap
pub mod Vxlan
pub mod Apply
