-- ===== src/Tests.antt =====
-- Runs of the model at the README's LAN, and the theorems at concrete data.
mod Data
mod Cluster
mod Node
mod Resource
mod Reconcilers
mod Plugin
mod Kernel
mod Pod
mod Exchange
mod Copies
mod Collision
mod Startup
mod Paths
mod Ended
mod Kept
mod Thread
