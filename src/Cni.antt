-- ===== src/Cni.antt =====
-- The CNI plugin that moves a spoke's veth link into a pod (cni/k8slanveth).
pub mod Ipam
pub mod Plugin
