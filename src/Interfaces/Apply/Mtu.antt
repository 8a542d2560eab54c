-- ===== src/Interfaces/Apply/Mtu.antt =====
-- The MTU of the vxlan link (pkg/interfaces/apply.go and vxlan.go): an `int` that is made a
-- `uint32`.
use k8slan.Base.{ℕ, ◌+◌, ◌^◌, ◌<◌, ◌≡◌, ltb, arith, if◌then◌else◌}
use k8slan.Interfaces.Vxlan.{to_uint32}
use k8slan.Interfaces.Apply.{inner_mtu}

-- The MTU of the vxlan link is that of the device below it less 74, if that is 74 or more; below 74
-- it wraps to a number near 2 ^ 32. The device's MTU is below 2 ^ 32.
pub to_uint32-inner_mtu :
    (mtu : ℕ)
    → mtu < 2 ^ 32
    → to_uint32 (inner_mtu mtu) + 74 ≡ (if ltb mtu 74 then 2 ^ 32 + mtu else mtu)
unfolding to_uint32 inner_mtu
to_uint32-inner_mtu mtu h = ground arith
