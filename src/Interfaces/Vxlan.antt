-- ===== src/Interfaces/Vxlan.antt =====
-- The VXLAN link (pkg/interfaces/vxlan.go). `netip.MustParseAddr` panics on what is no address.
pub mod Ends
pub mod Made
use k8slan.Base.{
  ℕ, ◌-◌, ◌%◌, ◌^◌, true, false, not, none, some, Result, ok, err, panic, if◌then◌else◌,
}
use k8slan.Base.Int.{ℤ, pos, negsuc}
use k8slan.Base.Text.{Text, bytes}
use k8slan.Base.Io.{Io, Error, message, is_errno, fail, ◌>>=◌, attempt, deref_io}
use k8slan.Netip.{Addr, parse_addr, is_multicast, as_slice}
use k8slan.Lan.{LanSpec}
use k8slan.Interfaces.System.{System}
use k8slan.Interfaces.Netlink.{new_vxlan, Netlink}

abbrev pub br_slave_grp_fwd_mask : ℕ
br_slave_grp_fwd_mask = 65533

abbrev pub max_vxlan_encap_overhead : ℕ
max_vxlan_encap_overhead = 74

abbrev pub eexist : ℕ
eexist = 17

-- `uint32(i)`
unfoldable pub to_uint32 : ℤ → ℕ
to_uint32 (pos n) = n % 2 ^ 32
to_uint32 (negsuc n) = 2 ^ 32 - 1 - n % 2 ^ 32

-- `netip.MustParseAddr(s)`
unfoldable pub must_parse_addr {ℓ} : {S : Type ℓ} → Text → Io S Addr
must_parse_addr text s = elim (parse_addr text) [ none ↦ (panic, s) | some addr ↦ (ok addr, s) ]

module _ (sys : System) (net : Netlink sys) where
  -- The link has one queue each way.
  ensure_vxlan_if : Text → ℕ → ℕ → ℤ → Addr → ℕ → ℤ → Io sys.State (Unit {0})
  unfolding as_slice
  ensure_vxlan_if name dev_fd netns vni grp mtu port =
      if not (is_multicast grp) then fail (message (bytes "not a multicast address")) else (do
        newif ←
            net.link_add
              (new_vxlan name mtu (pos 1024) netns (as_slice grp) vni dev_fd port true false 3600)
        (λ s. (ok tt, s)))

  -- A link that exists is no error.
  unless_exists : Result Error (Unit {0}) → Io sys.State (Unit {0})
  unfolding is_errno
  unless_exists (ok u) s = (ok tt, s)
  unless_exists (err e) s = if not (is_errno e eexist) then (err e, s) else (ok tt, s)
  unless_exists panic s = (panic, s)

  unfoldable pub create_vxlan_if : LanSpec → ℕ → ℕ → ℤ → ℤ → Io sys.State (Unit {0})
  unfolding must_parse_addr ensure_vxlan_if unless_exists to_uint32
  create_vxlan_if lan dev_fd netns mtu port = do
    grp ← deref_io lan.vxlan_grp
    grp_addr ← must_parse_addr grp
    name ← deref_io lan.vxlan_name
    vni ← deref_io lan.vni
    result ← attempt (ensure_vxlan_if name dev_fd netns vni grp_addr (to_uint32 mtu) port)
    unless_exists result
