-- ===== src/Lan/Validation.antt =====
-- `checkInterfaceName` and `LANSpec.Validate` (api/v1beta1/lan_types.go). An error keeps the value
-- that its message prints; following a nil pointer is a panic.
pub mod Laws
pub mod Errors
pub mod Panics
use k8slan.Base.{
  ℕ, Option, none, some, List, [], ◌∷◌, length, Bool, true, false, ◌||◌, not, leb, ltb, Result, ok,
  err, ◌>>=◌, ◌>>◌, fail_if, deref, ◌==◌, nat_eq, list_eq, if◌then◌else◌,
}
use k8slan.Base.Int.{ℤ, le_zero, gt_nat}
use k8slan.Base.Text.{Text, trim_space}
use k8slan.Netip.{Addr, parse_addr, is_multicast}
use k8slan.Lan.{LanSpec, spokes, max_linux_if_name_len}

pub data SpecError : Type 0 where
  bad_if_name : Text → SpecError
  no_ns : SpecError
  bad_vni : ℤ → SpecError
  bad_group : Text → SpecError
  not_multicast : Text → SpecError
  bad_spoke_count : SpecError

unfoldable pub check_interface_name : Text → Result SpecError (Unit {0})
unfolding nat_eq
check_interface_name ifname =
    let nlen = length ifname in
    if nlen == 0 || ltb max_linux_if_name_len nlen then err (bad_if_name ifname) else ok tt

-- `checkInterfaceName(*name)`
pub check_name : Option Text → Result SpecError (Unit {0})
unfolding check_interface_name
check_name name = do ifname ← deref name; check_interface_name ifname

pub check_ns : Option Text → Result SpecError (Unit {0})
check_ns ns = do name ← deref ns; fail_if (trim_space name == []) no_ns

pub check_vni : Option ℤ → Result SpecError (Unit {0})
check_vni vni = do v ← deref vni; fail_if (le_zero v || gt_nat v 0xffffff) (bad_vni v)

-- The group's address, by `netip.ParseAddr`, has to be a multicast address.
check_addr : Text → Option Addr → Result SpecError (Unit {0})
check_addr grp none = err (bad_group grp)
check_addr grp (some addr) = fail_if (not (is_multicast addr)) (not_multicast grp)

pub check_group : Option Text → Result SpecError (Unit {0})
unfolding check_addr
check_group grp = do g ← deref grp; check_addr g (parse_addr g)

pub check_count : ℕ → Result SpecError (Unit {0})
unfolding nat_eq
check_count n = fail_if (n == 0 || ltb 4095 n) bad_spoke_count

-- The loop over `SpokeList`
check_spokes : List Text → Result SpecError (Unit {0})
unfolding check_interface_name
check_spokes [] = ok tt
check_spokes (ifname ∷ rest) = do check_interface_name ifname; check_spokes rest

unfoldable pub validate : LanSpec → Result SpecError (Unit {0})
unfolding check_name check_ns check_vni check_group check_count check_spokes
validate spec = do
  check_name spec.bridge_name
  check_name spec.vxlan_name
  check_ns spec.ns
  check_vni spec.vni
  check_group spec.vxlan_grp
  check_count (length (spokes spec))
  check_spokes (spokes spec)
