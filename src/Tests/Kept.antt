-- ===== src/Tests/Kept.antt =====
-- A kernel in which the vxlan link of the LAN of the tests is there with its configuration.
use k8slan.Base.{◌≡◌, refl, false, some, [], ◌∷◌, ok, ◌==◌, list_eq, nat_eq, if◌then◌else◌}
use k8slan.Base.Int.{pos}
use k8slan.Base.Text.{Text, bytes}
use k8slan.Netip.{Addr, v6, parse_addr}
use k8slan.Lan.{default_vx_port, default_vx_grp}
use k8slan.Interfaces.Netlink.{Link, Netlink, VxlanAttrs}
use k8slan.Interfaces.Apply.{vxlan_needed}
use k8slan.Interfaces.Apply.Check.{IsLanLink, vxlan_needed_iff}
use k8slan.Tests.Node.{node}
use k8slan.Tests.Kernel.{link, kernel}
use k8slan.Tests.Data.{lan_example}

-- As the kernel prints the group.
abbrev pub vx : VxlanAttrs
vx = record {
  group = bytes "ff02::14";
  vxlan_id = pos 222;
  vtep_dev_index = 7;
  port = default_vx_port;
}

abbrev pub kept : Link
kept = record (link (bytes "vx2") (bytes "vxlan")) { vxlan = some vx }

unfoldable pub kept_link : Text → Link
unfolding list_eq nat_eq
kept_link name =
    if name == bytes "vx2"
    then kept
    else link name (if name == bytes "br2" then bytes "bridge" else bytes "veth")

abbrev pub keeper : Netlink node
keeper = record kernel { link_by_name = λ name s. (ok (kept_link name), s) }

abbrev pub group_addr : Addr
group_addr = v6 (255 ∷ 2 ∷ 0 ∷ 0 ∷ 0 ∷ 0 ∷ 0 ∷ 0 ∷ 0 ∷ 0 ∷ 0 ∷ 0 ∷ 0 ∷ 0 ∷ 0 ∷ 20 ∷ []) []

kept-IsLanLink : IsLanLink lan_example 7 kept
unfolding parse_addr
kept-IsLanLink = record {
  group = default_vx_grp;
  addr = group_addr;
  vx = vx;
  lan_group = refl;
  lan_addr = refl;
  is_vxlan = refl;
  attrs = refl;
  same_group = refl;
  same_vni = refl;
  same_dev = refl;
  same_port = refl;
}

vxlan_needed_iff_example : vxlan_needed node keeper lan_example 7 [] ≡ (ok false, [])
unfolding kept_link
vxlan_needed_iff_example =
    (vxlan_needed_iff node keeper lan_example 7 [] []).1
      (bytes "vx2", kept, refl, refl, kept-IsLanLink)
