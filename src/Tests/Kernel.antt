-- ===== src/Tests/Kernel.antt =====
-- A kernel in which the bridge is there, the vxlan link is never found, and all other calls succeed.
use k8slan.Base.{
  ◌≡◌, refl, true, false, none, some, [], ok, err, ◌==◌, list_eq, nat_eq, if◌then◌else◌,
}
use k8slan.Base.Int.{pos}
use k8slan.Base.Text.{Text, bytes}
use k8slan.Base.Io.{Io, link_not_found}
use k8slan.Netip.{parse_addr, is_multicast}
use k8slan.Interfaces.Returns.{RunsInside}
use k8slan.Interfaces.Netlink.{Link, Netlink}
use k8slan.Interfaces.Macvtap.{link_delete, recreate_macvtap}
use k8slan.Interfaces.Vxlan.{create_vxlan_if}
use k8slan.Interfaces.Apply.{inner_mtu, in_ns, ensure}
use k8slan.Interfaces.Apply.Laws.{MadeOn, ensure-MadeOn}
use k8slan.Interfaces.Apply.Wiring.{IsBridge, IsWired, in_ns-IsWired}
use k8slan.Tests.Node.{node}
use k8slan.Tests.Data.{srl, worker, lan_example}

abbrev pub link : Text → Text → Link
link name type_name = record {
  name = name;
  type_name = type_name;
  index = 7;
  mtu = 1500;
  tx_qlen = pos 1000;
  hardware_addr = bytes "02:00:00:00:00:07";
  vxlan = none;
}

unfoldable pub find_link : Text → Io node.State Link
unfolding list_eq nat_eq
find_link name s =
    if name == bytes "vx2"
    then (err link_not_found, s)
    else (ok (link name (if name == bytes "br2" then bytes "bridge" else bytes "veth")), s)

abbrev pub kernel : Netlink node
kernel = record {
  ns_fd = λ ns. 3;
  do_ns = λ A ns run. run (bytes "host");
  link_by_name = find_link;
  link_add = λ new s. (ok (link [] []), s);
  link_del = λ l s. (ok tt, s);
  link_set_up = λ l s. (ok tt, s);
  link_set_master = λ l master s. (ok tt, s);
  link_set_br_slave_group_fwd_mask = λ l mask s. (ok tt, s);
  link_set_name = λ l new s. (ok tt, s);
  link_set_ns_fd = λ l fd s. (ok tt, s);
}

ensured :
    ensure node kernel (bytes "srlM0") srl lan_example worker (bytes "passthru") false []
    ≡ (ok 7, [])
unfolding ensure find_link parse_addr link_delete create_vxlan_if is_multicast recreate_macvtap
ensured = refl

on_spoke :
    (made : Link) × MadeOn node kernel (bytes "srlM0") srl (bytes "passthru") made []
    × (7 ≡ made.index)
on_spoke =
    ensure-MadeOn node kernel (bytes "srlM0") srl lan_example worker (bytes "passthru") false []
      ensured

pub kernel-RunsInside : RunsInside node kernel
kernel-RunsInside = record {
  enter = λ ns s. s;
  leave = λ s t. t;
  ran = λ A ns f s {a} {t} h. (bytes "host", t, h, refl);
}

spoke_made :
    in_ns node kernel lan_example srl (link [] []) (inner_mtu 1500) (bytes "host") []
    ≡ (ok true, [])
unfolding in_ns find_link parse_addr link_delete
spoke_made = refl

in_ns-IsWired_example :
    (name : Text) × (br : Link) × (lan_example.bridge_name ≡ some name)
    × IsBridge node kernel name (inner_mtu 1500) br
    × IsWired node kernel srl (inner_mtu 1500) br (bytes "host") []
in_ns-IsWired_example =
    in_ns-IsWired node kernel lan_example srl (link [] []) (inner_mtu 1500) (bytes "host") [] []
      spoke_made
