-- ===== src/Interfaces/Apply.antt =====
-- What a node is given when a pod asks for a spoke (pkg/interfaces/apply.go, `Ensure`), one
-- definition for each block of the function. Log messages and the pause of a second before the veth
-- pair is made are left out. The function has two variables `err`: the closures and the blocks that
-- declare their own do not set the outer one.
pub mod Bridge
pub mod Check
pub mod Collision
pub mod Ends
pub mod Laws
pub mod Mtu
pub mod Names
pub mod Opened
pub mod Panics
pub mod Stages
pub mod Wiring
use k8slan.Base.{
  ℕ, ◌-◌, Bool, true, false, not, ◌||◌, Option, none, some, Result, ok, err, panic, ltb, ◌==◌,
  list_eq, nat_eq, if◌then◌else◌,
}
use k8slan.Base.Int.{ℤ, pos, negsuc, int_eq}
use k8slan.Base.Dict.{lookup}
use k8slan.Base.Text.{Text, bytes}
use k8slan.Base.Io.{
  Io, Error, message, ◌>>=◌, ◌>>◌, pure, wrapping, printing, ignoring, attempt, deref_io,
}
use k8slan.Netip.{addr_eq}
use k8slan.Lan.{LanSpec, elements}
use k8slan.Interfaces.System.{System}
use k8slan.Interfaces.Netlink.{Link, new_bridge, new_veth, new_dummy, Netlink}
use k8slan.Interfaces.Namespace.{named_path, new_ns, delete_named}
use k8slan.Interfaces.Macvtap.{dummy_if_name, get_peer_veth_name, link_delete, recreate_macvtap}
use k8slan.Interfaces.Vxlan.{
  br_slave_grp_fwd_mask, max_vxlan_encap_overhead, must_parse_addr, create_vxlan_if,
}

-- The link below the vxlan link: the one given for the host, or else the default.
unfoldable pub vx_dev_name : LanSpec → Text → Text
unfolding lookup list_eq nat_eq
vx_dev_name lan hostname = elim (lookup hostname (elements lan.vx_dev_map)) [
  | none ↦ lan.default_vx_dev
  | some dev ↦ dev
]

-- `MTU - maxVxLANEncapOverhead`, an `int` that may be negative
unfoldable pub inner_mtu : ℕ → ℤ
inner_mtu mtu =
    if ltb mtu max_vxlan_encap_overhead
    then negsuc (max_vxlan_encap_overhead - mtu - 1)
    else pos (mtu - max_vxlan_encap_overhead)

-- The link that `LinkByName` returns when its error is dropped: nil on an error.
abbrev pub link_or_nil : Result Error Link → Option Link
link_or_nil (ok l) = some l
link_or_nil (err e) = none
link_or_nil panic = none

module _ (sys : System) (net : Netlink sys) where
  -- The namespace: opened, or made; one that does not open is removed and made again.
  opened_ns : Text → Result Error sys.NetNs → Io sys.State sys.NetNs
  opened_ns name (ok ns) s = (ok ns, s)
  opened_ns name panic s = (panic, s)
  opened_ns name (err e) s =
      (do
        ignoring (delete_named sys name)
        wrapping (bytes "failed to recreate ns") (new_ns sys name))
        s

  stated_ns : Text → Result Error (Unit {0}) → Io sys.State sys.NetNs
  unfolding opened_ns
  stated_ns name (err e) s = wrapping (bytes "failed to create ns") (new_ns sys name) s
  stated_ns name panic s = (panic, s)
  stated_ns name (ok u) s =
      (do opened ← attempt (sys.get_ns (named_path name)); opened_ns name opened) s

  unfoldable pub lan_ns : LanSpec → Io sys.State sys.NetNs
  unfolding stated_ns
  lan_ns lan = do
    name ← deref_io lan.ns
    stated ← attempt (sys.stat (named_path name))
    stated_ns name stated

  unfoldable pub lo_up : sys.NetNs → Io sys.State (Unit {0})
  lo_up ns =
      wrapping (bytes "failed to bring lo up in ns")
        (net.do_ns (Unit {0}) ns λ host. do l ← net.link_by_name (bytes "lo"); net.link_set_up l)

  -- The bridge, nil when the link that was made is not found.
  add_bridge : Text → ℤ → Io sys.State (Option Link)
  add_bridge name mtu = do
    br ← printing (bytes "failed to create bridge") (net.link_add (new_bridge name mtu (negsuc 0)))
    wrapping (bytes "failed to bring bridge up") (net.link_set_up br)
    found ← attempt (net.link_by_name name)
    pure (link_or_nil found)

  found_bridge : Text → ℤ → Result Error Link → Io sys.State (Option Link)
  unfolding add_bridge list_eq nat_eq
  found_bridge name mtu (err e) s = add_bridge name mtu s
  found_bridge name mtu panic s = (panic, s)
  found_bridge name mtu (ok l) s =
      if not (l.type_name == bytes "bridge")
      then (err (message (bytes "interface already exists but not a bridge")), s)
      else (ok (some l), s)

  unfoldable pub lan_bridge : LanSpec → ℤ → Io sys.State (Option Link)
  unfolding found_bridge
  lan_bridge lan mtu = do
    name ← deref_io lan.bridge_name
    found ← attempt (net.link_by_name name)
    found_bridge name mtu found

  -- Whether an existing vxlan link has another group, VNI, device or port than the LAN.
  vxlan_differs : LanSpec → Link → ℕ → Io sys.State Bool
  unfolding must_parse_addr addr_eq int_eq nat_eq
  vxlan_differs lan link dev_index = do
    grp ← deref_io lan.vxlan_grp
    grp_spec ← must_parse_addr grp
    vx ← deref_io link.vxlan
    vx_grp ← must_parse_addr vx.group
    vni ← deref_io lan.vni
    port ← deref_io lan.vx_port
    pure (
        not (grp_spec == vx_grp)
        || not (vx.vxlan_id == vni)
        || not (vx.vtep_dev_index == dev_index)
        || not (vx.port == port))

  found_vxlan : LanSpec → ℕ → Result Error Link → Io sys.State Bool
  unfolding vxlan_differs list_eq nat_eq
  found_vxlan lan dev_index (err e) s = (ok true, s)
  found_vxlan lan dev_index panic s = (panic, s)
  found_vxlan lan dev_index (ok l) s =
      if not (l.type_name == bytes "vxlan")
      then (err (message (bytes "interface already exists but not a vxlink")), s)
      else vxlan_differs lan l dev_index s

  -- Whether the vxlan link is to be made. One that differs is deleted; that the deletion failed is
  -- not looked at.
  unfoldable pub vxlan_needed : LanSpec → ℕ → Io sys.State Bool
  unfolding must_parse_addr found_vxlan
  vxlan_needed lan dev_index = do
    grp ← deref_io lan.vxlan_grp
    grp_spec ← must_parse_addr {S = sys.State} grp
    name ← deref_io lan.vxlan_name
    found ← attempt (net.link_by_name name)
    needed ← found_vxlan lan dev_index found
    (if needed then ignoring (link_delete sys net name) else pure tt)
    pure needed

  -- The veth peer becomes a port of the bridge, and the spoke's link goes to the host.
  connect_peer : Link → Text → Link → sys.NetNs → Io sys.State (Unit {0})
  connect_peer vlink peer_name br host = do
    peer ← wrapping (bytes "failed to find peer veth") (net.link_by_name peer_name)
    wrapping (bytes "failed to set veth to master") (net.link_set_master peer br)
    wrapping (bytes "failed to set veth slave grp fwd mask")
        (net.link_set_br_slave_group_fwd_mask peer br_slave_grp_fwd_mask)
    wrapping (bytes "failed to peer veth up") (net.link_set_up peer)
    net.link_set_ns_fd vlink (net.ns_fd host)

  -- The veth pair of the spoke
  unfoldable pub add_spoke : Text → ℤ → Option Link → sys.NetNs → Io sys.State (Unit {0})
  unfolding get_peer_veth_name connect_peer
  add_spoke spoke mtu bridge host = do
    let peer_name = get_peer_veth_name spoke
    ignoring (link_delete sys net peer_name)
    br ← deref_io bridge
    vlink ←
        printing (bytes "failed to create veth interface")
          (net.link_add (new_veth spoke peer_name br.index mtu (negsuc 0)))
    wrapping (bytes "failed to veth up") (net.link_set_up vlink)
    connect_peer vlink peer_name br host

  -- The vxlan link becomes a port of the bridge.
  unfoldable pub attach_vxlan : LanSpec → sys.NetNs → Io sys.State (Unit {0})
  attach_vxlan lan ns = net.do_ns (Unit {0}) ns λ host. do
    vxlan_name ← deref_io lan.vxlan_name
    vx_link ← net.link_by_name vxlan_name
    bridge_name ← deref_io lan.bridge_name
    br ← net.link_by_name bridge_name
    wrapping (bytes "failed to set master of vxlan interface") (net.link_set_master vx_link br)
    wrapping (bytes "failed to set vxlan slave grp fwd mask")
        (net.link_set_br_slave_group_fwd_mask vx_link br_slave_grp_fwd_mask)
    net.link_set_up vx_link

  -- The vxlan link is made in the namespace. The error of `attach_vxlan` is kept in a variable of
  -- the block, which ends there.
  unfoldable pub add_vxlan : LanSpec → sys.NetNs → Link → ℤ → Io sys.State (Unit {0})
  unfolding attach_vxlan
  add_vxlan lan ns dev mtu = do
    port ← deref_io lan.vx_port
    wrapping (bytes "failed to create vxlan interface")
        (create_vxlan_if sys net lan dev.index (net.ns_fd ns) mtu port)
    ignoring (attach_vxlan lan ns)

  -- The dummy link, made where it is not found.
  pub found_dummy : Result Error Link → Io sys.State (Unit {0})
  found_dummy (ok l) s = (ok tt, s)
  found_dummy panic s = (panic, s)
  found_dummy (err e) s =
      (do
        made ←
            wrapping (bytes "failed to create dummy link") (net.link_add (new_dummy dummy_if_name))
        found ←
            wrapping (bytes "failed to get newly created dummy link")
              (net.link_by_name dummy_if_name)
        pure tt)
        s

  -- The macvtap link of the spoke, on the spoke's link or on the dummy link.
  unfoldable pub add_macvtap : Text → Text → Text → Bool → Io sys.State ℕ
  unfolding found_dummy
  add_macvtap mac_name spoke mode false = recreate_macvtap sys net mac_name spoke mode
  add_macvtap mac_name spoke mode true = do
    found ← attempt (net.link_by_name dummy_if_name)
    found_dummy found
    recreate_macvtap sys net mac_name dummy_if_name (bytes "private")

  -- What is done in the namespace: the bridge, the check of the vxlan link, the veth pair.
  unfoldable pub in_ns : LanSpec → Text → Link → ℤ → sys.NetNs → Io sys.State Bool
  unfolding lan_bridge vxlan_needed add_spoke
  in_ns lan spoke dev mtu host = do
    bridge ← lan_bridge lan mtu
    needed ← vxlan_needed lan dev.index
    add_spoke spoke mtu bridge host
    pure needed

  unfoldable pub ensure : Text → Text → LanSpec → Text → Text → Bool → Io sys.State ℕ
  unfolding lan_ns lo_up in_ns add_vxlan add_macvtap vx_dev_name inner_mtu
  ensure mac_name spoke lan hostname mode dummy = do
    ns ← lan_ns lan
    lo_up ns
    dev ← wrapping (bytes "vxlan dev not found") (net.link_by_name (vx_dev_name lan hostname))
    needed ← net.do_ns Bool ns (in_ns lan spoke dev (inner_mtu dev.mtu))
    (if needed then add_vxlan lan ns dev (inner_mtu dev.mtu) else pure tt)
    vlink ←
        wrapping (bytes "failed to get the created spoke link in host ns") (net.link_by_name spoke)
    wrapping (bytes "failed to bring up spoke link in host ns") (net.link_set_up vlink)
    add_macvtap mac_name spoke mode dummy
