-- ===== src/Interfaces/Apply/Panics.antt =====
-- When `Ensure` (pkg/interfaces/apply.go) does not panic.
use k8slan.Base.{
  ◌≡◌, ◌≢◌, refl, ap, ◌∙◌, Bool, true, false, Option-cases, inl, inr, Option, some, Result, ok, err,
  panic, if◌then◌else◌,
}
use k8slan.Base.Int.{ℤ, negsuc}
use k8slan.Base.Text.{Text, bytes}
use k8slan.Base.Io.{Error, ◌>>=◌, wrapping, printing, ignoring, pure}
use k8slan.Base.Returns.{
  Returns, returns_then, returns_bind, returns_pure, returns_printing, returns_wrapping,
  returns_ignoring, returns_deref, attempt_then,
}
use k8slan.Lan.{LanSpec}
use k8slan.Lan.Validation.Laws.{Accepted}
use k8slan.Interfaces.System.{System}
use k8slan.Interfaces.Netlink.{Link, new_veth, new_dummy, Netlink}
use k8slan.Interfaces.Returns.{SystemReturns, NetlinkReturns}
use k8slan.Interfaces.Macvtap.{dummy_if_name, get_peer_veth_name, link_delete}
use k8slan.Interfaces.Macvtap.Ends.{link_delete_returns, recreate_macvtap_returns}
use k8slan.Interfaces.Vxlan.{br_slave_grp_fwd_mask, create_vxlan_if}
use k8slan.Interfaces.Vxlan.Ends.{create_vxlan_if_returns}
use k8slan.Interfaces.Apply.{
  lan_ns, lo_up, lan_bridge, vxlan_needed, connect_peer, add_spoke, attach_vxlan, add_vxlan,
  found_dummy, add_macvtap, in_ns, ensure, inner_mtu, vx_dev_name,
}
use k8slan.Interfaces.Apply.Bridge.{FindsBridges, lan_bridge_some, lan_bridge_returns}
use k8slan.Interfaces.Apply.Ends.{HasGroups, lan_ns_returns, lo_up_returns, vxlan_needed_returns}

module _ (sys : System) (net : Netlink sys) (r : NetlinkReturns sys net) where
  connect_peer_returns :
      (veth : Link) (name : Text) (br : Link) (host : sys.NetNs)
      → Returns (connect_peer sys net veth name br host)
  unfolding connect_peer
  connect_peer_returns veth name br host =
      returns_bind (wrapping (bytes "failed to find peer veth") (net.link_by_name name)) _
        (returns_wrapping (net.link_by_name name) (r.finds name) _)
        λ peer.
          let attach = net.link_set_master peer br in
          returns_bind (wrapping (bytes "failed to set veth to master") attach) _
            (returns_wrapping attach (r.attaches peer br) _)
            λ _.
              let mask = net.link_set_br_slave_group_fwd_mask peer br_slave_grp_fwd_mask in
              returns_bind (wrapping (bytes "failed to set veth slave grp fwd mask") mask) _
                (returns_wrapping mask (r.masks peer br_slave_grp_fwd_mask) _)
                λ _.
                  returns_bind (wrapping (bytes "failed to peer veth up") (net.link_set_up peer)) _
                    (returns_wrapping (net.link_set_up peer) (r.brings_up peer) _)
                    (λ _. r.moves veth (net.ns_fd host))

  add_spoke_returns :
      (spoke : Text) (mtu : ℤ) (bridge : Option Link) (host : sys.NetNs) {br : Link}
      → bridge ≡ some br
      → Returns (add_spoke sys net spoke mtu bridge host)
  unfolding add_spoke
  add_spoke_returns spoke mtu bridge host {br} is =
      let name = get_peer_veth_name spoke in
      let make = net.link_add (new_veth spoke name br.index mtu (negsuc 0)) in
      returns_bind (ignoring (link_delete sys net name)) _
        (returns_ignoring (link_delete sys net name) (link_delete_returns sys net r name))
        λ _. returns_deref _ is (
          returns_bind (printing (bytes "failed to create veth interface") make) _
            (returns_printing make (r.adds _) _)
            λ veth.
              returns_bind (wrapping (bytes "failed to veth up") (net.link_set_up veth)) _
                (returns_wrapping (net.link_set_up veth) (r.brings_up veth) _)
                (λ _. connect_peer_returns veth name br host))

  attach_vxlan_returns :
      (lan : LanSpec) (ns : sys.NetNs) → Accepted lan → Returns (attach_vxlan sys net lan ns)
  unfolding attach_vxlan
  attach_vxlan_returns lan ns acc =
      let (vx_name, vx_set, _) = acc.vxlan in
      let (br_name, br_set, _) = acc.bridge in
      r.does (Unit {0}) ns _ λ host. returns_deref _ vx_set (
        returns_bind (net.link_by_name vx_name) _ (r.finds vx_name) λ vx. returns_deref _ br_set (
          returns_bind (net.link_by_name br_name) _ (r.finds br_name) λ br.
            let attach = net.link_set_master vx br in
            returns_bind (wrapping (bytes "failed to set master of vxlan interface") attach) _
              (returns_wrapping attach (r.attaches vx br) _)
              λ _.
                let mask = net.link_set_br_slave_group_fwd_mask vx br_slave_grp_fwd_mask in
                returns_bind (wrapping (bytes "failed to set vxlan slave grp fwd mask") mask) _
                  (returns_wrapping mask (r.masks vx br_slave_grp_fwd_mask) _)
                  (λ _. r.brings_up vx)))

  add_vxlan_returns :
      (lan : LanSpec) (ns : sys.NetNs) (dev : Link) (mtu : ℤ) {port : ℤ}
      → Accepted lan
      → lan.vx_port ≡ some port
      → Returns (add_vxlan sys net lan ns dev mtu)
  unfolding add_vxlan
  add_vxlan_returns lan ns dev mtu {port} acc set =
      let make = create_vxlan_if sys net lan dev.index (net.ns_fd ns) mtu port in
      returns_deref _ set (
        returns_bind (wrapping (bytes "failed to create vxlan interface") make) _
          (returns_wrapping make
            (create_vxlan_if_returns sys net r lan dev.index (net.ns_fd ns) mtu port acc) _)
          (λ _. returns_ignoring (attach_vxlan sys net lan ns) (attach_vxlan_returns lan ns acc)))

  found_dummy_returns : (x : Result Error Link) → x ≢ panic → Returns (found_dummy sys net x)
  unfolding found_dummy
  found_dummy_returns (ok l) h = record { at = λ s p. cc }
  found_dummy_returns panic h = absurd (h refl)
  found_dummy_returns (err e) h =
      let make = net.link_add (new_dummy dummy_if_name) in
      let find = net.link_by_name dummy_if_name in
      let made : Returns (do
        made ← wrapping (bytes "failed to create dummy link") make
        found ← wrapping (bytes "failed to get newly created dummy link") find
        pure tt) =
        returns_bind (wrapping (bytes "failed to create dummy link") make) _
          (returns_wrapping make (r.adds _) _)
          λ made.
            returns_bind (wrapping (bytes "failed to get newly created dummy link") find) _
              (returns_wrapping find (r.finds dummy_if_name) _) (λ l. returns_pure tt) in
      record { at = made.at }

  add_macvtap_returns :
      (mac_name spoke mode : Text) (dummy : Bool)
      → Returns (add_macvtap sys net mac_name spoke mode dummy)
  unfolding add_macvtap
  add_macvtap_returns mac_name spoke mode false =
      recreate_macvtap_returns sys net r mac_name spoke mode
  add_macvtap_returns mac_name spoke mode true =
      attempt_then (net.link_by_name dummy_if_name) _ (r.finds dummy_if_name) λ x s u ne e.
        (returns_bind (found_dummy sys net x) _ (found_dummy_returns x ne)
            (λ _. recreate_macvtap_returns sys net r mac_name dummy_if_name (bytes "private"))).at
          u

  module _ (f : FindsBridges sys net) (g : HasGroups sys net) where
    in_ns_returns :
        (lan : LanSpec) (spoke : Text) (dev : Link) (mtu : ℤ) (host : sys.NetNs) {port : ℤ}
        → Accepted lan
        → lan.vx_port ≡ some port
        → Returns (in_ns sys net lan spoke dev mtu host)
    unfolding in_ns
    in_ns_returns lan spoke dev mtu host acc set = record {
      at = λ s.
          returns_then (lan_bridge sys net lan mtu) _ s
            ((lan_bridge_returns sys net r lan mtu acc.bridge.1).at s)
            (λ bridge u e. elim (Option-cases bridge) [
              | inl nil ↦
                  absurd (lan_bridge_some sys net f lan mtu s u (e ∙ ap (λ b. (ok b, u)) nil))
              | inr (br, is) ↦
                  (returns_bind (vxlan_needed sys net lan dev.index) _
                      (vxlan_needed_returns sys net r g lan dev.index acc set)
                      λ needed.
                        returns_bind (add_spoke sys net spoke mtu bridge host) _
                          (add_spoke_returns spoke mtu bridge host is)
                          (λ _. returns_pure needed)).at
                    u
            ]);
    }

    added_returns :
        (lan : LanSpec) (needed : Bool) (ns : sys.NetNs) (dev : Link) (mtu : ℤ) {port : ℤ}
        → Accepted lan
        → lan.vx_port ≡ some port
        → Returns (if needed then add_vxlan sys net lan ns dev mtu else pure tt)
    added_returns lan true ns dev mtu acc set = add_vxlan_returns lan ns dev mtu acc set
    added_returns lan false ns dev mtu acc set = returns_pure tt

    pub ensure_returns :
        (q : SystemReturns sys) (mac_name spoke : Text) (lan : LanSpec) (hostname mode : Text)
        (dummy : Bool) {port : ℤ}
        → Accepted lan
        → lan.vx_port ≡ some port
        → Returns (ensure sys net mac_name spoke lan hostname mode dummy)
    unfolding ensure
    ensure_returns q mac_name spoke lan hostname mode dummy acc set =
        let find_dev = net.link_by_name (vx_dev_name lan hostname) in
        let find_spoke = net.link_by_name spoke in
        returns_bind (lan_ns sys net lan) _ (lan_ns_returns sys net q r lan acc.ns.1) λ ns.
          returns_bind (lo_up sys net ns) _ (lo_up_returns sys net r ns) λ _.
            returns_bind (wrapping (bytes "vxlan dev not found") find_dev) _
              (returns_wrapping find_dev (r.finds (vx_dev_name lan hostname)) _)
              λ dev.
                let inside = in_ns sys net lan spoke dev (inner_mtu dev.mtu) in
                returns_bind (net.do_ns Bool ns inside) _
                  (r.does Bool ns inside
                    λ host. in_ns_returns lan spoke dev (inner_mtu dev.mtu) host acc set)
                  λ needed.
                    returns_bind
                      (if needed then add_vxlan sys net lan ns dev (inner_mtu dev.mtu) else pure tt)
                      _ (added_returns lan needed ns dev (inner_mtu dev.mtu) acc set)
                      λ _.
                        returns_bind
                          (wrapping (bytes "failed to get the created spoke link in host ns")
                            find_spoke)
                          _ (returns_wrapping find_spoke (r.finds spoke) _)
                          λ vlink.
                            returns_bind
                              (wrapping (bytes "failed to bring up spoke link in host ns")
                                (net.link_set_up vlink))
                              _ (returns_wrapping (net.link_set_up vlink) (r.brings_up vlink) _)
                              (λ _. add_macvtap_returns mac_name spoke mode dummy)

    -- Over a system and a kernel whose calls end with a result or an error, in which a bridge that
    -- has been made and brought up is found and every vxlan link that is found has a group that is
    -- an address: for a LAN that `Validate` accepts and that has a port, `Ensure` does not panic.
    pub ensure_ne_panic :
        (q : SystemReturns sys) (mac_name spoke : Text) (lan : LanSpec) (hostname mode : Text)
        (dummy : Bool) (s : sys.State) {port : ℤ}
        → Accepted lan
        → lan.vx_port ≡ some port
        → (ensure sys net mac_name spoke lan hostname mode dummy s).0 ≢ panic
    ensure_ne_panic q mac_name spoke lan hostname mode dummy s acc set =
        (ensure_returns q mac_name spoke lan hostname mode dummy acc set).at s
