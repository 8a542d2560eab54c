-- ===== src/Tests/Ended.antt =====
-- A node and a kernel whose calls end, in which bridges are found and vxlan links have groups.
use k8slan.Base.{
  All, ◌∷◌, ◌≡◌, ◌≢◌, refl, sym, ap, ◌∙◌, false, Bool-cases, inl, inr, some, [], panic, ◌==◌,
  list_eq, nat_eq,
}
use k8slan.Base.Text.{Text, bytes, has_prefix}
use k8slan.Base.Returns.{returns_pure}
use k8slan.Netip.{Addr, parse_addr}
use k8slan.Lan.{default_vx_port}
use k8slan.Interfaces.Netlink.{Link, VxlanAttrs}
use k8slan.Interfaces.Returns.{SystemReturns, NetlinkReturns}
use k8slan.Interfaces.Apply.{ensure}
use k8slan.Interfaces.Apply.Bridge.{FindsBridges}
use k8slan.Interfaces.Apply.Ends.{HasGroups}
use k8slan.Interfaces.Apply.Panics.{ensure_ne_panic}
use k8slan.Base.Dict
use k8slan.Lan.Names.{get_dp_resource_name, get_spoke_name_from_resource_name}
use k8slan.DevicePlugin.Lister.{add, handle, add_lan, discover, plugin_lan, new_macvtap_lister}
use k8slan.DevicePlugin.Lister.Known.{TellsOf}
use k8slan.DevicePlugin.Plugin.{new_plugin, new_macvtap_device_plugin, allocate}
use k8slan.DevicePlugin.Allocation.{IsReady, allocate_ne_panic}
use k8slan.Tests.Node.{node}
use k8slan.Tests.Kernel.{link}
use k8slan.Tests.Kept.{keeper, kept_link, kept, vx, group_addr}
use k8slan.Tests.Data.{srl, worker, lan_example, srl_plugin}
use k8slan.Tests.Resource.{lan_example-Accepted}

kept_link-groups :
    (name : Text) {l : Link}
    → kept_link name ≡ l
    → l.type_name ≡ bytes "vxlan"
    → (v : VxlanAttrs) × (a : Addr) × (l.vxlan ≡ some v) × (parse_addr v.group ≡ some a)
unfolding kept_link parse_addr list_eq nat_eq
kept_link-groups name {l} e is = elim (Bool-cases (name == bytes "vx2")) [
  | inl same ↦
      let at : kept ≡ l = rw (same, kept_link) at e in
      (vx, group_addr, ap (λ k. k.vxlan) (sym at), refl)
  | inr other ↦ elim (Bool-cases (name == bytes "br2")) [
    | inl bridge ↦
        let at = rw (other, bridge, kept_link) at e in
        let no_type = ap (λ k. k.type_name) at ∙ is in cc
    | inr veth ↦
        let at = rw (other, veth, kept_link) at e in
        let no_type = ap (λ k. k.type_name) at ∙ is in cc
  ]
]

keeper-NetlinkReturns : NetlinkReturns node keeper
keeper-NetlinkReturns = record {
  does = λ A ns f h. h (bytes "host");
  finds = λ name. returns_pure (kept_link name);
  adds = λ new. returns_pure (link [] []);
  deletes = λ l. returns_pure tt;
  brings_up = λ l. returns_pure tt;
  attaches = λ l br. returns_pure tt;
  masks = λ l mask. returns_pure tt;
  moves = λ l fd. returns_pure tt;
}

keeper-FindsBridges : FindsBridges node keeper
keeper-FindsBridges = record {
  finds_made = λ {name} {mtu} {s} {t} {u} {new} made up. (kept_link name, u, refl);
}

keeper-HasGroups : HasGroups node keeper
keeper-HasGroups = record {
  reads_group = λ {name} {s} {t} {l} found is. kept_link-groups name {l = l} (cc) is;
}

node-SystemReturns : SystemReturns node
node-SystemReturns = record {
  makes_dir = λ path. returns_pure tt;
  mounts = λ source target flags. returns_pure tt;
  unmounts = λ path flags. returns_pure tt;
  creates = λ path. returns_pure tt;
  removes = λ path. record { at = λ s p. cc };
  stats = λ path. returns_pure tt;
  opens = λ path. returns_pure path;
  unshares = returns_pure tt;
}

ensure_ne_panic_example :
    (ensure node keeper (bytes "srlM0") srl lan_example worker (bytes "passthru") false []).0
    ≢ panic
ensure_ne_panic_example =
    ensure_ne_panic node keeper keeper-NetlinkReturns keeper-FindsBridges keeper-HasGroups
      node-SystemReturns (bytes "srlM0") srl lan_example worker (bytes "passthru") false []
      lan_example-Accepted refl

messages-IsReady : All (TellsOf IsReady) (add lan_example ∷ [])
messages-IsReady = ((lan_example-Accepted, default_vx_port, refl), tt)

plugged :
    new_plugin worker
      (discover (add lan_example ∷ []) new_macvtap_lister).0
      (get_dp_resource_name srl false)
    ≡ some srl_plugin
unfolding new_plugin discover handle add_lan plugin_lan Dict.lookup Dict.insert get_dp_resource_name
    new_macvtap_device_plugin get_spoke_name_from_resource_name list_eq nat_eq has_prefix
plugged = refl

allocate_ne_panic_example :
    (allocate (ensure node keeper) srl_plugin ((bytes "srlM0" ∷ []) ∷ []) []).0 ≢ panic
allocate_ne_panic_example =
    allocate_ne_panic node keeper node-SystemReturns keeper-NetlinkReturns keeper-FindsBridges
      keeper-HasGroups worker (get_dp_resource_name srl false) (add lan_example ∷ [])
      ((bytes "srlM0" ∷ []) ∷ []) [] messages-IsReady plugged
