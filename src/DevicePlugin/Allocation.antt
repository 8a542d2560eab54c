-- ===== src/DevicePlugin/Allocation.antt =====
-- From the messages of the daemon to an allocation: the lister, the plugin that the manager gets and
-- `Ensure` together.
use mathlib.Core.Option.{some-injective}
use k8slan.Base.{◌≡◌, ◌≢◌, ap, ◌∙◌, Option-cases, inl, inr, some, List, [], All, panic}
use k8slan.Base.Int.{ℤ}
use k8slan.Base.Text.{Text}
use k8slan.Lan.{LanSpec}
use k8slan.Lan.Validation.Laws.{Accepted}
use k8slan.Interfaces.System.{System}
use k8slan.Interfaces.Netlink.{Netlink}
use k8slan.Interfaces.Returns.{SystemReturns, NetlinkReturns}
use k8slan.Interfaces.Apply.{ensure}
use k8slan.Interfaces.Apply.Bridge.{FindsBridges}
use k8slan.Interfaces.Apply.Ends.{HasGroups}
use k8slan.Interfaces.Apply.Panics.{ensure_returns}
use k8slan.DevicePlugin.Lister.{DeviceList, Message, new_macvtap_lister, discover, plugin_lan}
use k8slan.DevicePlugin.Lister.Known.{TellsOf, discover-Known, nothing-Known}
use k8slan.DevicePlugin.Plugin.{
  MacvtapDevicePlugin, new_macvtap_device_plugin, new_plugin, allocate,
}
use k8slan.DevicePlugin.Plugin.Ends.{allocate_returns}

-- A LAN that `Validate` accepts and that has a port, as the defaults give it.
abbrev pub IsReady : LanSpec → Type 0
IsReady lan = Accepted lan × (port : ℤ) × (lan.vx_port ≡ some port)

new_plugin_lan :
    (hname : Text) (d : DeviceList) (name : Text) {mdp : MacvtapDevicePlugin}
    → new_plugin hname d name ≡ some mdp
    → plugin_lan name d ≡ some mdp.lan
unfolding new_plugin new_macvtap_device_plugin
new_plugin_lan hname d name {mdp} h = elim (Option-cases (plugin_lan name d)) [
  | inl unknown ↦ let k = rw (unknown, new_plugin) at h in cc
  | inr (lan, known) ↦
      let made = rw (known, new_plugin) at h in
      known ∙ ap (λ p. some p.lan) (some-injective _ _ made)
]

-- Over a system and a kernel whose calls end with a result or an error, in which a bridge that has
-- been made and brought up is found and every vxlan link that is found has a group that is an
-- address: if every LAN that the lister was told of is one that `Validate` accepts and has a port,
-- an allocation of the plugin that the manager gets for a resource, whose calls are those of
-- `Ensure`, does not panic.
pub allocate_ne_panic :
    (sys : System) (net : Netlink sys)
    → SystemReturns sys
    → NetlinkReturns sys net
    → FindsBridges sys net
    → HasGroups sys net
    → (hname name : Text) (messages : List Message) (requests : List (List Text)) (s : sys.State)
      {mdp : MacvtapDevicePlugin}
    → All (TellsOf IsReady) messages
    → new_plugin hname (discover messages new_macvtap_lister).0 name ≡ some mdp
    → (allocate (ensure sys net) mdp requests s).0 ≢ panic
unfolding plugin_lan
allocate_ne_panic sys net q r f g hname name messages requests s {mdp} ready made =
    let devices = (discover messages new_macvtap_lister).0 in
    let known = discover-Known IsReady messages [] ready (nothing-Known IsReady) in
    let (accepted, port, set) = known name mdp.lan (new_plugin_lan hname devices name made) in
    (allocate_returns (ensure sys net) mdp
        (λ id.
          ensure_returns sys net r f g q id mdp.name mdp.lan mdp.host_name mdp.mode
            mdp.dummy_macvtap accepted set)
        requests).at
      s
