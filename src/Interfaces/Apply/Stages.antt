-- ===== src/Interfaces/Apply/Stages.antt =====
-- All that a successful `Ensure` (pkg/interfaces/apply.go) has done, stage by stage.
use k8slan.Base.{◌+◌, ◌<◌, ◌^◌, ltb, ℕ, ◌≡◌, ◌⊎◌, Bool, some, ok, if◌then◌else◌}
use k8slan.Base.Int.{ℤ}
use k8slan.Base.Text.{Text, bytes}
use k8slan.Base.FilePath.{join}
use k8slan.Lan.{LanSpec}
use k8slan.Interfaces.System.{System}
use k8slan.Interfaces.Netlink.{Link, Netlink}
use k8slan.Interfaces.Returns.{RunsInside}
use k8slan.Interfaces.Vxlan.{to_uint32}
use k8slan.Interfaces.Vxlan.Made.{IsVxlanMade}
use k8slan.Interfaces.Apply.{lan_bridge, attach_vxlan}
use k8slan.Interfaces.Apply.Check.{IsLanLink}
use k8slan.Interfaces.Namespace.Made.{OpenedAt}
use k8slan.Interfaces.Apply.Opened.{LoIsUp, IsDevName, IsLess74}
use k8slan.Interfaces.Apply.Laws.{MadeOn, base_of}
use k8slan.Interfaces.Apply.Wiring.{IsBridge, IsWired}

module _ (sys : System) (net : Netlink sys) (inner : RunsInside sys net) where
  -- In the namespace, entered from `s`, the LAN's vxlan link was found behind the look-up of the
  -- bridge, with the LAN's group, VNI and port and on this device, and nothing was done from `t` to
  -- `u`. Or else it was made in the LAN's namespace from `t` on, and whatever came of attaching it
  -- to the bridge left `u`.
  abbrev pub HasVxlan : LanSpec → Link → ℤ → sys.NetNs → sys.State → sys.State → sys.State → Type 0
  HasVxlan lan dev mtu ns s t u =
      ((name : Text) × (l : Link) × (v w : sys.State) × ((lan_bridge sys net lan mtu
            (inner.enter ns s)).1
          ≡ v)
        × (lan.vxlan_name ≡ some name)
        × (net.link_by_name name v ≡ (ok l, w))
        × IsLanLink lan dev.index l
        × (t ≡ u))
      ⊎ ((port : ℤ) × (v : sys.State) × (lan.vx_port ≡ some port)
          × IsVxlanMade sys net lan dev.index (net.ns_fd ns) mtu port t v
          × ((attach_vxlan sys net lan ns v).1 ≡ u))

  pub record IsEnsured (mac_name spoke : Text) (lan : LanSpec) (hostname mode : Text) (dummy : Bool)
      (i : ℕ) (s t : sys.State) : Type 0 where
    -- The namespace of the LAN
    pub ns : sys.NetNs
    pub s₁ : sys.State
    pub ns_name : Text
    pub lan_named : lan.ns ≡ some ns_name
    pub opened : OpenedAt sys (join (bytes "/var/run/netns") ns_name) ns s₁
    pub s₂ : sys.State
    pub prepared : LoIsUp sys net inner ns s₁ s₂
    -- The device below the vxlan link
    pub dev : Link
    pub dev_name : Text
    pub s₃ : sys.State
    pub dev_named : IsDevName lan hostname dev_name
    pub on : net.link_by_name dev_name s₂ ≡ (ok dev, s₃)
    pub mtu : ℤ
    pub less : IsLess74 dev.mtu mtu
    pub kept :
        dev.mtu < 2 ^ 32
        → to_uint32 mtu + 74 ≡ (if ltb dev.mtu 74 then 2 ^ 32 + dev.mtu else dev.mtu)
    -- The bridge and the spoke's veth pair on it
    pub host : sys.NetNs
    pub br : Link
    pub br_name : Text
    pub inside : sys.State
    pub s₄ : sys.State
    pub named : lan.bridge_name ≡ some br_name
    pub bridged : IsBridge sys net br_name mtu br
    pub wired : IsWired sys net spoke mtu br host inside
    pub left : inner.leave s₃ inside ≡ s₄
    pub s₅ : sys.State
    pub vxlan : HasVxlan lan dev mtu ns s₃ s₄ s₅
    -- The spoke's link in the host
    pub vlink : Link
    pub s₆ : sys.State
    pub s₇ : sys.State
    pub found : net.link_by_name spoke s₅ ≡ (ok vlink, s₆)
    pub up : net.link_set_up vlink s₆ ≡ (ok tt, s₇)
    -- The macvtap link, whose index is given back
    pub macvtap : Link
    pub made :
        MadeOn sys net mac_name
          (base_of sys net spoke mode dummy).0
          (base_of sys net spoke mode dummy).1
          macvtap
          t
    pub index : i ≡ macvtap.index
