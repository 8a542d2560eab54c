-- ===== src/Interfaces/Netlink.antt =====
-- `vishvananda/netlink` and `NetNS.Do` as pkg/interfaces and the CNI plugin call them. The calls act in the network
-- namespace that the thread is in.
use k8slan.Base.{ℕ, Option, Bool, List}
use k8slan.Base.Int.{ℤ}
use k8slan.Base.Text.{Text}
use k8slan.Base.Io.{Io}
use k8slan.Interfaces.System.{System}

-- What the program reads of a `*netlink.Vxlan`; the group as `Group.String()`.
pub record VxlanAttrs : Type 0 where
  pub group : Text
  pub vxlan_id : ℤ
  pub vtep_dev_index : ℕ
  pub port : ℤ

-- What the program reads of a `netlink.Link`. `vxlan` is set for a `*netlink.Vxlan`.
pub record Link : Type 0 where
  pub name : Text
  pub type_name : Text
  pub index : ℕ
  pub mtu : ℕ
  pub tx_qlen : ℤ
  -- `HardwareAddr.String()`
  pub hardware_addr : Text
  pub vxlan : Option VxlanAttrs

-- `netlink.MacvlanMode`
pub data MacvlanMode : Type 0 where
  private vepa bridge passthru : MacvlanMode

-- The links that the program makes, with the attributes that it sets; the group as its bytes.
pub data NewLink : Type 0 where
  new_bridge : (name : Text) (mtu : ℤ) (tx_qlen : ℤ) → NewLink
  new_veth : (name peer_name : Text) (parent_index : ℕ) (mtu : ℤ) (tx_qlen : ℤ) → NewLink
  new_vxlan :
      (name : Text) (mtu : ℕ) (tx_qlen : ℤ) (ns_fd : ℕ) (group : List ℕ) (vxlan_id : ℤ)
      (vtep_dev_index : ℕ) (port : ℤ) (learning proxy : Bool) (age : ℕ)
      → NewLink
  new_macvtap : (name : Text) (parent_index : ℕ) (tx_qlen : ℤ) (mode : MacvlanMode) → NewLink
  new_dummy : (name : Text) → NewLink

pub record Netlink (sys : System) : Type 1 where
  pub ns_fd : sys.NetNs → ℕ
  -- `ns.Do(f)`: `f` is given the namespace that the thread was in.
  pub do_ns : (A : Type 0) → sys.NetNs → (sys.NetNs → Io sys.State A) → Io sys.State A
  pub link_by_name : Text → Io sys.State Link
  -- `LinkAdd`, which fills in the link's index.
  pub link_add : NewLink → Io sys.State Link
  pub link_del : Link → Io sys.State (Unit {0})
  pub link_set_up : Link → Io sys.State (Unit {0})
  pub link_set_master : Link → Link → Io sys.State (Unit {0})
  pub link_set_br_slave_group_fwd_mask : Link → ℕ → Io sys.State (Unit {0})
  pub link_set_name : Link → Text → Io sys.State (Unit {0})
  pub link_set_ns_fd : Link → ℕ → Io sys.State (Unit {0})
