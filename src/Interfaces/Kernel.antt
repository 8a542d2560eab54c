-- ===== src/Interfaces/Kernel.antt =====
-- Kernels that keep the names of the links in the namespace that the thread is in, as `netlink`
-- documents its calls.
use k8slan.Base.{ℕ, ◌≡◌, ◌≢◌, Bool, true, false, List, [], ◌∷◌, ok, err, contains, list_eq, nat_eq}
use k8slan.Base.Text.{Text, bytes}
use k8slan.Base.Int.{ℤ}
use k8slan.Base.Io.{link_not_found}
use k8slan.Interfaces.System.{System}
use k8slan.Interfaces.Netlink.{
  Link, NewLink, new_bridge, new_veth, new_vxlan, new_macvtap, new_dummy, Netlink,
}

-- The names that a new link takes.
abbrev pub names : NewLink → List Text
names (new_bridge name mtu tx_qlen) = name ∷ []
names (new_veth name peer_name parent mtu tx_qlen) = name ∷ peer_name ∷ []
names (new_vxlan name mtu tx_qlen ns_fd group vni dev port learning proxy age) = name ∷ []
names (new_macvtap name parent tx_qlen mode) = name ∷ []
names (new_dummy name) = name ∷ []

-- `has s name`: a link of this name is in the namespace.
pub record KernelLaws (sys : System) (net : Netlink sys) (has : sys.State → Text → Bool)
    : Type 0 where
  -- Looking a link up changes nothing, and gives a link of that name or `LinkNotFoundError`.
  pub reads : (name : Text) (s : sys.State) → (net.link_by_name name s).1 ≡ s
  pub absent :
      (name : Text) (s : sys.State)
      → has s name ≡ false
      → net.link_by_name name s ≡ (err link_not_found, s)
  pub of_name :
      (name : Text) (s : sys.State) {l : Link} → (net.link_by_name name s).0 ≡ ok l → l.name ≡ name
  -- A name that is in use cannot be taken.
  pub in_use :
      (name peer_name : Text) (parent : ℕ) (mtu tx_qlen : ℤ) (s : sys.State) {l : Link}
      {t : sys.State}
      → has s name ≡ true
      → net.link_add (new_veth name peer_name parent mtu tx_qlen) s ≢ (ok l, t)
  pub paired :
      (name peer_name : Text) (parent : ℕ) (mtu tx_qlen : ℤ) (s : sys.State) {l : Link}
      {t : sys.State}
      → net.link_add (new_veth name peer_name parent mtu tx_qlen) s ≡ (ok l, t)
      → (l.name ≡ name) × (has t peer_name ≡ true)
  -- A new link changes no names but its own, and takes none away.
  pub adds :
      (new : NewLink) (s : sys.State) (n : Text)
      → contains (names new) n ≡ false
      → has (net.link_add new s).1 n ≡ has s n
  pub keeps :
      (new : NewLink) (s : sys.State) (n : Text)
      → has s n ≡ true
      → has (net.link_add new s).1 n ≡ true
  -- A link that is no end of a veth pair goes alone.
  pub deletes :
      (l : Link) (s : sys.State) (n : Text)
      → l.type_name ≢ bytes "veth"
      → n ≢ l.name
      → has (net.link_del l s).1 n ≡ has s n
  pub ups : (l : Link) (s : sys.State) (n : Text) → has (net.link_set_up l s).1 n ≡ has s n
  pub attaches :
      (l br : Link) (s : sys.State) (n : Text) → has (net.link_set_master l br s).1 n ≡ has s n
  pub masks :
      (l : Link) (mask : ℕ) (s : sys.State) (n : Text)
      → has (net.link_set_br_slave_group_fwd_mask l mask s).1 n ≡ has s n
  -- A link that goes to another namespace takes its name along, and no other.
  pub moves :
      (l : Link) (fd : ℕ) (s : sys.State) (n : Text)
      → n ≢ l.name
      → has (net.link_set_ns_fd l fd s).1 n ≡ has s n
