-- ===== src/Interfaces/Apply/Wiring.antt =====
-- What `Ensure` (pkg/interfaces/apply.go) has done in the LAN's namespace when it succeeded there.
use mathlib.Core.Path.{subst}
use k8slan.Base.{
  ◌≡◌, sym, ap, ◌∙◌, ◌⊎◌, inl, inr, Bool, Option, some, Result, ok, err, panic, ◌==◌, ==_iff,
  Bool-cases, list_eq, nat_eq,
}
use k8slan.Base.Int.{ℤ, negsuc}
use k8slan.Base.Text.{Text, bytes}
use k8slan.Base.Io.{
  Error, wrapping, printing, ignoring, attempt, deref_io, io_bind_ok, printing_ok, wrapping_ok,
  attempt_ok, deref_io_ok,
}
use k8slan.Lan.{LanSpec}
use k8slan.Interfaces.System.{System}
use k8slan.Interfaces.Netlink.{Link, new_bridge, new_veth, Netlink}
use k8slan.Interfaces.Macvtap.{get_peer_veth_name, link_delete}
use k8slan.Interfaces.Vxlan.{br_slave_grp_fwd_mask}
use k8slan.Interfaces.Apply.{
  connect_peer, add_bridge, found_bridge, lan_bridge, vxlan_needed, add_spoke, in_ns, link_or_nil,
}

module _ (sys : System) (net : Netlink sys) where
  -- The peer of this name was found, became a port of the bridge with the bridge's mask and was
  -- brought up, and the spoke's link was given to the host last.
  pub record IsConnected (veth : Link) (peer_name : Text) (br : Link) (host : sys.NetNs)
      (s t : sys.State) : Type 0 where
    pub peer : Link
    pub u₁ : sys.State
    pub u₂ : sys.State
    pub u₃ : sys.State
    pub u₄ : sys.State
    pub found : net.link_by_name peer_name s ≡ (ok peer, u₁)
    pub attached : net.link_set_master peer br u₁ ≡ (ok tt, u₂)
    pub masked : net.link_set_br_slave_group_fwd_mask peer br_slave_grp_fwd_mask u₂ ≡ (ok tt, u₃)
    pub peer_up : net.link_set_up peer u₃ ≡ (ok tt, u₄)
    pub moved : net.link_set_ns_fd veth (net.ns_fd host) u₄ ≡ (ok tt, t)

  -- The veth pair of the spoke was made on the bridge, the spoke's link was brought up, and the
  -- peer was connected.
  pub record IsWired (spoke : Text) (mtu : ℤ) (br : Link) (host : sys.NetNs) (t : sys.State)
      : Type 0 where
    pub veth : Link
    pub s₁ : sys.State
    pub s₂ : sys.State
    pub s₃ : sys.State
    pub made :
        net.link_add (new_veth spoke (get_peer_veth_name spoke) br.index mtu (negsuc 0)) s₁
        ≡ (ok veth, s₂)
    pub up : net.link_set_up veth s₂ ≡ (ok tt, s₃)
    pub connected : IsConnected veth (get_peer_veth_name spoke) br host s₃ t

  connect_peer-IsConnected :
      (veth : Link) (name : Text) (br : Link) (host : sys.NetNs) (s t : sys.State)
      → connect_peer sys net veth name br host s ≡ (ok tt, t)
      → IsConnected veth name br host s t
  unfolding connect_peer
  connect_peer-IsConnected veth name br host s t h =
      let t₄ = bytes "failed to find peer veth" in
      let (peer, u₁, e₄, h₄) = io_bind_ok (wrapping t₄ (net.link_by_name name)) _ s h in
      let t₅ = bytes "failed to set veth to master" in
      let (x₅, u₂, e₅, h₅) = io_bind_ok (wrapping t₅ (net.link_set_master peer br)) _ u₁ h₄ in
      let t₆ = bytes "failed to set veth slave grp fwd mask" in
      let mask = net.link_set_br_slave_group_fwd_mask peer br_slave_grp_fwd_mask in
      let (x₆, u₃, e₆, h₆) = io_bind_ok (wrapping t₆ mask) _ u₂ h₅ in
      let t₇ = bytes "failed to peer veth up" in
      let (x₇, u₄, e₇, h₇) = io_bind_ok (wrapping t₇ (net.link_set_up peer)) _ u₃ h₆ in
      record {
        peer = peer;
        u₁ = u₁;
        u₂ = u₂;
        u₃ = u₃;
        u₄ = u₄;
        found = wrapping_ok t₄ (net.link_by_name name) s e₄;
        attached = wrapping_ok t₅ (net.link_set_master peer br) u₁ e₅;
        masked = wrapping_ok t₆ mask u₂ e₆;
        peer_up = wrapping_ok t₇ (net.link_set_up peer) u₃ e₇;
        moved = h₇;
      }

  pub add_spoke-IsWired :
      (spoke : Text) (mtu : ℤ) (bridge : Option Link) (host : sys.NetNs) (s t : sys.State)
      → add_spoke sys net spoke mtu bridge host s ≡ (ok tt, t)
      → (br : Link) × (bridge ≡ some br) × IsWired spoke mtu br host t
  unfolding add_spoke
  add_spoke-IsWired spoke mtu bridge host s t h =
      let name = get_peer_veth_name spoke in
      let (x₀, u, e₀, h₀) = io_bind_ok (ignoring (link_delete sys net name)) _ s h in
      let (br, u', e₁, h₁) = io_bind_ok (deref_io bridge) _ u h₀ in
      let make = net.link_add (new_veth spoke name br.index mtu (negsuc 0)) in
      let t₂ = bytes "failed to create veth interface" in
      let (veth, s₂, e₂, h₂) = io_bind_ok (printing t₂ make) _ u' h₁ in
      let t₃ = bytes "failed to veth up" in
      let (x₃, s₃, e₃, h₃) = io_bind_ok (wrapping t₃ (net.link_set_up veth)) _ s₂ h₂ in
      (
        br,
        (deref_io_ok bridge u e₁).0,
        record {
          veth = veth;
          s₁ = u';
          s₂ = s₂;
          s₃ = s₃;
          made = printing_ok t₂ make u' e₂;
          up = wrapping_ok t₃ (net.link_set_up veth) s₂ e₃;
          connected = connect_peer-IsConnected veth name br host s₃ t h₃;
        },
      )

  -- The bridge of this name: the link that `LinkByName` gave, which was a bridge already or else
  -- had just been made and brought up.
  pub record IsBridge (name : Text) (mtu : ℤ) (br : Link) : Type 0 where
    pub v : sys.State
    pub w : sys.State
    pub found : net.link_by_name name v ≡ (ok br, w)
    pub origin :
        (br.type_name ≡ bytes "bridge")
        ⊎ ((new : Link) × (s t : sys.State) × (net.link_add (new_bridge name mtu (negsuc 0)) s
              ≡ (ok new, t))
            × (net.link_set_up new t ≡ (ok tt, v)))

  add_bridge-IsBridge :
      (name : Text) (mtu : ℤ) (s t : sys.State) {br : Link}
      → add_bridge sys net name mtu s ≡ (ok (some br), t)
      → IsBridge name mtu br
  unfolding add_bridge
  add_bridge-IsBridge name mtu s t {br} h =
      let make = net.link_add (new_bridge name mtu (negsuc 0)) in
      let t₁ = bytes "failed to create bridge" in
      let (new, u, e₁, h₁) = io_bind_ok (printing t₁ make) _ s h in
      let t₂ = bytes "failed to bring bridge up" in
      let (x, v, e₂, h₂) = io_bind_ok (wrapping t₂ (net.link_set_up new)) _ u h₁ in
      let (r, w, e₃, h₃) = io_bind_ok (attempt (net.link_by_name name)) _ v h₂ in
      record {
        v = v;
        w = w;
        found = attempt_ok (net.link_by_name name) v (e₃ ∙ ap (λ o. (ok o, w)) (read r (cc)));
        origin =
            inr (new, s, u, printing_ok t₁ make s e₁, wrapping_ok t₂ (net.link_set_up new) u e₂);
      }
    where
      read : (r : Result Error Link) → link_or_nil r ≡ some br → r ≡ ok br
      read (ok l) e = cc
      read (err x) e = cc
      read panic e = cc

  found_bridge-IsBridge :
      (name : Text) (mtu : ℤ) (r : Result Error Link) (s u t : sys.State) {br : Link}
      → attempt (net.link_by_name name) s ≡ (ok r, u)
      → found_bridge sys net name mtu r u ≡ (ok (some br), t)
      → IsBridge name mtu br
  unfolding found_bridge
  found_bridge-IsBridge name mtu (err e) s u t tried h = add_bridge-IsBridge name mtu u t h
  found_bridge-IsBridge name mtu panic s u t tried h = cc
  found_bridge-IsBridge name mtu (ok l) s u t {br} tried h =
      elim (Bool-cases (l.type_name == bytes "bridge")) [
        | inl same ↦
            let e : l ≡ br = (let k = rw (same, found_bridge) at h in cc) in
            record {
              v = s;
              w = u;
              found = attempt_ok (net.link_by_name name) s tried ∙ ap (λ k. (ok k, u)) e;
              origin =
                  inl
                    (ap (λ k. k.type_name) (sym e) ∙ (==_iff l.type_name (bytes "bridge")).0 same);
            }
        | inr other ↦ let k = rw (other, found_bridge) at h in cc
      ]

  lan_bridge-IsBridge :
      (lan : LanSpec) (mtu : ℤ) (s t : sys.State) {br : Link}
      → lan_bridge sys net lan mtu s ≡ (ok (some br), t)
      → (name : Text) × (lan.bridge_name ≡ some name) × IsBridge name mtu br
  unfolding lan_bridge
  lan_bridge-IsBridge lan mtu s t h =
      let (name, u, e₁, h₁) = io_bind_ok (deref_io lan.bridge_name) _ s h in
      let (r, v, e₂, h₂) = io_bind_ok (attempt (net.link_by_name name)) _ u h₁ in
      (name, (deref_io_ok lan.bridge_name s e₁).0, found_bridge-IsBridge name mtu r u v t e₂ h₂)

  -- If what `Ensure` does in the namespace succeeds, there is the LAN's bridge, which was a bridge
  -- already or has just been made and brought up, and on it the spoke's veth pair has been made:
  -- the peer became a port of the bridge with its mask and was brought up, and the spoke's link was
  -- brought up and given to the host last.
  pub in_ns-IsWired :
      (lan : LanSpec) (spoke : Text) (dev : Link) (mtu : ℤ) (host : sys.NetNs) (s t : sys.State)
      {needed : Bool}
      → in_ns sys net lan spoke dev mtu host s ≡ (ok needed, t)
      → (name : Text) × (br : Link) × (lan.bridge_name ≡ some name)
        × IsBridge name mtu br
        × IsWired spoke mtu br host t
  unfolding in_ns
  in_ns-IsWired lan spoke dev mtu host s t {needed} h =
      let (bridge, u, e₁, h₁) = io_bind_ok (lan_bridge sys net lan mtu) _ s h in
      let (need, v, e₂, h₂) = io_bind_ok (vxlan_needed sys net lan dev.index) _ u h₁ in
      let (x, w, e₃, h₃) = io_bind_ok (add_spoke sys net spoke mtu bridge host) _ v h₂ in
      let same : w ≡ t = cc in
      let (br, is_br, wired) = add_spoke-IsWired spoke mtu bridge host v w e₃ in
      let opened = e₁ ∙ ap (λ b. (ok b, u)) is_br in
      let (name, set, made) = lan_bridge-IsBridge lan mtu s u opened in
      (name, br, set, made, subst (IsWired spoke mtu br host) same wired)
