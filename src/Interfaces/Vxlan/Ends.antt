-- ===== src/Interfaces/Vxlan/Ends.antt =====
-- Making the vxlan link (pkg/interfaces/vxlan.go) ends with a result or an error, for a LAN with a
-- group that is an address.
use k8slan.Base.{ℕ, ◌≡◌, ◌≢◌, refl, true, false, Bool-cases, inl, inr, Result, ok, err, panic, some}
use k8slan.Base.Int.{ℤ, pos}
use k8slan.Base.Text.{Text}
use k8slan.Base.Io.{Io, Error, ◌>>=◌, is_errno}
use k8slan.Base.Returns.{Returns, returns_bind, returns_pure, returns_deref, attempt_then}
use k8slan.Netip.{Addr, parse_addr, is_multicast, as_slice}
use k8slan.Lan.{LanSpec}
use k8slan.Lan.Validation.Laws.{Accepted}
use k8slan.Interfaces.System.{System}
use k8slan.Interfaces.Netlink.{new_vxlan, Netlink}
use k8slan.Interfaces.Returns.{NetlinkReturns}
use k8slan.Interfaces.Vxlan.{
  eexist, must_parse_addr, ensure_vxlan_if, unless_exists, create_vxlan_if, to_uint32,
}

pub returns_parse :
    {S B : Type 0} (text : Text) {a : Addr} (k : Addr → Io S B)
    → parse_addr text ≡ some a
    → Returns (k a)
    → Returns (◌>>=◌ (must_parse_addr text) k)
unfolding must_parse_addr
returns_parse text k e h = record { at = λ s. rw (e, must_parse_addr) (h.at s) }

module _ (sys : System) (net : Netlink sys) (r : NetlinkReturns sys net) where
  ensure_vxlan_if_returns :
      (name : Text) (dev_fd netns : ℕ) (vni : ℤ) (grp : Addr) (mtu : ℕ) (port : ℤ)
      → Returns (ensure_vxlan_if sys net name dev_fd netns vni grp mtu port)
  unfolding ensure_vxlan_if
  ensure_vxlan_if_returns name dev_fd netns vni grp mtu port = record {
    at = λ s. elim (Bool-cases (is_multicast grp)) [
      | inl multicast ↦
          rw (multicast, ensure_vxlan_if)
            ((returns_bind
                (net.link_add (
                  new_vxlan name mtu (pos 1024) netns (as_slice grp) vni dev_fd port true false
                    3600))
                _ (r.adds _) (λ l. returns_pure tt)).at
              s)
      | inr other ↦ rw (other, ensure_vxlan_if) (λ p. cc)
    ];
  }

  unless_exists_returns :
      (x : Result Error (Unit {0})) → x ≢ panic → Returns (unless_exists sys net x)
  unfolding unless_exists
  unless_exists_returns (ok u) h = record { at = λ s p. cc }
  unless_exists_returns panic h = absurd (h refl)
  unless_exists_returns (err e) h = record {
    at = λ s. elim (Bool-cases (is_errno e eexist)) [
      | inl same ↦ rw (same, unless_exists) (λ p. cc)
      | inr other ↦ rw (other, unless_exists) (λ p. cc)
    ];
  }

  pub create_vxlan_if_returns :
      (lan : LanSpec) (dev_fd netns : ℕ) (mtu port : ℤ)
      → Accepted lan
      → Returns (create_vxlan_if sys net lan dev_fd netns mtu port)
  unfolding create_vxlan_if
  create_vxlan_if_returns lan dev_fd netns mtu port acc =
      let (grp, grp_set, addr, parsed, _) = acc.group in
      let (name, name_set, _) = acc.vxlan in
      let (vni, vni_set, _, _) = acc.vni in
      returns_deref _ grp_set (
        returns_parse grp _ parsed (
          returns_deref _ name_set (
            returns_deref _ vni_set (
              attempt_then
                (ensure_vxlan_if sys net name dev_fd netns (pos vni) addr (to_uint32 mtu) port) _
                (ensure_vxlan_if_returns name dev_fd netns (pos vni) addr (to_uint32 mtu) port)
                (λ x s u ne e. (unless_exists_returns x ne).at u)))))
