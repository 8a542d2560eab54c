-- ===== src/Interfaces/Apply/Bridge.antt =====
-- The bridge that `Ensure` (pkg/interfaces/apply.go) works on, over a kernel in which a bridge is
-- found once it has been made.
use k8slan.Base.{
  ◌≡◌, ◌≢◌, refl, sym, ap, ◌∙◌, Bool-cases, inl, inr, none, some, Result, ok, err, panic, ◌==◌,
  list_eq, nat_eq,
}
use k8slan.Base.Int.{ℤ, negsuc}
use k8slan.Base.Text.{Text, bytes}
use k8slan.Base.Io.{
  Error, wrapping, printing, attempt, deref_io, io_bind_ok, printing_ok, wrapping_ok,
}
use k8slan.Base.Returns.{
  Returns, returns_bind, returns_pure, returns_printing, returns_wrapping, returns_attempt,
  returns_deref, attempt_then,
}
use k8slan.Lan.{LanSpec}
use k8slan.Interfaces.System.{System}
use k8slan.Interfaces.Netlink.{Link, new_bridge, Netlink}
use k8slan.Interfaces.Returns.{NetlinkReturns}
use k8slan.Interfaces.Apply.{link_or_nil, add_bridge, found_bridge, lan_bridge}

-- A bridge that has been made and brought up is found under its name.
pub record FindsBridges (sys : System) (net : Netlink sys) : Type 0 where
  pub finds_made :
      {name : Text} {mtu : ℤ} {s t u : sys.State} {new : Link}
      → net.link_add (new_bridge name mtu (negsuc 0)) s ≡ (ok new, t)
      → net.link_set_up new t ≡ (ok tt, u)
      → (l : Link) × (v : sys.State) × (net.link_by_name name u ≡ (ok l, v))

module _ (sys : System) (net : Netlink sys) where
  module _ (f : FindsBridges sys net) where
    add_bridge_some :
        (name : Text) (mtu : ℤ) (s t : sys.State) → add_bridge sys net name mtu s ≢ (ok none, t)
    unfolding add_bridge
    add_bridge_some name mtu s t h =
        let make = net.link_add (new_bridge name mtu (negsuc 0)) in
        let t₁ = bytes "failed to create bridge" in
        let (new, u, e₁, h₁) = io_bind_ok (printing t₁ make) _ s h in
        let t₂ = bytes "failed to bring bridge up" in
        let (x, v, e₂, h₂) = io_bind_ok (wrapping t₂ (net.link_set_up new)) _ u h₁ in
        let (r, w, e₃, h₃) = io_bind_ok (attempt (net.link_by_name name)) _ v h₂ in
        let (l, w', e) =
          f.finds_made (printing_ok t₁ make s e₁) (wrapping_ok t₂ (net.link_set_up new) u e₂) in
        let found : attempt (net.link_by_name name) v ≡ (ok (ok l), w') = rw e refl in
        let same : ok l ≡ r = (let k = sym found ∙ e₃ in cc) in
        let nil : some l ≡ none = ap link_or_nil same ∙ (let k = h₃ in cc) in cc

    found_bridge_some :
        (name : Text) (mtu : ℤ) (r : Result Error Link) (s t : sys.State)
        → found_bridge sys net name mtu r s ≢ (ok none, t)
    unfolding found_bridge
    found_bridge_some name mtu (err e) s t h = add_bridge_some name mtu s t h
    found_bridge_some name mtu panic s t h = cc
    found_bridge_some name mtu (ok l) s t h = elim (Bool-cases (l.type_name == bytes "bridge")) [
      | inl same ↦ let k = rw (same, found_bridge) at h in cc
      | inr other ↦ let k = rw (other, found_bridge) at h in cc
    ]

    pub lan_bridge_some :
        (lan : LanSpec) (mtu : ℤ) (s t : sys.State) → lan_bridge sys net lan mtu s ≢ (ok none, t)
    unfolding lan_bridge
    lan_bridge_some lan mtu s t h =
        let (name, u, e₁, h₁) = io_bind_ok (deref_io lan.bridge_name) _ s h in
        let (r, v, e₂, h₂) = io_bind_ok (attempt (net.link_by_name name)) _ u h₁ in
        found_bridge_some name mtu r v t h₂

  module _ (r : NetlinkReturns sys net) where
    add_bridge_returns : (name : Text) (mtu : ℤ) → Returns (add_bridge sys net name mtu)
    unfolding add_bridge
    add_bridge_returns name mtu =
        let make = net.link_add (new_bridge name mtu (negsuc 0)) in
        returns_bind (printing (bytes "failed to create bridge") make) _
          (returns_printing make (r.adds _) _)
          λ br.
            returns_bind (wrapping (bytes "failed to bring bridge up") (net.link_set_up br)) _
              (returns_wrapping (net.link_set_up br) (r.brings_up br) _)
              λ _.
                returns_bind (attempt (net.link_by_name name)) _
                  (returns_attempt (net.link_by_name name) (r.finds name))
                  (λ found. returns_pure (link_or_nil found))

    found_bridge_returns :
        (name : Text) (mtu : ℤ) (x : Result Error Link)
        → x ≢ panic
        → Returns (found_bridge sys net name mtu x)
    unfolding found_bridge
    found_bridge_returns name mtu (err e) h = record { at = (add_bridge_returns name mtu).at }
    found_bridge_returns name mtu panic h = absurd (h refl)
    found_bridge_returns name mtu (ok l) h = record {
      at = λ s. elim (Bool-cases (l.type_name == bytes "bridge")) [
        | inl same ↦ rw (same, found_bridge) (λ p. cc)
        | inr other ↦ rw (other, found_bridge) (λ p. cc)
      ];
    }

    pub lan_bridge_returns :
        (lan : LanSpec) (mtu : ℤ) {name : Text}
        → lan.bridge_name ≡ some name
        → Returns (lan_bridge sys net lan mtu)
    unfolding lan_bridge
    lan_bridge_returns lan mtu {name} set = returns_deref _ set (
        attempt_then (net.link_by_name name) _ (r.finds name)
          (λ found s u ne e. (found_bridge_returns name mtu found ne).at u))
