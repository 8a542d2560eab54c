-- ===== src/Interfaces/Apply/Opened.antt =====
-- The first stages of `Ensure` (pkg/interfaces/apply.go): the namespace, its loopback link, and what
-- is read of the LAN and of the device.
use k8slan.Base.{
  ℕ, ◌+◌, ◌≡◌, refl, ◌∙◌, ◌⊎◌, inl, inr, Bool-cases, Option-cases, none, some, Result, ok, err,
  panic, ltb, arith, list_eq, nat_eq,
}
use k8slan.Base.Int.{ℤ, pos, negsuc}
use k8slan.Base.Dict.{lookup}
use k8slan.Base.FilePath.{join}
use k8slan.Base.Text.{Text, bytes}
use k8slan.Base.Io.{
  Io, Error, ◌>>=◌, ignoring, attempt, io_bind_ok, wrapping_ok, attempt_ok, deref_then,
}
use k8slan.Lan.{LanSpec, elements}
use k8slan.Interfaces.System.{System}
use k8slan.Interfaces.Netlink.{Link, Netlink}
use k8slan.Interfaces.Returns.{RunsInside}
use k8slan.Interfaces.Namespace.{get_ns_run_dir, named_path, new_ns, delete_named}
use k8slan.Interfaces.Namespace.Made.{OpenedAt, new_ns-OpenedAt}
use k8slan.Interfaces.Apply.{opened_ns, stated_ns, lan_ns, lo_up, vx_dev_name, inner_mtu}

-- The name of the device: the one that the LAN says for this host, or else the default.
abbrev pub IsDevName : LanSpec → Text → Text → Type 0
IsDevName lan host name =
    (lookup host (elements lan.vx_dev_map) ≡ some name)
    ⊎ ((lookup host (elements lan.vx_dev_map) ≡ none) × (name ≡ lan.default_vx_dev))

pub vx_dev_name-IsDevName :
    (lan : LanSpec) (host : Text) → IsDevName lan host (vx_dev_name lan host)
unfolding vx_dev_name
vx_dev_name-IsDevName lan host = elim (Option-cases (lookup host (elements lan.vx_dev_map))) [
  | inl absent ↦ inr (absent, rw (absent, vx_dev_name) refl)
  | inr (dev, there) ↦ inl (there ∙ rw (there, vx_dev_name) refl)
]

-- The integer is the MTU less 74.
abbrev pub IsLess74 : ℕ → ℤ → Type 0
IsLess74 mtu (pos n) = n + 74 ≡ mtu
IsLess74 mtu (negsuc n) = mtu + (n + 1) ≡ 74

pub inner_mtu-IsLess74 : (mtu : ℕ) → IsLess74 mtu (inner_mtu mtu)
unfolding inner_mtu
inner_mtu-IsLess74 mtu = elim (Bool-cases (ltb mtu 74)) [
  | inl below ↦ rw (below, inner_mtu) (ground (arith, below))
  | inr above ↦ rw (above, inner_mtu) (ground (arith, above))
]

module _ (sys : System) (net : Netlink sys) where
  opened_ns-OpenedAt :
      (name : Text) (r : Result Error sys.NetNs) (s u t : sys.State) {ns : sys.NetNs}
      → attempt (sys.get_ns (named_path name)) s ≡ (ok r, u)
      → opened_ns sys net name r u ≡ (ok ns, t)
      → OpenedAt sys (join (bytes "/var/run/netns") name) ns t
  unfolding opened_ns named_path get_ns_run_dir
  opened_ns-OpenedAt name (ok ns) s u t tried h =
      (s, u, attempt_ok (sys.get_ns (named_path name)) s tried ∙ cc, inl (cc))
  opened_ns-OpenedAt name panic s u t tried h = cc
  opened_ns-OpenedAt name (err e) s u t tried h =
      let (x, v, e₁, h₁) = io_bind_ok (ignoring (delete_named sys name)) _ u h in
      new_ns-OpenedAt sys name v
        (wrapping_ok (bytes "failed to recreate ns") (new_ns sys name) v h₁)

  stated_ns-OpenedAt :
      (name : Text) (r : Result Error (Unit {0})) (s t : sys.State) {ns : sys.NetNs}
      → stated_ns sys net name r s ≡ (ok ns, t)
      → OpenedAt sys (join (bytes "/var/run/netns") name) ns t
  unfolding stated_ns
  stated_ns-OpenedAt name (err e) s t h =
      new_ns-OpenedAt sys name s (wrapping_ok (bytes "failed to create ns") (new_ns sys name) s h)
  stated_ns-OpenedAt name panic s t h = cc
  stated_ns-OpenedAt name (ok x) s t h =
      let (r, u, e, h₁) = io_bind_ok (attempt (sys.get_ns (named_path name))) _ s h in
      opened_ns-OpenedAt name r s u t e h₁

  pub lan_ns-OpenedAt :
      (lan : LanSpec) (s t : sys.State) {ns : sys.NetNs}
      → lan_ns sys net lan s ≡ (ok ns, t)
      → (name : Text) × (lan.ns ≡ some name)
        × OpenedAt sys (join (bytes "/var/run/netns") name) ns t
  unfolding lan_ns
  lan_ns-OpenedAt lan s t h =
      let (name, set, h₁) = deref_then lan.ns _ s h in
      let (r, u, e, h₂) = io_bind_ok (attempt (sys.stat (named_path name))) _ s h₁ in
      (name, set, stated_ns-OpenedAt name r u t h₂)

  module _ (inner : RunsInside sys net) where
    -- The loopback link was found in the namespace and brought up.
    abbrev pub LoIsUp : sys.NetNs → sys.State → sys.State → Type 0
    LoIsUp ns s t =
        (lo : Link) × (u v : sys.State) × (net.link_by_name (bytes "lo") (inner.enter ns s)
          ≡ (ok lo, u))
        × (net.link_set_up lo u ≡ (ok tt, v))
        × (inner.leave s v ≡ t)

    pub lo_up-LoIsUp :
        (ns : sys.NetNs) (s t : sys.State) → lo_up sys net ns s ≡ (ok tt, t) → LoIsUp ns s t
    unfolding lo_up
    lo_up-LoIsUp ns s t h =
        let work : sys.NetNs → Io sys.State (Unit {0}) =
          λ host. (do l ← net.link_by_name (bytes "lo"); net.link_set_up l) in
        let done =
          wrapping_ok (bytes "failed to bring lo up in ns") (net.do_ns (Unit {0}) ns work) s h in
        let (host, v, ran, back) = inner.ran (Unit {0}) ns work s done in
        let (lo, u, e, h₁) = io_bind_ok (net.link_by_name (bytes "lo")) _ (inner.enter ns s) ran in
        (lo, u, v, e, h₁, back)
