-- ===== src/Interfaces/Apply/Check.antt =====
-- The check that `Ensure` (pkg/interfaces/apply.go) makes of a vxlan link that is there already.
use k8slan.Base.{
  ℕ, ◌≡◌, refl, ap, ◌∙◌, ◌↔◌, inl, inr, Bool, true, false, not, ◌||◌, some, ok, err, panic, ◌==◌,
  ==_iff, Bool-cases, if◌then◌else◌, Result, list_eq, nat_eq, arith,
}
use k8slan.Base.Int.{ℤ, int_eq}
use k8slan.Base.Text.{Text, bytes}
use k8slan.Base.Io.{
  io_bind_run, deref_io_run, pure_ok, Io, ◌>>=◌, ◌>>◌, Error, ignoring, attempt, deref_io, pure,
  io_bind_ok, attempt_ok, deref_then,
}
use k8slan.Netip.{Addr, parse_addr, addr_eq}
use k8slan.Lan.{LanSpec}
use k8slan.Interfaces.System.{System}
use k8slan.Interfaces.Netlink.{Link, VxlanAttrs, Netlink}
use k8slan.Interfaces.Macvtap.{link_delete}
use k8slan.Interfaces.Vxlan.{must_parse_addr}
use k8slan.Interfaces.Vxlan.Made.{parse_then}
use k8slan.Interfaces.Apply.{vxlan_differs, found_vxlan, vxlan_needed}

-- The link is a vxlan link with the LAN's group, as an address, its VNI and its port, on this
-- device.
pub record IsLanLink (lan : LanSpec) (dev_index : ℕ) (l : Link) : Type 0 where
  pub group : Text
  pub addr : Addr
  pub vx : VxlanAttrs
  pub lan_group : lan.vxlan_grp ≡ some group
  pub lan_addr : parse_addr group ≡ some addr
  pub is_vxlan : l.type_name ≡ bytes "vxlan"
  pub attrs : l.vxlan ≡ some vx
  pub same_group : parse_addr vx.group ≡ some addr
  pub same_vni : lan.vni ≡ some vx.vxlan_id
  pub same_dev : vx.vtep_dev_index ≡ dev_index
  pub same_port : lan.vx_port ≡ some vx.port

must_parse_addr_run :
    {S : Type 0} (text : Text) (s : S) {a : Addr}
    → parse_addr text ≡ some a
    → must_parse_addr text s ≡ (ok a, s)
unfolding must_parse_addr
must_parse_addr_run text s e = rw (e, must_parse_addr) refl

differs_iff :
    (a b : Addr) (i j : ℤ) (m n : ℕ) (p q : ℤ)
    → ((not (a == b) || not (i == j) || not (m == n) || not (p == q)) ≡ false)
      ↔ ((a ≡ b) × (i ≡ j) × (m ≡ n) × (p ≡ q))
differs_iff a b i j m n p q = ground arith

module _ (sys : System) (net : Netlink sys) where
  -- What the comparison has read when it ends.
  vxlan_differs_reads :
      (lan : LanSpec) (dev : ℕ) (l : Link) (s t : sys.State) {b : Bool}
      → vxlan_differs sys net lan l dev s ≡ (ok b, t)
      → (grp : Text) × (addr : Addr) × (vx : VxlanAttrs) × (vx_addr : Addr) × (vni port : ℤ)
        × (lan.vxlan_grp ≡ some grp)
        × (parse_addr grp ≡ some addr)
        × (l.vxlan ≡ some vx)
        × (parse_addr vx.group ≡ some vx_addr)
        × (lan.vni ≡ some vni)
        × (lan.vx_port ≡ some port)
        × ((not (addr == vx_addr)
              || not (vx.vxlan_id == vni)
              || not (vx.vtep_dev_index == dev)
              || not (vx.port == port))
            ≡ b)
        × (s ≡ t)
  unfolding vxlan_differs
  vxlan_differs_reads lan dev l s t h =
      let (grp, grp_set, h₁) = deref_then lan.vxlan_grp _ s h in
      let (addr, parsed, h₂) = parse_then grp _ s h₁ in
      let (vx, attrs, h₃) = deref_then l.vxlan _ s h₂ in
      let (vx_addr, theirs, h₄) = parse_then vx.group _ s h₃ in
      let (vni, vni_set, h₅) = deref_then lan.vni _ s h₄ in
      let (port, port_set, h₆) = deref_then lan.vx_port _ s h₅ in
      let (answer, end) = pure_ok h₆ in
      (
        grp, addr, vx, vx_addr, vni, port, grp_set, parsed, attrs, theirs, vni_set, port_set,
        answer, end,
      )

  vxlan_differs_keeps :
      (lan : LanSpec) (dev : ℕ) (l : Link) (s t : sys.State)
      → l.type_name ≡ bytes "vxlan"
      → vxlan_differs sys net lan l dev s ≡ (ok false, t)
      → IsLanLink lan dev l × (s ≡ t)
  vxlan_differs_keeps lan dev l s t is h =
      let (
        grp, addr, vx, vx_addr, vni, port, grp_set, parsed, attrs, theirs, vni_set, port_set,
        answer, end,
      ) =
        vxlan_differs_reads lan dev l s t h in
      let (same, vnis, devs, ports) =
        (differs_iff addr vx_addr vx.vxlan_id vni vx.vtep_dev_index dev vx.port port).0 answer in
      (
        record {
          group = grp;
          addr = addr;
          vx = vx;
          lan_group = grp_set;
          lan_addr = parsed;
          is_vxlan = is;
          attrs = attrs;
          same_group = theirs ∙ cc;
          same_vni = vni_set ∙ cc;
          same_dev = devs;
          same_port = port_set ∙ cc;
        },
        end,
      )

  vxlan_differs_same :
      (lan : LanSpec) (dev : ℕ) (l : Link) (s : sys.State)
      → IsLanLink lan dev l
      → vxlan_differs sys net lan l dev s ≡ (ok false, s)
  unfolding vxlan_differs
  vxlan_differs_same lan dev l s k =
      io_bind_run (deref_io lan.vxlan_grp) _ s (deref_io_run s k.lan_group)
      ∙ io_bind_run (must_parse_addr k.group) _ s (must_parse_addr_run k.group s k.lan_addr)
      ∙ io_bind_run (deref_io l.vxlan) _ s (deref_io_run s k.attrs)
      ∙ io_bind_run (must_parse_addr k.vx.group) _ s (must_parse_addr_run k.vx.group s k.same_group)
      ∙ io_bind_run (deref_io lan.vni) _ s (deref_io_run s k.same_vni)
      ∙ io_bind_run (deref_io lan.vx_port) _ s (deref_io_run s k.same_port)
      ∙ ap (λ b. (ok b, s))
          ((differs_iff k.addr k.addr k.vx.vxlan_id k.vx.vxlan_id k.vx.vtep_dev_index dev k.vx.port
              k.vx.port).1
            (refl, refl, k.same_dev, refl))

  found_vxlan_keeps :
      (lan : LanSpec) (dev : ℕ) (r : Result Error Link) (s t : sys.State)
      → found_vxlan sys net lan dev r s ≡ (ok false, t)
      → (l : Link) × (r ≡ ok l) × IsLanLink lan dev l × (s ≡ t)
  unfolding found_vxlan
  found_vxlan_keeps lan dev (err e) s t h = cc
  found_vxlan_keeps lan dev panic s t h = cc
  found_vxlan_keeps lan dev (ok l) s t h = elim (Bool-cases (l.type_name == bytes "vxlan")) [
    | inl same ↦
        let (theirs, e) =
          vxlan_differs_keeps lan dev l s t ((==_iff l.type_name (bytes "vxlan")).0 same)
            (rw (same, found_vxlan) at h) in
        (l, refl, theirs, e)
    | inr other ↦ let k = rw (other, found_vxlan) at h in cc
  ]

  found_vxlan_same :
      (lan : LanSpec) (dev : ℕ) (l : Link) (s : sys.State)
      → IsLanLink lan dev l
      → found_vxlan sys net lan dev (ok l) s ≡ (ok false, s)
  unfolding found_vxlan
  found_vxlan_same lan dev l s k =
      rw ((==_iff l.type_name (bytes "vxlan")).1 k.is_vxlan, found_vxlan)
        (vxlan_differs_same lan dev l s k)

  -- What the check does once it is known whether the link is to be made.
  abbrev settle : Text → Bool → Io sys.State Bool
  settle name needed = do
    (if needed then ignoring (link_delete sys net name) else pure tt)
    pure needed

  settle_keeps :
      (name : Text) (needed : Bool) (s t : sys.State)
      → settle name needed s ≡ (ok false, t)
      → (needed ≡ false) × (s ≡ t)
  settle_keeps name false s t h = pure_ok h
  settle_keeps name true s t h =
      let (x, u, e, k) = io_bind_ok (ignoring (link_delete sys net name)) _ s h in cc

  found_keeps :
      (lan : LanSpec) (dev : ℕ) (name : Text) (r : Result Error Link) (s t : sys.State)
      → ◌>>=◌ (found_vxlan sys net lan dev r) (settle name) s ≡ (ok false, t)
      → (l : Link) × (r ≡ ok l) × IsLanLink lan dev l × (s ≡ t)
  found_keeps lan dev name r s t h =
      let (needed, u, e, k) = io_bind_ok (found_vxlan sys net lan dev r) _ s h in
      let (kept, same) = settle_keeps name needed u t k in found_vxlan_keeps lan dev r s t (e ∙ cc)

  -- The check of the vxlan link says that none is to be made exactly if a link of the name is found
  -- that is a vxlan link with the LAN's group, compared as addresses, its VNI and its port, on the
  -- device of this index; it then leaves the state as the look-up did.
  pub vxlan_needed_iff :
      (lan : LanSpec) (dev : ℕ) (s t : sys.State)
      → (vxlan_needed sys net lan dev s ≡ (ok false, t)) ↔ (
          (name : Text) × (l : Link) × (lan.vxlan_name ≡ some name)
          × (net.link_by_name name s ≡ (ok l, t))
          × IsLanLink lan dev l)
  unfolding vxlan_needed
  vxlan_needed_iff lan dev s t = (
    λ h.
        let (grp, grp_set, h₁) = deref_then lan.vxlan_grp _ s h in
        let (addr, parsed, h₂) = parse_then grp _ s h₁ in
        let (name, set, h₃) = deref_then lan.vxlan_name _ s h₂ in
        let (r, u, e, h₄) = io_bind_ok (attempt (net.link_by_name name)) _ s h₃ in
        let (l, is_ok, theirs, same) = found_keeps lan dev name r u t h₄ in
        let found = attempt_ok (net.link_by_name name) s (e ∙ ap (λ x. (ok x, u)) is_ok) in
        (name, l, set, found ∙ ap (λ w. (ok l, w)) same, theirs),
    λ (name, l, set, found, k).
        io_bind_run (deref_io lan.vxlan_grp) _ s (deref_io_run s k.lan_group)
        ∙ io_bind_run (must_parse_addr k.group) _ s (must_parse_addr_run k.group s k.lan_addr)
        ∙ io_bind_run (deref_io lan.vxlan_name) _ s (deref_io_run s set)
        ∙ io_bind_run (attempt (net.link_by_name name)) _ s {a = ok l} {u = t} (rw found refl)
        ∙ io_bind_run (found_vxlan sys net lan dev (ok l)) _ t (found_vxlan_same lan dev l t k),
  )
