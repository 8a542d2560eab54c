-- ===== src/Interfaces/Vxlan/Made.antt =====
-- What making the vxlan link (pkg/interfaces/vxlan.go) has done when it succeeded.
use k8slan.Base.{
  ℕ, List, ◌≡◌, refl, ap, ◌∙◌, ◌⊎◌, inl, inr, true, false, Bool-cases, some, Option-cases, Result,
  ok, err, panic,
}
use k8slan.Base.Int.{ℤ, pos}
use k8slan.Base.Text.{Text, bytes}
use k8slan.Base.Io.{
  Io, Error, message, is_errno, attempt, io_bind_ok, then_run, ◌>>=◌, attempt_ok, attempt_err,
  deref_then,
}
use k8slan.Netip.{Addr, parse_addr, is_multicast, as_slice}
use k8slan.Lan.{LanSpec}
use k8slan.Interfaces.System.{System}
use k8slan.Interfaces.Netlink.{Link, NewLink, new_vxlan, Netlink}
use k8slan.Interfaces.Vxlan.{
  eexist, to_uint32, must_parse_addr, ensure_vxlan_if, unless_exists, create_vxlan_if,
}

-- What follows the parsing of an address that succeeded
pub parse_then :
    {S B : Type 0} (text : Text) (k : Addr → Io S B) (s : S) {b : B} {t : S}
    → ◌>>=◌ (must_parse_addr text) k s ≡ (ok b, t)
    → (a : Addr) × (parse_addr text ≡ some a) × (k a s ≡ (ok b, t))
unfolding must_parse_addr
parse_then text k s h = elim (Option-cases (parse_addr text)) [
  | inl bad ↦ let e = rw (bad, must_parse_addr) at h in cc
  | inr (x, good) ↦ (x, good, rw (good, must_parse_addr) at h)
]

-- The vxlan link of these attributes
abbrev pub vxlan_of : Text → ℤ → List ℕ → ℕ → ℕ → ℤ → ℤ → NewLink
vxlan_of name vni group dev_fd netns mtu port =
    new_vxlan name (to_uint32 mtu) (pos 1024) netns group vni dev_fd port true false 3600

-- A call whose result is dropped, by its outcome
done_ok :
    {S : Type 0} (m : Io S Link) (s : S) {u : S}
    → ◌>>=◌ m (λ l. (λ (w : S). (ok (tt {0}), w))) s ≡ (ok tt, u)
    → (l : Link) × (m s ≡ (ok l, u))
done_ok m s h = let (l, w, e, k) = io_bind_ok m _ s h in (l, e ∙ cc)

done_err :
    {S : Type 0} (m : Io S Link) (s : S) {e : Error} {u : S}
    → ◌>>=◌ m (λ l. (λ (w : S). (ok (tt {0}), w))) s ≡ (err e, u)
    → m s ≡ (err e, u)
done_err {S} m s {e} {u} h = split (m s) refl h
  where
    split :
        (r : Result Error Link × S)
        → m s ≡ r
        → then_run (λ l. (λ (w : S). (ok (tt {0}), w))) r ≡ (err e, u)
        → m s ≡ (err e, u)
    split (ok l, w) k h' = cc
    split (err x, w) k h' = k ∙ cc
    split (panic, w) k h' = cc

module _ (sys : System) (net : Netlink sys) where
  -- The kernel took the link, or said that it exists.
  abbrev pub IsThere : NewLink → sys.State → sys.State → Type 0
  IsThere new s t =
      ((l : Link) × (net.link_add new s ≡ (ok l, t)))
      ⊎ ((e : Error) × (is_errno e eexist ≡ true) × (net.link_add new s ≡ (err e, t)))

  -- The LAN's group is a multicast address, and the link that the LAN says is there.
  pub record IsVxlanMade (lan : LanSpec) (dev_fd netns : ℕ) (mtu port : ℤ) (s t : sys.State)
      : Type 0 where
    pub group : Text
    pub addr : Addr
    pub name : Text
    pub vni : ℤ
    pub lan_group : lan.vxlan_grp ≡ some group
    pub lan_addr : parse_addr group ≡ some addr
    pub multicast : is_multicast addr ≡ true
    pub lan_name : lan.vxlan_name ≡ some name
    pub lan_vni : lan.vni ≡ some vni
    pub there : IsThere (vxlan_of name vni (as_slice addr) dev_fd netns mtu port) s t

  -- What the two outcomes mean that are no error.
  made_or_exists :
      (name : Text) (dev_fd netns : ℕ) (vni : ℤ) (grp : Addr) (mtu port : ℤ)
      (r : Result Error (Unit {0})) (s u t : sys.State)
      → attempt (ensure_vxlan_if sys net name dev_fd netns vni grp (to_uint32 mtu) port) s
        ≡ (ok r, u)
      → unless_exists sys net r u ≡ (ok tt, t)
      → (is_multicast grp ≡ true)
        × IsThere (vxlan_of name vni (as_slice grp) dev_fd netns mtu port) s t
  unfolding ensure_vxlan_if unless_exists is_errno
  made_or_exists name dev_fd netns vni grp mtu port panic s u t tried h = cc
  made_or_exists name dev_fd netns vni grp mtu port (ok x) s u t tried h =
      let did =
        attempt_ok (ensure_vxlan_if sys net name dev_fd netns vni grp (to_uint32 mtu) port) s
          tried in
      elim (Bool-cases (is_multicast grp)) [
        | inl multi ↦
            let made = rw (multi, ensure_vxlan_if) at did in
            let (l, e) =
              done_ok (net.link_add (vxlan_of name vni (as_slice grp) dev_fd netns mtu port)) s
                made in
            (multi, inl (l, e ∙ cc))
        | inr single ↦ let k = rw (single, ensure_vxlan_if) at did in cc
      ]
  made_or_exists name dev_fd netns vni grp mtu port (err x) s u t tried h =
      let did =
        attempt_err (ensure_vxlan_if sys net name dev_fd netns vni grp (to_uint32 mtu) port) s
          tried in
      elim (Bool-cases (is_errno x eexist)) [
        | inr other ↦ let k = rw (other, unless_exists) at h in cc
        | inl exists ↦ elim (Bool-cases (is_multicast grp)) [
          | inl multi ↦
              let failed = rw (multi, ensure_vxlan_if) at did in
              let e =
                done_err (net.link_add (vxlan_of name vni (as_slice grp) dev_fd netns mtu port)) s
                  failed in
              let k = rw (exists, unless_exists) at h in (multi, inr (x, exists, e ∙ cc))
          | inr single ↦
              let k = rw (single, ensure_vxlan_if) at did in
              let same : message (bytes "not a multicast address") ≡ x = cc in
              let known : is_errno (message (bytes "not a multicast address")) eexist ≡ true =
                ap (λ z. is_errno z eexist) same ∙ exists in
              cc
        ]
      ]

  -- If making the vxlan link succeeds, it is there.
  pub create_vxlan_if-IsVxlanMade :
      (lan : LanSpec) (dev_fd netns : ℕ) (mtu port : ℤ) (s t : sys.State)
      → create_vxlan_if sys net lan dev_fd netns mtu port s ≡ (ok tt, t)
      → IsVxlanMade lan dev_fd netns mtu port s t
  unfolding create_vxlan_if
  create_vxlan_if-IsVxlanMade lan dev_fd netns mtu port s t h =
      let (grp, grp_set, h₁) = deref_then lan.vxlan_grp _ s h in
      let (addr, parsed, h₂) = parse_then grp _ s h₁ in
      let (name, name_set, h₃) = deref_then lan.vxlan_name _ s h₂ in
      let (vni, vni_set, h₄) = deref_then lan.vni _ s h₃ in
      let make =
        attempt (ensure_vxlan_if sys net name dev_fd netns vni addr (to_uint32 mtu) port) in
      let (r, u, e, h₅) = io_bind_ok make _ s h₄ in
      let (multicast, there) = made_or_exists name dev_fd netns vni addr mtu port r s u t e h₅ in
      record {
        group = grp;
        addr = addr;
        name = name;
        vni = vni;
        lan_group = grp_set;
        lan_addr = parsed;
        multicast = multicast;
        lan_name = name_set;
        lan_vni = vni_set;
        there = there;
      }
