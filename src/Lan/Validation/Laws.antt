-- ===== src/Lan/Validation/Laws.antt =====
-- What `Validate` accepts, what its errors tell, and when it panics.
use mathlib.Core.Path.{subst}
use mathlib.Core.Option.{some-injective}
use k8slan.Base.{
  ℕ, ◌≤◌, ◌≡◌, ◌≢◌, refl, sym, ap, ◌∙◌, ◌↔◌, true, Option, none, some, List, [], ◌∷◌, length, All,
  ok, arith, seq_ok, nat_eq, list_eq,
}
use k8slan.Base.Int.{ℤ, pos, negsuc}
use k8slan.Base.Text.{Text, trim_space}
use k8slan.Netip.{Addr, parse_addr, is_multicast}
use k8slan.Lan.{LanSpec, spokes}
use k8slan.Lan.Validation.{
  check_interface_name, check_name, check_ns, check_vni, check_addr, check_group, check_count,
  check_spokes, validate,
}

-- 1 to 13 bytes.
abbrev pub FitsIfName : Text → Type 0
FitsIfName ifname = (1 ≤ length ifname) × (length ifname ≤ 13)

-- What each pointer has to lead to.
abbrev pub NameSet : Option Text → Type 0
NameSet name = (s : Text) × (name ≡ some s) × FitsIfName s

abbrev pub NsSet : Option Text → Type 0
NsSet ns = (s : Text) × (ns ≡ some s) × (trim_space s ≢ [])

abbrev pub VniSet : Option ℤ → Type 0
VniSet vni = (n : ℕ) × (vni ≡ some (pos n)) × (1 ≤ n) × (n ≤ 16777215)

abbrev pub GroupSet : Option Text → Type 0
GroupSet grp =
    (s : Text) × (grp ≡ some s) × (a : Addr) × (parse_addr s ≡ some a) × (is_multicast a ≡ true)

-- A spec that can be put into effect.
pub record Accepted (spec : LanSpec) : Type 0 where
  pub bridge : NameSet spec.bridge_name
  pub vxlan : NameSet spec.vxlan_name
  pub ns : NsSet spec.ns
  pub vni : VniSet spec.vni
  pub group : GroupSet spec.vxlan_grp
  pub spoke_count : (1 ≤ length (spokes spec)) × (length (spokes spec) ≤ 4095)
  pub spokes_fit : All FitsIfName (spokes spec)

pub check_interface_name_iff : (s : Text) → (check_interface_name s ≡ ok tt) ↔ FitsIfName s
unfolding check_interface_name
check_interface_name_iff s = (λ h. ground arith, λ h. ground arith)

pub check_name_iff : (o : Option Text) → (check_name o ≡ ok tt) ↔ NameSet o
unfolding check_name
check_name_iff none = (λ h. cc, λ h. cc)
check_name_iff (some s) = (
  λ h. (s, refl, (check_interface_name_iff s).0 h),
  λ (t, e, fits).
      (check_interface_name_iff s).1 (subst FitsIfName (sym (some-injective s t e)) fits),
)

pub check_ns_iff : (o : Option Text) → (check_ns o ≡ ok tt) ↔ NsSet o
unfolding check_ns
check_ns_iff none = (λ h. cc, λ h. cc)
check_ns_iff (some s) = (λ h. (s, refl, ground arith), λ h. ground arith)

pub check_vni_iff : (o : Option ℤ) → (check_vni o ≡ ok tt) ↔ VniSet o
unfolding check_vni
check_vni_iff none = (λ h. cc, λ h. cc)
check_vni_iff (some (negsuc v)) = (λ h. cc, λ h. cc)
check_vni_iff (some (pos n)) = (λ h. (n, refl, ground arith, ground arith), λ h. ground arith)

check_addr_iff :
    (s : Text) (found : Option Addr)
    → (check_addr s found ≡ ok tt) ↔ ((a : Addr) × (found ≡ some a) × (is_multicast a ≡ true))
unfolding check_addr
check_addr_iff s none = (λ h. cc, λ h. cc)
check_addr_iff s (some a) = (
  λ h. (a, refl, ground arith),
  λ (b, e, multi). rw (ap is_multicast (some-injective a b e) ∙ multi),
)

pub check_group_iff : (o : Option Text) → (check_group o ≡ ok tt) ↔ GroupSet o
unfolding check_group
check_group_iff none = (λ h. cc, λ h. cc)
check_group_iff (some s) = (
  λ h.
      let (a, parsed, multi) = (check_addr_iff s (parse_addr s)).0 h in (s, refl, a, parsed, multi),
  λ (t, e, a, parsed, multi).
      (check_addr_iff s (parse_addr s)).1 (a, ap parse_addr (some-injective s t e) ∙ parsed, multi),
)

pub check_count_iff : (n : ℕ) → (check_count n ≡ ok tt) ↔ ((1 ≤ n) × (n ≤ 4095))
unfolding check_count
check_count_iff n = (λ h. ground arith, λ h. ground arith)

check_spokes_iff : (xs : List Text) → (check_spokes xs ≡ ok tt) ↔ All FitsIfName xs
unfolding check_spokes
check_spokes_iff [] = (λ h. tt, λ h. refl)
check_spokes_iff (x ∷ xs) = ground (arith, check_interface_name_iff x, check_spokes_iff xs)

-- `Validate` succeeds exactly on the specs whose bridge and vxlan names have 1 to 13 bytes, whose
-- namespace is set and not blank, whose VNI is from 1 to 16777215, whose group is a multicast
-- address and which have 1 to 4095 spokes with names of 1 to 13 bytes.
pub validate_iff : (spec : LanSpec) → (validate spec ≡ ok tt) ↔ Accepted spec
unfolding validate
validate_iff spec = (
  λ h.
      let (a, r₁) = seq_ok (check_name spec.bridge_name) _ h in
      let (b, r₂) = seq_ok (check_name spec.vxlan_name) _ r₁ in
      let (c, r₃) = seq_ok (check_ns spec.ns) _ r₂ in
      let (d, r₄) = seq_ok (check_vni spec.vni) _ r₃ in
      let (e, r₅) = seq_ok (check_group spec.vxlan_grp) _ r₄ in
      let (f, g) = seq_ok (check_count (length (spokes spec))) _ r₅ in
      record {
        bridge = (check_name_iff spec.bridge_name).0 a;
        vxlan = (check_name_iff spec.vxlan_name).0 b;
        ns = (check_ns_iff spec.ns).0 c;
        vni = (check_vni_iff spec.vni).0 d;
        group = (check_group_iff spec.vxlan_grp).0 e;
        spoke_count = (check_count_iff (length (spokes spec))).0 f;
        spokes_fit = (check_spokes_iff (spokes spec)).0 g;
      },
  λ v. rw (
    (check_name_iff spec.bridge_name).1 v.bridge,
    (check_name_iff spec.vxlan_name).1 v.vxlan,
    (check_ns_iff spec.ns).1 v.ns,
    (check_vni_iff spec.vni).1 v.vni,
    (check_group_iff spec.vxlan_grp).1 v.group,
    (check_count_iff (length (spokes spec))).1 v.spoke_count,
    (check_spokes_iff (spokes spec)).1 v.spokes_fit,
  ),
)
