-- ===== src/Lan/Validation/Panics.antt =====
-- When `Validate` follows a nil pointer.
use k8slan.Base.{
  ℕ, ◌≡◌, ◌≢◌, refl, ◌↔◌, ◌⊎◌, inl, inr, Option, none, some, List, [], ◌∷◌, length, panic, ◌>>◌,
  arith, seq_panic, seq_panic_iff, nat_eq, list_eq,
}
use k8slan.Base.Int.{ℤ}
use k8slan.Base.Text.{Text}
use k8slan.Netip.{Addr, parse_addr}
use k8slan.Lan.{LanSpec, spokes}
use k8slan.Lan.Validation.{
  check_interface_name, check_name, check_ns, check_vni, check_addr, check_group, check_count,
  check_spokes, validate,
}
use k8slan.Lan.Validation.Laws.{NameSet, NsSet, VniSet, check_name_iff, check_ns_iff, check_vni_iff}

interface_name_ne_panic : (s : Text) → check_interface_name s ≢ panic
unfolding check_interface_name
interface_name_ne_panic s h = ground arith

name_panic : (o : Option Text) → (check_name o ≡ panic) ↔ (o ≡ none)
unfolding check_name
name_panic none = (λ h. refl, λ h. refl)
name_panic (some s) = (λ h. absurd (interface_name_ne_panic s h), λ h. cc)

ns_panic : (o : Option Text) → (check_ns o ≡ panic) ↔ (o ≡ none)
unfolding check_ns
ns_panic none = (λ h. refl, λ h. refl)
ns_panic (some s) = (λ h. ground arith, λ h. cc)

vni_panic : (o : Option ℤ) → (check_vni o ≡ panic) ↔ (o ≡ none)
unfolding check_vni
vni_panic none = (λ h. refl, λ h. refl)
vni_panic (some v) = (λ h. ground arith, λ h. cc)

addr_ne_panic : (s : Text) (found : Option Addr) → check_addr s found ≢ panic
unfolding check_addr
addr_ne_panic s none h = cc
addr_ne_panic s (some a) h = ground arith

group_panic : (o : Option Text) → (check_group o ≡ panic) ↔ (o ≡ none)
unfolding check_group
group_panic none = (λ h. refl, λ h. refl)
group_panic (some s) = (λ h. absurd (addr_ne_panic s (parse_addr s) h), λ h. cc)

spokes_ne_panic : (xs : List Text) → check_spokes xs ≢ panic
unfolding check_spokes
spokes_ne_panic [] h = cc
spokes_ne_panic (x ∷ xs) h = elim (seq_panic (check_interface_name x) (check_spokes xs) h) [
  | inl here ↦ interface_name_ne_panic x here
  | inr (_, later) ↦ spokes_ne_panic xs later
]

count_ne_panic : (n : ℕ) → check_count n ≢ panic
unfolding check_count
count_ne_panic n h = ground arith

-- A nil pointer that the checks reach: those before it have passed.
abbrev pub ReachesNil : LanSpec → Type 0
ReachesNil spec =
    (spec.bridge_name ≡ none)
    ⊎ (NameSet spec.bridge_name
        × ((spec.vxlan_name ≡ none)
            ⊎ (NameSet spec.vxlan_name
                × ((spec.ns ≡ none)
                    ⊎ (NsSet spec.ns
                        × ((spec.vni ≡ none) ⊎ (VniSet spec.vni × (spec.vxlan_grp ≡ none))))))))

later_ne_panic : (n : ℕ) (xs : List Text) → (check_count n >> check_spokes xs) ≢ panic
later_ne_panic n xs h = elim (seq_panic (check_count n) (check_spokes xs) h) [
  | inl here ↦ count_ne_panic n here
  | inr (_, later) ↦ spokes_ne_panic xs later
]

tail_panic :
    (o : Option Text) (n : ℕ) (xs : List Text)
    → ((check_group o >> (check_count n >> check_spokes xs)) ≡ panic) ↔ (o ≡ none)
tail_panic o n xs = (
  λ h. elim (seq_panic (check_group o) _ h) [
    | inl here ↦ (group_panic o).0 here
    | inr (_, later) ↦ absurd (later_ne_panic n xs later)
  ],
  λ nil. rw ((group_panic o).1 nil),
)

-- `Validate` panics exactly when it reaches a nil pointer: the bridge, the vxlan, the namespace,
-- the VNI or the group, each after the checks of those before it have passed.
pub validate-panic : (spec : LanSpec) → (validate spec ≡ panic) ↔ ReachesNil spec
unfolding validate
validate-panic spec =
    seq_panic_iff (check_name spec.bridge_name) _ (name_panic spec.bridge_name)
      (check_name_iff spec.bridge_name)
      (seq_panic_iff (check_name spec.vxlan_name) _ (name_panic spec.vxlan_name)
        (check_name_iff spec.vxlan_name)
        (seq_panic_iff (check_ns spec.ns) _ (ns_panic spec.ns) (check_ns_iff spec.ns) (
          seq_panic_iff (check_vni spec.vni) _ (vni_panic spec.vni) (check_vni_iff spec.vni)
            (tail_panic spec.vxlan_grp (length (spokes spec)) (spokes spec)))))
