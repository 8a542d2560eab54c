-- ===== src/Lan/Validation/Errors.antt =====
-- What an error of `Validate` tells about the spec.
use mathlib.Core.Path.{subst}
use mathlib.Core.List.{Memᴰ}
use k8slan.Base.{
  ℕ, ◌≤◌, ◌<◌, ◌≡◌, refl, sym, ◌⊎◌, inl, inr, false, Option, none, some, List, [], ◌∷◌, length, err,
  arith, seq_err, nat_eq, list_eq,
}
use k8slan.Base.Int.{ℤ, pos, negsuc}
use k8slan.Base.Text.{Text, trim_space}
use k8slan.Netip.{Addr, parse_addr, is_multicast}
use k8slan.Lan.{LanSpec, spokes}
use k8slan.Lan.Validation.{
  SpecError, bad_if_name, no_ns, bad_vni, bad_group, not_multicast, bad_spoke_count,
  check_interface_name, check_name, check_ns, check_vni, check_addr, check_group, check_count,
  check_spokes, validate,
}
use k8slan.Lan.Validation.Laws.{FitsIfName}

-- What is wrong with a spec that is refused with an error.
abbrev pub Explains : LanSpec → SpecError → Type 0
Explains spec (bad_if_name s) =
    ¬ (FitsIfName s)
    × ((spec.bridge_name ≡ some s) ⊎ (spec.vxlan_name ≡ some s) ⊎ Memᴰ s (spokes spec))
Explains spec no_ns = (s : Text) × (spec.ns ≡ some s) × (trim_space s ≡ [])
Explains spec (bad_vni v) = (spec.vni ≡ some v) × ((n : ℕ) → v ≡ pos n → 1 ≤ n → n ≤ 16777215 → ⊥)
Explains spec (bad_group s) = (spec.vxlan_grp ≡ some s) × (parse_addr s ≡ none)
Explains spec (not_multicast s) =
    (spec.vxlan_grp ≡ some s) × ((a : Addr) × (parse_addr s ≡ some a) × (is_multicast a ≡ false))
Explains spec bad_spoke_count = (length (spokes spec) ≡ 0) ⊎ (4095 < length (spokes spec))

interface_name_err :
    (s : Text) {e : SpecError}
    → check_interface_name s ≡ err e
    → (e ≡ bad_if_name s) × (¬ (FitsIfName s))
unfolding check_interface_name
interface_name_err s h = (ground arith, λ fits. ground arith)

name_err :
    (o : Option Text) {e : SpecError}
    → check_name o ≡ err e
    → (s : Text) × (o ≡ some s) × (e ≡ bad_if_name s) × (¬ (FitsIfName s))
unfolding check_name
name_err none h = cc
name_err (some s) h = let (same, unfit) = interface_name_err s h in (s, refl, same, unfit)

ns_err :
    (o : Option Text) {e : SpecError}
    → check_ns o ≡ err e
    → (e ≡ no_ns) × ((s : Text) × (o ≡ some s) × (trim_space s ≡ []))
unfolding check_ns
ns_err none h = cc
ns_err (some s) h = (ground arith, (s, refl, ground arith))

vni_err :
    (o : Option ℤ) {e : SpecError}
    → check_vni o ≡ err e
    → (v : ℤ) × (e ≡ bad_vni v) × (o ≡ some v) × ((n : ℕ) → v ≡ pos n → 1 ≤ n → n ≤ 16777215 → ⊥)
unfolding check_vni
vni_err none h = cc
vni_err (some (negsuc v)) h = (negsuc v, cc, refl, λ n e. cc)
vni_err (some (pos m)) h = (pos m, ground arith, refl, λ n e lo hi. ground arith)

addr_err :
    (s : Text) (found : Option Addr) {e : SpecError}
    → check_addr s found ≡ err e
    → ((e ≡ bad_group s) × (found ≡ none))
      ⊎ ((e ≡ not_multicast s) × ((a : Addr) × (found ≡ some a) × (is_multicast a ≡ false)))
unfolding check_addr
addr_err s none h = inl (cc, refl)
addr_err s (some a) h = inr (ground arith, (a, refl, ground arith))

group_err_at :
    (spec : LanSpec) (o : Option Text) {e : SpecError}
    → spec.vxlan_grp ≡ o
    → check_group o ≡ err e
    → Explains spec e
unfolding check_group
group_err_at spec none set h = cc
group_err_at spec (some s) set h = elim (addr_err s (parse_addr s) h) [
  | inl (same, lost) ↦ subst (Explains spec) (sym same) (set, lost)
  | inr (same, found) ↦ subst (Explains spec) (sym same) (set, found)
]

group_err : (spec : LanSpec) {e : SpecError} → check_group spec.vxlan_grp ≡ err e → Explains spec e
group_err spec h = group_err_at spec spec.vxlan_grp refl h

count_err :
    (n : ℕ) {e : SpecError} → check_count n ≡ err e → (e ≡ bad_spoke_count) × ((n ≡ 0) ⊎ (4095 < n))
unfolding check_count
count_err n h = (ground arith, ground arith)

spokes_err :
    (xs : List Text) {e : SpecError}
    → check_spokes xs ≡ err e
    → (s : Text) × (e ≡ bad_if_name s) × (¬ (FitsIfName s)) × Memᴰ s xs
unfolding check_spokes
spokes_err [] h = cc
spokes_err (x ∷ xs) h = elim (seq_err (check_interface_name x) (check_spokes xs) h) [
  | inl here ↦ let (same, unfit) = interface_name_err x here in (x, same, unfit, Memᴰ.head refl)
  | inr (_, later) ↦ let (s, same, unfit, m) = spokes_err xs later in (s, same, unfit, Memᴰ.tail m)
]

-- Every error that `Validate` returns names something that is wrong with the spec.
pub validate-err : (spec : LanSpec) {e : SpecError} → validate spec ≡ err e → Explains spec e
unfolding validate
validate-err spec {e} h = elim (seq_err (check_name spec.bridge_name) _ h) [
  | inl bad ↦
      let (s, set, same, unfit) = name_err spec.bridge_name bad in
      subst (Explains spec) (sym same) (unfit, inl set)
  | inr (_, r₁) ↦ elim (seq_err (check_name spec.vxlan_name) _ r₁) [
    | inl bad ↦
        let (s, set, same, unfit) = name_err spec.vxlan_name bad in
        subst (Explains spec) (sym same) (unfit, inr (inl set))
    | inr (_, r₂) ↦ elim (seq_err (check_ns spec.ns) _ r₂) [
      | inl bad ↦ let (same, why) = ns_err spec.ns bad in subst (Explains spec) (sym same) why
      | inr (_, r₃) ↦ elim (seq_err (check_vni spec.vni) _ r₃) [
        | inl bad ↦
            let (v, same, set, why) = vni_err spec.vni bad in
            subst (Explains spec) (sym same) (set, why)
        | inr (_, r₄) ↦ elim (seq_err (check_group spec.vxlan_grp) _ r₄) [
          | inl bad ↦ group_err spec bad
          | inr (_, r₅) ↦ elim (seq_err (check_count (length (spokes spec))) _ r₅) [
            | inl bad ↦
                let (same, why) = count_err (length (spokes spec)) bad in
                subst (Explains spec) (sym same) why
            | inr (_, r₆) ↦
                let (s, same, unfit, m) = spokes_err (spokes spec) r₆ in
                subst (Explains spec) (sym same) (unfit, inr (inr m))
          ]
        ]
      ]
    ]
  ]
]
