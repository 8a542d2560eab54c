-- ===== src/DeepCopy/Spec.antt =====
-- The copy of a `LANSpec` stands for the same spec, by memory of its own.
use k8slan.Base.{◌≡◌, [], arith, list_eq, nat_eq}
use k8slan.Base.Int.{pos}
use k8slan.Base.Dict.{DistinctKeys}
use k8slan.Lan.{LanSpec}
use k8slan.DeepCopy.Store.{Ptr, Store, Extends-refl, Extends-trans, gives, gives_then}
use k8slan.DeepCopy.Laws.{Framed, Copies, later, Points, Points-Framed}
use k8slan.DeepCopy.Fields.{copy_pointer-Copies, copy_map-Copies, copy_strings-Copies}
use k8slan.DeepCopy.Types.{Meta, Cell, string_cell, int_cell, map_cell, strings_cell, SpecRef}
use k8slan.DeepCopy.{copy_spec}

-- No condition on the content
abbrev pub Any : {A : Type 0} → A → Type 0
Any a = Unit

-- The spec of Go stands for the spec of the model: each pointer, the map and the slice for what it
-- refers to; no key of the map stands twice.
pub record SpecStands {m : Meta} (h : Store (Cell m)) (lo hi : Ptr) (s : SpecRef) (v : LanSpec)
    : Type 0 where
  pub ns : Points Any string_cell h lo hi s.ns v.ns
  pub bridge_name : Points Any string_cell h lo hi s.bridge_name v.bridge_name
  pub vxlan_name : Points Any string_cell h lo hi s.vxlan_name v.vxlan_name
  pub vni : Points Any int_cell h lo hi s.vni v.vni
  pub vxlan_grp : Points Any string_cell h lo hi s.vxlan_grp v.vxlan_grp
  pub vx_dev_map : Points DistinctKeys map_cell h lo hi s.vx_dev_map v.vx_dev_map
  pub vx_port : Points Any int_cell h lo hi s.vx_port v.vx_port
  pub spoke_list : Points Any strings_cell h lo hi s.spoke_list v.spoke_list
  pub default_vx_dev : s.default_vx_dev ≡ v.default_vx_dev

module _ {m : Meta} where
  pub spec-Framed : Framed (SpecStands {m = m})
  spec-Framed = record {
    carry = λ {h} {g} {lo} {hi} {lo'} {hi'} {r} {v} low up same d. record {
      ns = (Points-Framed Any string_cell).carry low up same d.ns;
      bridge_name = (Points-Framed Any string_cell).carry low up same d.bridge_name;
      vxlan_name = (Points-Framed Any string_cell).carry low up same d.vxlan_name;
      vni = (Points-Framed Any int_cell).carry low up same d.vni;
      vxlan_grp = (Points-Framed Any string_cell).carry low up same d.vxlan_grp;
      vx_dev_map = (Points-Framed DistinctKeys map_cell).carry low up same d.vx_dev_map;
      vx_port = (Points-Framed Any int_cell).carry low up same d.vx_port;
      spoke_list = (Points-Framed Any strings_cell).carry low up same d.spoke_list;
      default_vx_dev = d.default_vx_dev;
    };
  }

  pub copy_spec-Copies : Copies (SpecStands {m = m}) copy_spec
  unfolding copy_spec
  copy_spec-Copies = record {
    copied = λ h s v d.
        gives_then _ ((copy_pointer-Copies string_cell (string_cell [])).copied h s.ns v.ns d.ns)
          λ r₁ h₁ (d₁, y₁).
            let x₁ = y₁ in
            gives_then _
              ((copy_pointer-Copies string_cell (string_cell [])).copied h₁ s.bridge_name
                v.bridge_name
                (later (Points-Framed Any string_cell) (omega arith) x₁ d.bridge_name))
              λ r₂ h₂ (d₂, y₂).
                let x₂ = Extends-trans x₁ y₂ in
                gives_then _
                  ((copy_pointer-Copies string_cell (string_cell [])).copied h₂ s.vxlan_name
                    v.vxlan_name
                    (later (Points-Framed Any string_cell) (omega arith) x₂ d.vxlan_name))
                  λ r₃ h₃ (d₃, y₃).
                    let x₃ = Extends-trans x₂ y₃ in
                    gives_then _
                      ((copy_pointer-Copies int_cell (int_cell (pos 0))).copied h₃ s.vni v.vni
                        (later (Points-Framed Any int_cell) (omega arith) x₃ d.vni))
                      λ r₄ h₄ (d₄, y₄).
                        let x₄ = Extends-trans x₃ y₄ in
                        gives_then _
                          ((copy_pointer-Copies string_cell (string_cell [])).copied h₄ s.vxlan_grp
                            v.vxlan_grp
                            (later (Points-Framed Any string_cell) (omega arith) x₄ d.vxlan_grp))
                          λ r₅ h₅ (d₅, y₅).
                            let x₅ = Extends-trans x₄ y₅ in
                            gives_then _
                              ((copy_map-Copies).copied h₅ s.vx_dev_map v.vx_dev_map (
                                later (Points-Framed DistinctKeys map_cell) (omega arith) x₅
                                  d.vx_dev_map))
                              λ r₆ h₆ (d₆, y₆).
                                let x₆ = Extends-trans x₅ y₆ in
                                gives_then _
                                  ((copy_pointer-Copies int_cell (int_cell (pos 0))).copied h₆
                                    s.vx_port v.vx_port
                                    (later (Points-Framed Any int_cell) (omega arith) x₆ d.vx_port))
                                  λ r₇ h₇ (d₇, y₇).
                                    let x₇ = Extends-trans x₆ y₇ in
                                    gives_then _
                                      ((copy_strings-Copies).copied h₇ s.spoke_list v.spoke_list (
                                        later (Points-Framed Any strings_cell) (omega arith) x₇
                                          d.spoke_list))
                                      λ r₈ h₈ (d₈, y₈).
                                        let x₈ = Extends-trans x₇ y₈ in
                                        let z₈ = Extends-refl h₈ in
                                        let z₇ = Extends-trans y₈ z₈ in
                                        let z₆ = Extends-trans y₇ z₇ in
                                        let z₅ = Extends-trans y₆ z₆ in
                                        let z₄ = Extends-trans y₅ z₅ in
                                        let z₃ = Extends-trans y₄ z₄ in
                                        let z₂ = Extends-trans y₃ z₃ in
                                        let z₁ = Extends-trans y₂ z₂ in
                                        let up₁ = x₁.grows in
                                        let up₂ = x₂.grows in
                                        let up₃ = x₃.grows in
                                        let up₄ = x₄.grows in
                                        let up₅ = x₅.grows in
                                        let up₆ = x₆.grows in
                                        let up₇ = x₇.grows in
                                        gives (
                                          record {
                                            ns =
                                                later (Points-Framed Any string_cell) (omega arith)
                                                  z₁ d₁;
                                            bridge_name =
                                                later (Points-Framed Any string_cell) up₁ z₂ d₂;
                                            vxlan_name =
                                                later (Points-Framed Any string_cell) up₂ z₃ d₃;
                                            vni = later (Points-Framed Any int_cell) up₃ z₄ d₄;
                                            vxlan_grp =
                                                later (Points-Framed Any string_cell) up₄ z₅ d₅;
                                            vx_dev_map =
                                                later (Points-Framed DistinctKeys map_cell) up₅ z₆
                                                  d₆;
                                            vx_port = later (Points-Framed Any int_cell) up₆ z₇ d₇;
                                            spoke_list =
                                                later (Points-Framed Any strings_cell) up₇ z₈ d₈;
                                            default_vx_dev = d.default_vx_dev;
                                          },
                                          x₈,
                                        );
  }
