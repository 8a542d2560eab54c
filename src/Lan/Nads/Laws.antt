-- ===== src/Lan/Nads/Laws.antt =====
-- Which network attachments a LAN has: two for each spoke, told apart, in the given namespace.
use mathlib.Core.Bool.{false≢true}
use k8slan.Base.{
  ◌*◌, ◌≡◌, ◌↔◌, sym, refl, ap, ◌∙◌, Bool, true, false, not, List, [], ◌∷◌, length, contains,
  Distinct, map, arith, ◌==◌, nat_eq, list_eq,
}
use k8slan.Base.Text.{Text, contains_text}
use k8slan.Lan.{LanSpec, spokes, veth_prefix}
use k8slan.Lan.Names.{get_dp_resource_name}
use k8slan.Lan.Names.Laws.{get_dp_resource_name_inj, is_macvtap-resource_name, spoke_name_iff}
use k8slan.Lan.Nads.{Nad, macvtap_config, veth_config, gen_nad, nads_of, get_nads}

-- The resource names of a list of spokes, in the order in which the code goes through them.
abbrev pub resource_names : List Text → List Text
resource_names [] = []
resource_names (x ∷ xs) =
    get_dp_resource_name x true ∷ get_dp_resource_name x false ∷ resource_names xs

abbrev pub nad_name : Nad → Text
nad_name nad = nad.name

map-nads_of : (xs : List Text) (ns : Text) → map nad_name (nads_of xs ns) ≡ resource_names xs
unfolding nads_of gen_nad
map-nads_of [] ns = refl
map-nads_of (x ∷ xs) ns =
    ap (λ l. get_dp_resource_name x true ∷ get_dp_resource_name x false ∷ l) (map-nads_of xs ns)

pub same_kind_eq :
    (x y : Text) (b : Bool) → (get_dp_resource_name x b == get_dp_resource_name y b) ≡ (x == y)
same_kind_eq x y b =
    ground
      (arith, get_dp_resource_name_inj x y b b, λ (e : x ≡ y). ap (λ z. get_dp_resource_name z b) e)

pub other_kind_eq :
    (x y : Text) (b : Bool) → (get_dp_resource_name x b == get_dp_resource_name y (not b)) ≡ false
other_kind_eq x y true = ground (arith, get_dp_resource_name_inj x y true false, false≢true)
other_kind_eq x y false = ground (arith, get_dp_resource_name_inj x y false true, false≢true)

pub contains-resource_names :
    (xs : List Text) (x : Text) (b : Bool)
    → contains (resource_names xs) (get_dp_resource_name x b) ≡ contains xs x
contains-resource_names [] x b = refl
contains-resource_names (y ∷ xs) x true =
    rw (same_kind_eq x y true, other_kind_eq x y true, contains-resource_names xs x true)
contains-resource_names (y ∷ xs) x false =
    rw (same_kind_eq x y false, other_kind_eq x y false, contains-resource_names xs x false)

-- The resources, and so the attachments, have different names exactly if the spokes do.
resource_names-Distinct : (xs : List Text) → Distinct (resource_names xs) ↔ Distinct xs
resource_names-Distinct [] = (λ d. tt, λ d. tt)
resource_names-Distinct (x ∷ xs) = (
  λ (fresh, (fresh', d)).
      (sym (contains-resource_names xs x false) ∙ fresh', (resource_names-Distinct xs).0 d),
  λ (fresh, d). (
    rw (other_kind_eq x x true) (contains-resource_names xs x true ∙ fresh),
    (contains-resource_names xs x false ∙ fresh, (resource_names-Distinct xs).1 d),
  ),
)

length-nads_of : (xs : List Text) (ns : Text) → length (nads_of xs ns) ≡ 2 * length xs
unfolding nads_of gen_nad
length-nads_of [] ns = omega arith
length-nads_of (x ∷ xs) ns = omega (arith, length-nads_of xs ns)

-- `GetNADs` gives two attachments for each spoke, named by its two resources in order; their names
-- are all different exactly if the spokes are.
pub get_nads-names :
    (spec : LanSpec) (ns : Text)
    → (length (get_nads spec ns) ≡ 2 * length (spokes spec))
      × (map nad_name (get_nads spec ns) ≡ resource_names (spokes spec))
      × (Distinct (map nad_name (get_nads spec ns)) ↔ Distinct (spokes spec))
unfolding get_nads
get_nads-names spec ns = (
  length-nads_of (spokes spec) ns,
  map-nads_of (spokes spec) ns,
  rw (map-nads_of (spokes spec) ns) (resource_names-Distinct (spokes spec)),
)

-- The macvtap attachment of a spoke has the macvtap configuration; the veth attachment has the veth
-- configuration with the spoke's own name, if the name does not hold the veth prefix.
pub gen_nad-config :
    (spoke ns : Text)
    → ((gen_nad (get_dp_resource_name spoke false) ns).config
        ≡ macvtap_config (get_dp_resource_name spoke false))
      × (contains_text spoke veth_prefix ≡ false
          → (gen_nad (get_dp_resource_name spoke true) ns).config
            ≡ veth_config (get_dp_resource_name spoke true) spoke)
unfolding gen_nad
gen_nad-config spoke ns = (
  rw (is_macvtap-resource_name spoke false),
  λ h. rw (is_macvtap-resource_name spoke true, (spoke_name_iff spoke true).1 h),
)
