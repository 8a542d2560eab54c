-- ===== src/Lan/Names/Laws.antt =====
-- Resource names are told apart, and which spoke a resource name leads back to.
use mathlib.Core.Bool.{false≢true}
use mathlib.Core.List.{append_cancel_left}
use k8slan.Base.{◌≡◌, refl, sym, ap, ◌↔◌, Bool, true, false, not, [], arith, if◌then◌else◌}
use k8slan.Base.Text.{Text, contains_text, replace_all}
use k8slan.Base.Text.Laws.{replace_all_iff}
use k8slan.Lan.{macvtap_prefix, veth_prefix}
use k8slan.Lan.Names.{is_macvtap_resource, get_dp_resource_name, get_spoke_name_from_resource_name}

abbrev pub prefix_of : Bool → Text
prefix_of is_veth = if is_veth then veth_prefix else macvtap_prefix

spoke_name-resource_name :
    (name : Text) (is_veth : Bool)
    → get_spoke_name_from_resource_name (get_dp_resource_name name is_veth)
      ≡ replace_all name (prefix_of is_veth) []
unfolding get_spoke_name_from_resource_name get_dp_resource_name
spoke_name-resource_name name true = refl
spoke_name-resource_name name false = refl

-- A resource name leads back to its spoke exactly when the spoke's name does not hold the prefix of
-- that kind of resource.
pub spoke_name_iff :
    (name : Text) (is_veth : Bool)
    → (get_spoke_name_from_resource_name (get_dp_resource_name name is_veth) ≡ name)
      ↔ (contains_text name (prefix_of is_veth) ≡ false)
spoke_name_iff name true =
    rw (spoke_name-resource_name name true) (replace_all_iff name veth_prefix (omega arith))
spoke_name_iff name false =
    rw (spoke_name-resource_name name false) (replace_all_iff name macvtap_prefix (omega arith))

-- The prefix of a resource name tells its kind.
pub is_macvtap-resource_name :
    (name : Text) (is_veth : Bool)
    → is_macvtap_resource (get_dp_resource_name name is_veth) ≡ not is_veth
unfolding is_macvtap_resource get_dp_resource_name
is_macvtap-resource_name name true = refl
is_macvtap-resource_name name false = refl

same_kind :
    (a b : Text) (x y : Bool) → get_dp_resource_name a x ≡ get_dp_resource_name b y → not x ≡ not y
same_kind a b x y h =
    cc (is_macvtap-resource_name a x, is_macvtap-resource_name b y, ap is_macvtap_resource h)

-- Two resources of one name are of one spoke and of one kind.
pub get_dp_resource_name_inj :
    (a b : Text) (x y : Bool)
    → get_dp_resource_name a x ≡ get_dp_resource_name b y
    → (a ≡ b) × (x ≡ y)
unfolding get_dp_resource_name
get_dp_resource_name_inj a b true true h = (append_cancel_left veth_prefix a b h, refl)
get_dp_resource_name_inj a b false false h = (append_cancel_left macvtap_prefix a b h, refl)
get_dp_resource_name_inj a b true false h = absurd (false≢true (same_kind a b true false h))
get_dp_resource_name_inj a b false true h = absurd (false≢true (sym (same_kind a b false true h)))
