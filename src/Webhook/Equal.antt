-- ===== src/Webhook/Equal.antt =====
-- What two deeply equal specs have in common.
use k8slan.Base.{◌≡◌, refl, true, Option, none, some, arith, ==_refl, nat_eq, list_eq, option_eq}
use k8slan.Base.Int.{int_eq}
use k8slan.Base.Text.{Text}
use k8slan.Base.Dict.{Dict, lookup, DistinctKeys, dict_equal-lookup, dict_equal_refl}
use k8slan.Lan.{LanSpec, elements}
use k8slan.Webhook.{map_equal, deep_equal}

-- The same settings; the device of every host is the same, in whatever order the map was written.
pub record SameSpec (s t : LanSpec) : Type 0 where
  pub ns : s.ns ≡ t.ns
  pub bridge_name : s.bridge_name ≡ t.bridge_name
  pub vxlan_name : s.vxlan_name ≡ t.vxlan_name
  pub vni : s.vni ≡ t.vni
  pub vxlan_grp : s.vxlan_grp ≡ t.vxlan_grp
  pub default_vx_dev : s.default_vx_dev ≡ t.default_vx_dev
  pub vx_dev :
      (host : Text) → lookup host (elements s.vx_dev_map) ≡ lookup host (elements t.vx_dev_map)
  pub vx_port : s.vx_port ≡ t.vx_port
  pub spoke_list : s.spoke_list ≡ t.spoke_list

map_equal-lookup :
    (c d : Option (Dict Text Text)) (host : Text)
    → DistinctKeys (elements c)
    → map_equal c d ≡ true
    → lookup host (elements c) ≡ lookup host (elements d)
unfolding map_equal
map_equal-lookup none none host u h = refl
map_equal-lookup none (some d) host u h = cc
map_equal-lookup (some c) none host u h = cc
map_equal-lookup (some c) (some d) host u h = dict_equal-lookup c d host u h

map_equal_refl : (c : Option (Dict Text Text)) → DistinctKeys (elements c) → map_equal c c ≡ true
unfolding map_equal
map_equal_refl none u = refl
map_equal_refl (some c) u = dict_equal_refl c u

-- Deep equality means the same settings.
pub deep_equal-SameSpec :
    (s t : LanSpec) → DistinctKeys (elements s.vx_dev_map) → deep_equal s t ≡ true → SameSpec s t
unfolding deep_equal
deep_equal-SameSpec s t u h = record {
  ns = ground arith;
  bridge_name = ground arith;
  vxlan_name = ground arith;
  vni = ground arith;
  vxlan_grp = ground arith;
  default_vx_dev = ground arith;
  vx_dev = λ host. map_equal-lookup s.vx_dev_map t.vx_dev_map host u (ground arith);
  vx_port = ground arith;
  spoke_list = ground arith;
}

pub deep_equal_refl : (s : LanSpec) → DistinctKeys (elements s.vx_dev_map) → deep_equal s s ≡ true
unfolding deep_equal
deep_equal_refl s u = rw (
  ==_refl s.ns,
  ==_refl s.bridge_name,
  ==_refl s.vxlan_name,
  ==_refl s.vni,
  ==_refl s.vxlan_grp,
  ==_refl s.default_vx_dev,
  map_equal_refl s.vx_dev_map u,
  ==_refl s.vx_port,
  ==_refl s.spoke_list,
)
