-- ===== src/DeepCopy/Types.antt =====
-- The structs of api/v1beta1/lan_types.go as memory holds them, and what a cell holds.
use k8slan.Base.{Option, none, List, []}
use k8slan.Base.Int.{ℤ}
use k8slan.Base.Text.{Text}
use k8slan.Base.Dict.{Dict}
use k8slan.DeepCopy.Store.{Ptr}

-- `LANSpec`, with its pointers, its map and its slice as references.
pub record SpecRef : Type 0 where
  pub ns : Option Ptr
  pub bridge_name : Option Ptr
  pub vxlan_name : Option Ptr
  pub vni : Option Ptr
  pub vxlan_grp : Option Ptr
  pub default_vx_dev : Text
  pub vx_dev_map : Option Ptr
  pub vx_port : Option Ptr
  pub spoke_list : Option Ptr

-- The structs of `metav1` that the resource holds, and their memory.
pub record Meta : Type 1 where
  pub ObjectMeta : Type 0
  pub ListMeta : Type 0
  pub Condition : Type 0
  pub Foreign : Type 0
  pub zero_object_meta : ObjectMeta
  pub zero_condition : Condition

-- `LANStatus`: the slice of its conditions.
pub record StatusRef : Type 0 where
  pub conditions : Option Ptr

pub record LanRef (m : Meta) : Type 0 where
  pub api_version : Text
  pub kind : Text
  pub object_meta : m.ObjectMeta
  pub spec : SpecRef
  pub status : StatusRef

pub record LanListRef (m : Meta) : Type 0 where
  pub api_version : Text
  pub kind : Text
  pub list_meta : m.ListMeta
  pub items : Option Ptr

pub data Cell (m : Meta) : Type 0 where
  string_cell : Text → Cell m
  int_cell : ℤ → Cell m
  map_cell : Dict Text Text → Cell m
  strings_cell : List Text → Cell m
  conditions_cell : List m.Condition → Cell m
  items_cell : List (LanRef m) → Cell m
  foreign_cell : m.Foreign → Cell m

abbrev pub zero_spec : SpecRef
zero_spec = record {
  ns = none;
  bridge_name = none;
  vxlan_name = none;
  vni = none;
  vxlan_grp = none;
  default_vx_dev = [];
  vx_dev_map = none;
  vx_port = none;
  spoke_list = none;
}

abbrev pub zero_lan : (m : Meta) → LanRef m
zero_lan m = record {
  api_version = [];
  kind = [];
  object_meta = m.zero_object_meta;
  spec = zero_spec;
  status = record { conditions = none };
}
