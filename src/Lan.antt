-- ===== src/Lan.antt =====
-- The LAN resource (api/v1beta1/lan_types.go): `LANSpec`, the parts of `LAN` that the program
-- reads or writes, and the constants of the package. A pointer field is an `Option`, a nil slice
-- or map is `none`. `LANStatus`, which no code fills in, stands in DeepCopy; the
-- JSON tags are left out.
pub mod Validation
pub mod Names
pub mod Nads
use k8slan.Base.{ℕ, ◌≡◌, Option, none, some, List, [], ◌∷◌, ◌++◌, if◌then◌else◌}
use k8slan.Base.Int.{ℤ, pos}
use k8slan.Base.Text.{Text, bytes}
use k8slan.Base.Dict.{Dict}

pub record LanSpec : Type 0 where
  pub ns : Option Text
  pub bridge_name : Option Text
  pub vxlan_name : Option Text
  pub vni : Option ℤ
  pub vxlan_grp : Option Text
  pub default_vx_dev : Text
  pub vx_dev_map : Option (Dict Text Text)
  pub vx_port : Option ℤ
  pub spoke_list : Option (List Text)

-- What `len` and `range` see of a slice or a map: nil is empty.
abbrev pub elements {ℓ} : {A : Type ℓ} → Option (List A) → List A
elements none = []
elements (some xs) = xs

abbrev pub spokes : LanSpec → List Text
spokes spec = elements spec.spoke_list

-- `LAN`. The deletion timestamp is `none` where `IsZero` holds of it.
pub record Lan : Type 0 where
  pub api_version : Text
  pub kind : Text
  pub name : Text
  pub namespace : Text
  pub finalizers : List Text
  pub deletion_timestamp : Option ℕ
  pub spec : LanSpec

abbrev pub default_vx_port : ℤ
default_vx_port = pos 4789

abbrev pub default_vx_grp : Text
default_vx_grp = bytes "FF02:0:0:0:0:0:0:14"

abbrev pub max_linux_if_name_len : ℕ
max_linux_if_name_len = 13

abbrev pub finalizer_prefix : Text
finalizer_prefix = bytes "finalizer.k8slan.io"

abbrev pub resource_namespace : Text
resource_namespace = bytes "macvtap.k8slan.io"

abbrev pub macvtap_prefix : Text
macvtap_prefix = bytes "k8slan-mac-"

abbrev pub veth_prefix : Text
veth_prefix = bytes "k8slan-veth-"
