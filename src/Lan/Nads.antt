-- ===== src/Lan/Nads.antt =====
-- `LANSpec.GetNADs` (api/v1beta1/lan_types.go): the network attachments of a LAN. Of a
-- `NetworkAttachmentDefinition` the model keeps what the program sets or reads.
pub mod Laws
pub mod Wanted
use k8slan.Base.{Bool, true, false, List, [], ◌∷◌, ◌++◌, not, Option, none, if◌then◌else◌}
use k8slan.Base.Text.{Text, bytes}
use k8slan.Base.Dict.{Dict}
use k8slan.Lan.{LanSpec, spokes, resource_namespace}
use k8slan.Lan.Names.{is_macvtap_resource, get_dp_resource_name, get_spoke_name_from_resource_name}

-- A controller's owner reference, as `metav1.GetControllerOf` gives it.
pub record Owner : Type 0 where
  pub api_version : Text
  pub kind : Text
  pub name : Text

pub record Nad : Type 0 where
  pub api_version : Text
  pub kind : Text
  pub name : Text
  pub namespace : Text
  pub annotations : Dict Text Text
  pub controller : Option Owner
  pub config : Text

-- `fmt.Sprintf(macvtapTemplate, name)`
pub macvtap_config : Text → Text
macvtap_config name =
    bytes "{\n      \"cniVersion\": \"0.3.1\",\n      \"name\": \""
    ++ (name ++ bytes "\",\n      \"type\": \"macvtap\"\n    }")

-- `fmt.Sprintf(vethTempalte, name, veth)`
pub veth_config : Text → Text → Text
veth_config name veth =
    bytes "{\n      \"cniVersion\": \"0.3.1\",\n      \"name\": \""
    ++ (name
        ++ (bytes "\",\n      \"type\": \"k8slanveth\",\n\t  \"veth\": \""
            ++ (veth ++ bytes "\"\n    }")))

unfoldable pub gen_nad : Text → Text → Nad
gen_nad name ns = record {
  api_version = bytes "k8s.cni.cncf.io/v1";
  kind = bytes "NetworkAttachmentDefinition";
  name = name;
  namespace = ns;
  annotations =
      (bytes "k8s.v1.cni.cncf.io/resourceName", resource_namespace ++ (bytes "/" ++ name)) ∷ [];
  controller = none;
  config =
      if not (is_macvtap_resource name)
      then veth_config name (get_spoke_name_from_resource_name name)
      else macvtap_config name;
}

-- The loop over `SpokeList`
nads_of : List Text → Text → List Nad
nads_of [] ns = []
nads_of (spoke ∷ rest) ns =
    gen_nad (get_dp_resource_name spoke true) ns
    ∷ gen_nad (get_dp_resource_name spoke false) ns
    ∷ nads_of rest ns

unfoldable pub get_nads : LanSpec → Text → List Nad
unfolding nads_of
get_nads spec ns = nads_of (spokes spec) ns
