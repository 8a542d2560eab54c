-- ===== src/Lan/Names.antt =====
-- The names of device-plugin resources and of network attachments (api/v1beta1/lan_types.go).
pub mod Laws
use k8slan.Base.{Bool, true, false, List, [], ◌++◌, if◌then◌else◌}
use k8slan.Base.Text.{Text, bytes, has_prefix, replace_all}
use k8slan.Lan.{macvtap_prefix, veth_prefix}

unfoldable pub is_macvtap_resource : Text → Bool
unfolding has_prefix
is_macvtap_resource res_name = has_prefix res_name macvtap_prefix

unfoldable pub get_dp_resource_name : Text → Bool → Text
get_dp_resource_name name is_dummy_mac =
    if is_dummy_mac then veth_prefix ++ name else macvtap_prefix ++ name

unfoldable pub get_nad_name : Text → Bool → Text
unfolding get_dp_resource_name
get_nad_name name is_veth = get_dp_resource_name name is_veth

unfoldable pub get_spoke_name_from_resource_name : Text → Text
unfolding has_prefix replace_all
get_spoke_name_from_resource_name res_name =
    if has_prefix res_name veth_prefix
    then replace_all res_name veth_prefix []
    else if has_prefix res_name macvtap_prefix
    then replace_all res_name macvtap_prefix []
    else bytes "badname"
