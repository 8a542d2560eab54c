-- ===== src/DevicePlugin/Lister.antt =====
-- `macvtapLister` (pkg/deviceplugin/lister.go): the resources of the LANs known to the node.
pub mod Known
pub mod Laws
pub mod Race
use k8slan.Base.{ℕ, Bool, true, false, Option, none, some, List, [], ◌∷◌, ◌++◌, list_eq, nat_eq}
use k8slan.Base.Text.{Text}
use k8slan.Base.Dict
use k8slan.Base.Dict.{Dict, keys}
use k8slan.Lan.{LanSpec, spokes, resource_namespace}
use k8slan.Lan.Names.{get_dp_resource_name}

-- `DeviceList`
abbrev pub DeviceList : Type 0
DeviceList = Dict Text LanSpec

-- The keys, in the order of the model's list; Go's map gives them in any order.
unfoldable pub get_current_plugins : DeviceList → List Text
get_current_plugins devices = keys devices

-- `NewMacvtapLister`
abbrev pub new_macvtap_lister : DeviceList
new_macvtap_lister = []

abbrev pub get_resource_namespace : Text
get_resource_namespace = resource_namespace

-- What `report` sends to the plugin manager: a list that is not empty, or nothing.
unfoldable pub report_list : List Text → List (List Text)
report_list [] = []
report_list (name ∷ names) = (name ∷ names) ∷ []

unfoldable pub report : DeviceList → List (List Text)
unfolding report_list get_current_plugins
report devices = report_list (get_current_plugins devices)

-- The loop over the spokes of a LAN that came by `AddChan`
add_spokes : LanSpec → List Text → DeviceList → DeviceList
add_spokes lan [] devices = devices
add_spokes lan (spoke ∷ rest) devices = add_spokes lan rest (
    Dict.insert (get_dp_resource_name spoke false) lan
      (Dict.insert (get_dp_resource_name spoke true) lan devices))

-- The loop over the spokes of a LAN that came by `RemovChan`
remove_spokes : List Text → DeviceList → DeviceList
remove_spokes [] devices = devices
remove_spokes (spoke ∷ rest) devices = remove_spokes rest (
    Dict.erase (get_dp_resource_name spoke false)
      (Dict.erase (get_dp_resource_name spoke true) devices))

unfoldable pub add_lan : LanSpec → DeviceList → DeviceList
unfolding add_spokes
add_lan lan devices = add_spokes lan (spokes lan) devices

unfoldable pub remove_lan : LanSpec → DeviceList → DeviceList
unfolding remove_spokes
remove_lan lan devices = remove_spokes (spokes lan) devices

-- One round of `Discover`: what came, the new list and what is reported.
pub data Message : Type 0 where
  add : LanSpec → Message
  remove : LanSpec → Message

unfoldable pub handle : Message → DeviceList → DeviceList
handle (add lan) devices = add_lan lan devices
handle (remove lan) devices = remove_lan lan devices

-- The rounds of `Discover` over the messages in the order in which it takes them, with all that
-- was reported.
unfoldable pub discover : List Message → DeviceList → DeviceList × List (List Text)
discover [] devices = (devices, [])
discover (m ∷ ms) devices =
    let devices' = handle m devices in
    let (last, reports) = discover ms devices' in (last, report devices' ++ reports)

-- The LAN that `NewPlugin` makes a plugin for.
unfoldable pub plugin_lan : Text → DeviceList → Option LanSpec
plugin_lan name devices = Dict.lookup name devices
