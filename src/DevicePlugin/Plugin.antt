-- ===== src/DevicePlugin/Plugin.antt =====
-- `macvtapDevicePlugin` (pkg/deviceplugin/plugin.go), over what its calls of `interfaces.Ensure`
-- do. `ListAndWatch` sends the same devices every second, for ever.
pub mod Digits
pub mod Ends
pub mod Laws
use k8slan.Base.{
  ℕ, zero, suc, ◌+◌, ◌/◌, ◌%◌, Bool, true, false, Option, none, some, List, [], ◌∷◌, ◌++◌, Result,
  ok, err, panic, ltb, if◌then◌else◌,
}
use k8slan.Base.Text.{Text, bytes, has_prefix}
use k8slan.Base.Io.{Io, Error, ◌>>=◌, pure}
use k8slan.Lan.{LanSpec, veth_prefix}
use k8slan.Lan.Names.{get_spoke_name_from_resource_name}
use k8slan.DevicePlugin.Lister.{DeviceList, plugin_lan}

abbrev pub tap_path : Text
tap_path = bytes "/dev/tap"

abbrev pub macvtap_suffix : Text
macvtap_suffix = bytes "M"

abbrev pub veth_suffix : Text
veth_suffix = bytes "V"

abbrev pub default_mode : Text
default_mode = bytes "passthru"

pub record MacvtapDevicePlugin : Type 0 where
  pub name : Text
  pub host_name : Text
  pub lan : LanSpec
  pub mode : Text
  pub dummy_macvtap : Bool

-- The host's name is an argument: a failing `os.Hostname` is a panic at the call.
unfoldable pub new_macvtap_device_plugin : Text → Text → LanSpec → MacvtapDevicePlugin
new_macvtap_device_plugin hname name lan = record {
  name = get_spoke_name_from_resource_name name;
  host_name = hname;
  lan = lan;
  mode = default_mode;
  dummy_macvtap = has_prefix name veth_prefix;
}

-- `NewPlugin` (lister.go): nil for a name that the lister does not know.
unfoldable pub new_plugin : Text → DeviceList → Text → Option MacvtapDevicePlugin
new_plugin hname devices name = elim (plugin_lan name devices) [
  | none ↦ none
  | some lan ↦ some (new_macvtap_device_plugin hname name lan)
]

-- The decimal digits of a number, by enough fuel: a digit goes with each round.
print_from : ℕ → ℕ → Text
print_from zero n = []
print_from (suc fuel) n =
    let rest = print_from fuel (n / 10) in
    if ltb n 10 then (b'0' + n) ∷ [] else rest ++ ((b'0' + n % 10) ∷ [])

-- What `fmt.Sprint` makes of a number that is not negative
unfoldable pub print_nat : ℕ → Text
unfolding print_from
print_nat n = print_from (suc n) n

-- The loop of `generateMacvtapDevices` from `i`, with the rounds that are left. All are healthy.
devices_from : Text → ℕ → ℕ → List Text
unfolding print_nat
devices_from stem i zero = []
devices_from stem i (suc left) = (stem ++ print_nat i) ∷ devices_from stem (i + 1) left

unfoldable pub generate_macvtap_devices : MacvtapDevicePlugin → List Text
unfolding devices_from
generate_macvtap_devices mdp =
    devices_from (mdp.name ++ (if mdp.dummy_macvtap then veth_suffix else macvtap_suffix)) 0 1

-- `pluginapi.DeviceSpec`
pub record DeviceSpec : Type 0 where
  pub host_path : Text
  pub container_path : Text
  pub permissions : Text

-- The device of one allocation, by the index of its macvtap interface.
unfoldable pub device_of : ℕ → DeviceSpec
unfolding print_nat
device_of index =
    let dev_path = tap_path ++ print_nat index in
    record { host_path = dev_path; container_path = dev_path; permissions = bytes "rw" }

-- `interfaces.Ensure`: the names of the macvtap and of the spoke, the LAN, the host, the mode,
-- and whether the macvtap is a dummy; it gives the index of the macvtap interface.
abbrev pub Ensure : Type 0 → Type 0
Ensure S = Text → Text → LanSpec → Text → Text → Bool → Io S ℕ

module _ {S : Type 0} (ensure : Ensure S) (mdp : MacvtapDevicePlugin) where
  -- The inner loop of `Allocate`, over the devices of one container
  allocate_devices : List Text → Io S (List DeviceSpec)
  unfolding device_of
  allocate_devices [] = pure []
  allocate_devices (mac_vtap_name ∷ rest) = do
    index ← ensure mac_vtap_name mdp.name mdp.lan mdp.host_name mdp.mode mdp.dummy_macvtap
    devices ← allocate_devices rest
    pure (device_of index ∷ devices)

  -- `Allocate`, over the device names of each container
  unfoldable pub allocate : List (List Text) → Io S (List (List DeviceSpec))
  unfolding allocate_devices
  allocate [] = pure []
  allocate (ids ∷ rest) = do
    devices ← allocate_devices ids
    responses ← allocate rest
    pure (devices ∷ responses)
