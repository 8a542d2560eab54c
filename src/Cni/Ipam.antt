-- ===== src/Cni/Ipam.antt =====
-- What the CNI plugin takes from the CNI libraries: the types of its input and of its result, the
-- parsing of its configuration, the IPAM plugin that it runs, and sysctl. No `Io` field panics.
use k8slan.Base.{Bool, Option, List, Result}
use k8slan.Base.Text.{Text}
use k8slan.Base.Io.{Io, Error}
use k8slan.Interfaces.System.{System}

-- `types.DNS`, where a nil slice is `none`
pub record Dns : Type 0 where
  pub nameservers : Option (List Text)
  pub domain : Text
  pub search : Option (List Text)
  pub options : Option (List Text)

-- `PluginConf`, with what is read of the embedded `types.NetConf`
pub record PluginConf : Type 0 where
  pub cni_version : Text
  pub ipam_type : Text
  pub dns : Dns
  pub veth_name : Text
  pub enable_dad : Bool

-- What is read of `skel.CmdArgs`
pub record CmdArgs : Type 0 where
  pub netns : Text
  pub if_name : Text
  pub stdin_data : Text

-- `current.Interface`
pub record Interface : Type 0 where
  pub name : Text
  pub mac : Text
  pub sandbox : Text

-- `current.Result`, over the types of an address and of a route
pub record CniResult (IpConfig Route : Type 0) : Type 0 where
  pub cni_version : Text
  pub interfaces : List Interface
  pub ips : List IpConfig
  pub routes : List Route
  pub dns : Dns

pub record Ipam (sys : System) : Type 1 where
  pub IpConfig : Type 0
  pub Route : Type 0
  -- `types.Result`
  pub Raw : Type 0
  -- `current.ImplementedSpecVersion`
  pub implemented_spec_version : Text
  -- `json.Unmarshal` into a `PluginConf`, and `version.ParsePrevResult`; `none` is an error.
  pub unmarshal : Text → Option PluginConf
  pub parse_prev_result : PluginConf → Option PluginConf
  pub exec_add : Text → Text → Io sys.State Raw
  pub exec_del : Text → Text → Io sys.State (Unit {0})
  pub exec_status : Text → Text → Io sys.State (Unit {0})
  -- `current.NewResultFromResult`, which does not panic
  pub new_result_from_result : Raw → Result Error (CniResult IpConfig Route)
  -- `ipam.ConfigureIface`
  pub configure_iface : Text → CniResult IpConfig Route → Io sys.State (Unit {0})
  pub sysctl : Text → Text → Io sys.State (Unit {0})
  -- `types.PrintResult`
  pub print_result : CniResult IpConfig Route → Text → Io sys.State (Unit {0})
