-- ===== src/Tests/Data.antt =====
-- The README's LAN after the defaults, another LAN that shares a spoke with it, and their objects.
use k8slan.Base.{false, none, some, [], ◌∷◌}
use k8slan.Base.Int.{pos, negsuc}
use k8slan.Base.Text.{Text, bytes}
use k8slan.Lan.{LanSpec, Lan, default_vx_port, default_vx_grp}
use k8slan.Lan.Nads.{Nad}
use k8slan.Daemon.{my_finalizer_name}
use k8slan.DevicePlugin.Plugin.{MacvtapDevicePlugin, default_mode}

abbrev pub srl : Text
srl = bytes "srl"

abbrev pub worker : Text
worker = bytes "worker1"

abbrev pub lan_example : LanSpec
lan_example = record {
  ns = some (bytes "knlvrf");
  bridge_name = some (bytes "br2");
  vxlan_name = some (bytes "vx2");
  vni = some (pos 222);
  vxlan_grp = some default_vx_grp;
  default_vx_dev = bytes "eth0";
  vx_dev_map = some ((worker, bytes "eth1") ∷ (bytes "worker2", bytes "eth2") ∷ []);
  vx_port = some default_vx_port;
  spoke_list = some (srl ∷ bytes "vm" ∷ []);
}

abbrev pub shared : LanSpec
shared = record lan_example { ns = some (bytes "other"); spoke_list = some (srl ∷ []) }

abbrev pub bad_vni_spec : LanSpec
bad_vni_spec = record lan_example { vni = some (negsuc 0) }

abbrev pub nil_spec : LanSpec
nil_spec = record lan_example { vni = none }

abbrev pub lan_object : Lan
lan_object = record {
  api_version = bytes "lan.k8slan.io/v1beta1";
  kind = bytes "LAN";
  name = bytes "lan-example";
  namespace = bytes "default";
  finalizers = [];
  deletion_timestamp = none;
  spec = lan_example;
}

abbrev pub registered : Lan
registered = record lan_object { finalizers = my_finalizer_name worker ∷ [] }

abbrev pub dying : Lan
dying = record registered { deletion_timestamp = some 7 }

abbrev pub guarded : Lan
guarded = record dying { finalizers = my_finalizer_name worker ∷ bytes "example.com/hold" ∷ [] }

-- The same attachment name in another namespace
abbrev pub elsewhere : Nad
elsewhere = record {
  api_version = bytes "k8s.cni.cncf.io/v1";
  kind = bytes "NetworkAttachmentDefinition";
  name = bytes "k8slan-mac-srl";
  namespace = bytes "team";
  annotations = [];
  controller = none;
  config = [];
}

abbrev pub srl_plugin : MacvtapDevicePlugin
srl_plugin = record {
  name = srl;
  host_name = worker;
  lan = lan_example;
  mode = default_mode;
  dummy_macvtap = false;
}
