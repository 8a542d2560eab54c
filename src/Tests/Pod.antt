-- ===== src/Tests/Pod.antt =====
-- The CNI plugin over the small kernel, with an IPAM plugin that keeps what it has lent.
use k8slan.Base.{
  ◌-◌, ◌≡◌, ◌≢◌, refl, sym, ap, ◌∙◌, true, none, some, List, [], ◌∷◌, length, ok, arith, list_eq,
  nat_eq,
}
use k8slan.Base.Text.{Text, bytes}
use k8slan.Interfaces.Netlink.{Link}
use k8slan.Cni.Ipam.{PluginConf, CmdArgs, Ipam}
use k8slan.Cni.Plugin.{parse_config, cmd_add, cmd_del}
use k8slan.Cni.Plugin.Release.{IsLedger}
use k8slan.Cni.Plugin.Balance.{Paid, cmd_add-Paid, cmd_del-leaks}
use k8slan.Cni.Plugin.Report.{IsConfig, IsMoved, Reported, cmd_add-Reported}
use k8slan.Tests.Node.{node}
use k8slan.Tests.Kernel.{kernel-RunsInside, find_link, kernel}

abbrev conf : PluginConf
conf = record {
  cni_version = bytes "1.0.0";
  ipam_type = bytes "host-local";
  dns = record { nameservers = none; domain = []; search = none; options = none };
  veth_name = bytes "srl";
  enable_dad = true;
}

abbrev args : CmdArgs
args = record {
  netns = bytes "/var/run/netns/pod";
  if_name = bytes "net1";
  stdin_data = bytes "{}";
}

abbrev rest : List Text → List Text
rest [] = []
rest (x ∷ xs) = xs

abbrev local : Ipam node
local = record {
  IpConfig = Text;
  Route = Text;
  Raw = Unit;
  implemented_spec_version = bytes "1.0.0";
  unmarshal = λ input. some conf;
  parse_prev_result = λ c. some c;
  exec_add = λ kind input s. (ok tt, input ∷ s);
  exec_del = λ kind input s. (ok tt, rest s);
  exec_status = λ kind input s. (ok tt, s);
  new_result_from_result = λ raw. ok (record {
    cni_version = bytes "1.0.0";
    interfaces = [];
    ips = bytes "10.0.0.5/24" ∷ [];
    routes = [];
    dns = conf.dns;
  });
  configure_iface = λ name r s. (ok tt, s);
  sysctl = λ key value s. (ok tt, s);
  print_result = λ r version s. (ok tt, s);
}

length-rest : (s : List Text) → length (rest s) ≡ length s - 1
length-rest [] = refl
length-rest (x ∷ xs) = omega arith

find_link-keeps : (name : Text) (s : List Text) → length (find_link name s).1 ≡ length s
unfolding find_link
find_link-keeps name s = ground arith

local-IsLedger : IsLedger node kernel local length args.stdin_data
local-IsLedger = record {
  added =
      λ kind s u {raw} h. let e : args.stdin_data ∷ s ≡ u = cc in ap length (sym e) ∙ omega arith;
  not_added = λ kind s u {e} h. cc;
  released = λ kind s h. length-rest s;
  opens = λ path s. refl;
  finds = find_link-keeps;
  moves = λ l fd s. refl;
  renames = λ l name s. refl;
  runs_in = λ A ns f keeps s. keeps (bytes "host") s;
  sets = λ key value s. refl;
  configures = λ name r s. refl;
  prints = λ r version s. refl;
}

parsed : parse_config node kernel local args.stdin_data [] ≡ (ok conf, [])
unfolding parse_config
parsed = refl

runs : cmd_add node kernel local args [] ≡ (ok tt, args.stdin_data ∷ [])
unfolding cmd_add find_link list_eq nat_eq
runs = refl

cmd_add-Paid_example :
    Paid node kernel local length args local-IsLedger conf 0 (cmd_add node kernel local args [])
cmd_add-Paid_example =
    cmd_add-Paid node kernel local length args local-IsLedger (λ kind s. refl) [] parsed

with_address : conf.ipam_type ≢ []
with_address h = cc

cmd_del-leaks_example : length (cmd_del node kernel local args (args.stdin_data ∷ [])).1 ≡ 1
cmd_del-leaks_example =
    cmd_del-leaks node kernel local length args local-IsLedger (λ kind s. refl) []
      (args.stdin_data ∷ []) parsed with_address runs

cmd_add-Reported_example :
    (c : PluginConf) × (ns : Text) × (l : Link) × (v w : List Text) × IsConfig node kernel local
      args c
    × (node.get_ns args.netns [] ≡ (ok ns, v))
    × IsMoved node kernel local args kernel-RunsInside c ns l v w
    × Reported node kernel local args c ns l (args.stdin_data ∷ [])
cmd_add-Reported_example =
    cmd_add-Reported node kernel local args kernel-RunsInside [] (args.stdin_data ∷ []) runs
