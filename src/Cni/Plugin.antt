-- ===== src/Cni/Plugin.antt =====
-- The commands of the plugin (cni/k8slanveth/main.go). `main` only registers them.
pub mod Release
pub mod Balance
pub mod Report
use k8slan.Base.{
  Bool, true, false, ◌||◌, not, Option, none, some, List, [], ◌∷◌, ◌++◌, Result, ok, err, panic,
  ◌==◌, list_eq, nat_eq, if◌then◌else◌,
}
use k8slan.Base.Text.{Text, bytes}
use k8slan.Base.Io.{Io, Error, message, ◌>>=◌, ◌>>◌, pure, fail, wrapping, printing, ignoring}
use k8slan.Interfaces.System.{System}
use k8slan.Interfaces.Netlink.{Link, Netlink}
use k8slan.Cni.Ipam.{Dns, PluginConf, CmdArgs, Interface, CniResult, Ipam}

-- Whether a slice is not nil
abbrev is_set : Option (List Text) → Bool
is_set none = false
is_set (some xs) = true

unfoldable pub dns_conf_set : Dns → Bool
unfolding list_eq nat_eq
dns_conf_set dns =
    is_set dns.nameservers || is_set dns.search || is_set dns.options || not (dns.domain == [])

abbrev no_dns : Dns
no_dns = record { nameservers = none; domain = []; search = none; options = none }

module _ (sys : System) (net : Netlink sys) (ipam : Ipam sys) where
  abbrev pub Printed : Type 0
  Printed = CniResult ipam.IpConfig ipam.Route

  pub or_message {ℓ} : {A : Type ℓ} → Text → Option A → Io sys.State A
  or_message text none s = (err (message text), s)
  or_message text (some a) s = (ok a, s)

  unfoldable pub parse_config : Text → Io sys.State PluginConf
  unfolding or_message
  parse_config stdin = do
    conf ← or_message (bytes "failed to parse network configuration") (ipam.unmarshal stdin)
    or_message (bytes "could not parse prevResult") (ipam.parse_prev_result conf)

  -- The link is renamed in the pod's namespace, and read again.
  pub rename : Link → Text → Io sys.State Link
  rename vlink if_name = do net.link_set_name vlink if_name; net.link_by_name if_name

  -- The veth link in the pod's namespace, under the name asked for
  unfoldable pub move_veth : PluginConf → CmdArgs → sys.NetNs → Io sys.State Link
  unfolding rename
  move_veth conf args pod_ns = do
    vlink ← wrapping (bytes "failed to locate veth interface") (net.link_by_name conf.veth_name)
    wrapping (bytes "failed to move veth interface into pod NS")
        (net.link_set_ns_fd vlink (net.ns_fd pod_ns))
    wrapping (bytes "failed to rename veth interface")
        (net.do_ns Link pod_ns λ host. rename vlink args.if_name)

  unfoldable pub link_result : sys.NetNs → Link → Printed
  link_result pod_ns vlink = record {
    cni_version = ipam.implemented_spec_version;
    interfaces =
        record { name = vlink.name; mac = vlink.hardware_addr; sandbox = sys.ns_path pod_ns } ∷ [];
    ips = [];
    routes = [];
    dns = no_dns;
  }

  pub set_sysctl : Text → Text → Text → Text → Io sys.State (Unit {0})
  set_sysctl before if_name after value =
      ignoring (ipam.sysctl (before ++ (if_name ++ after)) value)

  -- Duplicate address detection, on or off
  pub set_dad : Bool → Text → Io sys.State (Unit {0})
  unfolding set_sysctl
  set_dad true if_name = do
    set_sysctl (bytes "/net/ipv6/conf/") if_name (bytes "/enhanced_dad") (bytes "1")
    set_sysctl (bytes "net/ipv6/conf/") if_name (bytes "/accept_dad") (bytes "1")
  set_dad false if_name =
      set_sysctl (bytes "net/ipv6/conf/") if_name (bytes "/accept_dad") (bytes "0")

  -- The closure that configures the link in the pod's namespace
  unfoldable pub configure : PluginConf → CmdArgs → Printed → Io sys.State (Unit {0})
  unfolding set_dad set_sysctl
  configure conf args result = do
    set_dad conf.enable_dad args.if_name
    set_sysctl (bytes "net/ipv4/conf/") args.if_name (bytes "/arp_notify") (bytes "1")
    ipam.configure_iface args.if_name result

  pub fail_if_empty : List ipam.IpConfig → Io sys.State (Unit {0})
  fail_if_empty [] = fail (message (bytes "IPAM plugin returned missing IP config"))
  fail_if_empty (ip ∷ ips) = pure tt

  -- What follows once the IPAM plugin has given its result
  unfoldable pub apply_ipam :
      PluginConf → CmdArgs → sys.NetNs → Printed → ipam.Raw → Io sys.State Printed
  unfolding fail_if_empty configure
  apply_ipam conf args pod_ns result raw = do
    given ← (λ s. (ipam.new_result_from_result raw, s))
    let result' : Printed = record result {
      ips = given.ips;
      routes = given.routes;
      dns = given.dns;
    }
    fail_if_empty result'.ips
    net.do_ns (Unit {0}) pod_ns λ host. configure conf args result'
    pure result'

  -- The DNS settings of the configuration come before those of the IPAM plugin.
  unfoldable pub with_dns : PluginConf → Printed → Printed
  unfolding dns_conf_set
  with_dns conf result = if dns_conf_set conf.dns then record result { dns = conf.dns } else result

  unfoldable pub finish : PluginConf → Printed → Io sys.State (Unit {0})
  unfolding with_dns
  finish conf result = ipam.print_result (with_dns conf result) conf.cni_version

  -- The deferred release of the address: it runs unless `success` was set, which comes before the
  -- result is printed.
  unfoldable pub or_release :
      PluginConf → CmdArgs → Result Error Printed × sys.State → Result Error (Unit {0}) × sys.State
  unfolding finish
  or_release conf args (ok result, s) = finish conf result s
  or_release conf args (err e, s) = (err e, (ipam.exec_del conf.ipam_type args.stdin_data s).1)
  or_release conf args (panic, s) = (panic, (ipam.exec_del conf.ipam_type args.stdin_data s).1)

  unfoldable pub with_ipam : PluginConf → CmdArgs → sys.NetNs → Printed → Io sys.State (Unit {0})
  unfolding apply_ipam or_release
  with_ipam conf args pod_ns result = do
    raw ← ipam.exec_add conf.ipam_type args.stdin_data
    (λ s. or_release conf args (apply_ipam conf args pod_ns result raw s))

  unfoldable pub cmd_add : CmdArgs → Io sys.State (Unit {0})
  unfolding parse_config move_veth link_result with_ipam finish list_eq nat_eq
  cmd_add args = do
    conf ← parse_config args.stdin_data
    pod_ns ← printing (bytes "failed to open pod netns") (sys.get_ns args.netns)
    vlink ← move_veth conf args pod_ns
    (if conf.ipam_type == []
        then finish conf (link_result pod_ns vlink)
        else with_ipam conf args pod_ns (link_result pod_ns vlink))

  unfoldable pub cmd_del : CmdArgs → Io sys.State (Unit {0})
  unfolding parse_config
  cmd_del args = do conf ← parse_config args.stdin_data; pure tt

  unfoldable pub cmd_check : CmdArgs → Io sys.State (Unit {0})
  cmd_check args = fail (message (bytes "not implemented"))

  unfoldable pub cmd_status : CmdArgs → Io sys.State (Unit {0})
  unfolding parse_config
  cmd_status args = do
    conf ← parse_config args.stdin_data
    ipam.exec_status conf.ipam_type args.stdin_data
