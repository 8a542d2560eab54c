-- ===== src/Cni/Plugin/Release.antt =====
-- The addresses that the IPAM plugin has lent to a pod, counted over the commands of the plugin.
use k8slan.Base.{
  ℕ, ◌+◌, ◌-◌, ◌≡◌, refl, sym, ap, ◌∙◌, ◌⊎◌, inl, inr, Bool, true, false, Option, none, some, List,
  [], ◌∷◌, ◌++◌, Result, ok, err, panic, arith, list_eq, nat_eq,
}
use k8slan.Base.Text.{Text, bytes}
use k8slan.Base.Io.{Io, Error, then_run, wrapping}
use k8slan.Base.Keeps.{Keeps, keeps_bind}
use k8slan.Interfaces.System.{System}
use k8slan.Interfaces.Netlink.{Link, Netlink}
use k8slan.Cni.Ipam.{PluginConf, CmdArgs, Ipam}
use k8slan.Cni.Plugin.{
  Printed, or_message, parse_config, rename, move_veth, set_sysctl, set_dad, configure,
  fail_if_empty, apply_ipam, with_dns, finish, or_release, with_ipam,
}

module _ (sys : System) (net : Netlink sys) (ipam : Ipam sys) (lent : sys.State → ℕ) where
  -- What is documented of the calls: the IPAM plugin lends an address for its input when it
  -- succeeds, and takes it back; nothing else does.
  pub record IsLedger (input : Text) : Type 1 where
    pub added :
        (kind : Text) (s u : sys.State) {raw : ipam.Raw}
        → ipam.exec_add kind input s ≡ (ok raw, u)
        → lent u ≡ lent s + 1
    pub not_added :
        (kind : Text) (s u : sys.State) {e : Error}
        → ipam.exec_add kind input s ≡ (err e, u)
        → lent u ≡ lent s
    pub released :
        (kind : Text) (s : sys.State)
        → (ipam.exec_del kind input s).0 ≡ ok tt
        → lent (ipam.exec_del kind input s).1 ≡ lent s - 1
    pub opens : (path : Text) → Keeps lent (sys.get_ns path)
    pub finds : (name : Text) → Keeps lent (net.link_by_name name)
    pub moves : (l : Link) (fd : ℕ) → Keeps lent (net.link_set_ns_fd l fd)
    pub renames : (l : Link) (name : Text) → Keeps lent (net.link_set_name l name)
    pub runs_in :
        (A : Type 0) (ns : sys.NetNs) (f : sys.NetNs → Io sys.State A)
        → ((host : sys.NetNs) → Keeps lent (f host))
        → Keeps lent (net.do_ns A ns f)
    pub sets : (key value : Text) → Keeps lent (ipam.sysctl key value)
    pub configures :
        (name : Text) (r : Printed sys net ipam) → Keeps lent (ipam.configure_iface name r)
    pub prints :
        (r : Printed sys net ipam) (version : Text) → Keeps lent (ipam.print_result r version)

  module _ (args : CmdArgs) (l : IsLedger args.stdin_data) where
    or_message-keeps :
        {A : Type 0} (text : Text) (o : Option A) → Keeps lent (or_message sys net ipam text o)
    unfolding or_message
    or_message-keeps text none s = refl
    or_message-keeps text (some a) s = refl

    pub parse_config-keeps : (stdin : Text) → Keeps lent (parse_config sys net ipam stdin)
    unfolding parse_config
    parse_config-keeps stdin =
        let first = bytes "failed to parse network configuration" in
        let second = bytes "could not parse prevResult" in
        keeps_bind lent {B = PluginConf} (or_message sys net ipam first (ipam.unmarshal stdin)) _
          (or_message-keeps first (ipam.unmarshal stdin))
          (λ conf. or_message-keeps second (ipam.parse_prev_result conf))

    rename-keeps : (vlink : Link) (name : Text) → Keeps lent (rename sys net ipam vlink name)
    unfolding rename
    rename-keeps vlink name =
        keeps_bind lent {B = Link} (net.link_set_name vlink name) _ (l.renames vlink name)
          (λ x. l.finds name)

    pub move_veth-keeps :
        (conf : PluginConf) (ns : sys.NetNs) → Keeps lent (move_veth sys net ipam conf args ns)
    unfolding move_veth
    move_veth-keeps conf ns =
        let find =
          wrapping (bytes "failed to locate veth interface") (net.link_by_name conf.veth_name) in
        let text = bytes "failed to move veth interface into pod NS" in
        keeps_bind lent {B = Link} find _ (l.finds conf.veth_name) λ vlink.
          keeps_bind lent {B = Link} (wrapping text (net.link_set_ns_fd vlink (net.ns_fd ns))) _
            (l.moves vlink (net.ns_fd ns))
            (λ x. l.runs_in Link ns _ (λ host. rename-keeps vlink args.if_name))

    set_sysctl-keeps :
        (before name after value : Text)
        → Keeps lent (set_sysctl sys net ipam before name after value)
    unfolding set_sysctl
    set_sysctl-keeps before name after value = l.sets (before ++ (name ++ after)) value

    set_dad-keeps : (dad : Bool) (name : Text) → Keeps lent (set_dad sys net ipam dad name)
    unfolding set_dad
    set_dad-keeps true name =
        let six = bytes "net/ipv6/conf/" in
        let first =
          set_sysctl sys net ipam (bytes "/net/ipv6/conf/") name (bytes "/enhanced_dad")
            (bytes "1") in
        keeps_bind lent {B = Unit} first _
          (set_sysctl-keeps (bytes "/net/ipv6/conf/") name (bytes "/enhanced_dad") (bytes "1"))
          (λ x. set_sysctl-keeps six name (bytes "/accept_dad") (bytes "1"))
    set_dad-keeps false name =
        set_sysctl-keeps (bytes "net/ipv6/conf/") name (bytes "/accept_dad") (bytes "0")

    configure-keeps :
        (conf : PluginConf) (r : Printed sys net ipam)
        → Keeps lent (configure sys net ipam conf args r)
    unfolding configure
    configure-keeps conf r =
        let four = bytes "net/ipv4/conf/" in
        let arp = set_sysctl sys net ipam four args.if_name (bytes "/arp_notify") (bytes "1") in
        keeps_bind lent {B = Unit} (set_dad sys net ipam conf.enable_dad args.if_name) _
          (set_dad-keeps conf.enable_dad args.if_name)
          λ x.
            keeps_bind lent {B = Unit} arp _
              (set_sysctl-keeps four args.if_name (bytes "/arp_notify") (bytes "1"))
              (λ y. l.configures args.if_name r)

    fail_if_empty-keeps : (ips : List ipam.IpConfig) → Keeps lent (fail_if_empty sys net ipam ips)
    unfolding fail_if_empty
    fail_if_empty-keeps [] s = refl
    fail_if_empty-keeps (ip ∷ ips) s = refl

    apply_ipam-keeps :
        (conf : PluginConf) (ns : sys.NetNs) (r : Printed sys net ipam) (raw : ipam.Raw)
        → Keeps lent (apply_ipam sys net ipam conf args ns r raw)
    unfolding apply_ipam
    apply_ipam-keeps conf ns r raw =
        keeps_bind lent {B = Printed sys net ipam} (λ s. (ipam.new_result_from_result raw, s)) _
          (λ s. refl)
          λ given.
            let r' : Printed sys net ipam = record r {
              ips = given.ips;
              routes = given.routes;
              dns = given.dns;
            } in
            keeps_bind lent {B = Printed sys net ipam} (fail_if_empty sys net ipam r'.ips) _
              (fail_if_empty-keeps r'.ips)
              λ x.
                keeps_bind lent {B = Printed sys net ipam}
                  (net.do_ns (Unit {0}) ns (λ host. configure sys net ipam conf args r')) _
                  (l.runs_in (Unit {0}) ns _ (λ host. configure-keeps conf r')) (λ y s. refl)

    pub finish-keeps :
        (conf : PluginConf) (r : Printed sys net ipam) → Keeps lent (finish sys net ipam conf r)
    unfolding finish
    finish-keeps conf r = l.prints _ conf.cni_version

    -- The failure was that of printing the result.
    abbrev pub PrintFailed : Error → sys.State → Type 0
    PrintFailed e t =
        (r : Printed sys net ipam) × (version : Text) × (u : sys.State) × (ipam.print_result r
            version u
          ≡ (err e, t))

    -- How many addresses are lent after an action that started with `n`.
    abbrev pub Balanced : ℕ → Result Error (Unit {0}) × sys.State → Type 0
    Balanced n (ok x, t) = lent t ≡ n + 1
    Balanced n (err e, t) = (lent t ≡ n) ⊎ ((lent t ≡ n + 1) × PrintFailed e t)
    Balanced n (panic, t) = Unit

    finish-Balanced :
        (conf : PluginConf) (r : Printed sys net ipam) (n : ℕ) (s : sys.State)
        → lent s ≡ n + 1
        → Balanced n (finish sys net ipam conf r s)
    unfolding finish
    finish-Balanced conf r n s h = go (finish sys net ipam conf r s) refl
      where
        go :
            (x : Result Error (Unit {0}) × sys.State)
            → finish sys net ipam conf r s ≡ x
            → Balanced n x
        go (ok y, t) e = ap (λ z. lent z.1) (sym e) ∙ finish-keeps conf r s ∙ h
        go (err y, t) e = inr (
          ap (λ z. lent z.1) (sym e) ∙ finish-keeps conf r s ∙ h,
          (with_dns sys net ipam conf r, conf.cni_version, s, e),
        )
        go (panic, t) e = tt

    module _
        (always : (kind : Text) (s : sys.State)
          → (ipam.exec_del kind args.stdin_data s).0 ≡ ok tt) where
      or_release-Balanced :
          (conf : PluginConf) (n : ℕ) (x : Result Error (Printed sys net ipam) × sys.State)
          → lent x.1 ≡ n + 1
          → Balanced n (or_release sys net ipam conf args x)
      unfolding or_release
      or_release-Balanced conf n (ok r, s) h = finish-Balanced conf r n s h
      or_release-Balanced conf n (err e, s) h =
          inl (l.released conf.ipam_type s (always conf.ipam_type s) ∙ omega (arith, h))
      or_release-Balanced conf n (panic, s) h = tt

      pub with_ipam-Balanced :
          (conf : PluginConf) (ns : sys.NetNs) (r : Printed sys net ipam) (s : sys.State)
          → Balanced (lent s) (with_ipam sys net ipam conf args ns r s)
      unfolding with_ipam
      with_ipam-Balanced conf ns r s = go (ipam.exec_add conf.ipam_type args.stdin_data s) refl
        where
          after : ipam.Raw → Io sys.State (Unit {0})
          after raw u =
              or_release sys net ipam conf args (apply_ipam sys net ipam conf args ns r raw u)

          go :
              (x : Result Error ipam.Raw × sys.State)
              → ipam.exec_add conf.ipam_type args.stdin_data s ≡ x
              → Balanced (lent s) (then_run after x)
          go (ok raw, u) e =
              or_release-Balanced conf (lent s) (apply_ipam sys net ipam conf args ns r raw u)
                (apply_ipam-keeps conf ns r raw u ∙ l.added conf.ipam_type s u e)
          go (err y, u) e = inl (l.not_added conf.ipam_type s u e)
          go (panic, u) e = tt
