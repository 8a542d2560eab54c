-- ===== src/Cni/Plugin/Report.antt =====
-- What ADD reports to the container runtime when it succeeds.
use k8slan.Base.{
  ◌≡◌, ◌≢◌, refl, sym, ap, ◌∙◌, ◌⊎◌, inl, inr, false, Option, none, some, List, [], ◌∷◌, Result, ok,
  err, panic, ◌==◌, ==_iff, Bool-cases, list_eq, nat_eq, if◌then◌else◌,
}
use k8slan.Base.Text.{Text, bytes}
use k8slan.Base.Io.{Error, io_bind_ok, printing, printing_ok, wrapping, wrapping_ok}
use k8slan.Interfaces.System.{System}
use k8slan.Interfaces.Netlink.{Link, Netlink}
use k8slan.Interfaces.Returns.{RunsInside}
use k8slan.Cni.Ipam.{PluginConf, CmdArgs, Ipam}
use k8slan.Cni.Plugin.{
  Printed, dns_conf_set, or_message, parse_config, rename, move_veth, link_result, configure,
  fail_if_empty, apply_ipam, with_dns, with_ipam, or_release, finish, cmd_add,
}

module _ (sys : System) (net : Netlink sys) (ipam : Ipam sys) (args : CmdArgs) where
  -- The result: the one link; addresses if the
  -- configuration names an IPAM plugin; and the DNS settings of the configuration, if it has any.
  pub record IsReport (conf : PluginConf) (ns : sys.NetNs) (link : Link) (r : Printed sys net ipam)
      : Type 0 where
    pub one_link :
        r.interfaces
        ≡ record { name = link.name; mac = link.hardware_addr; sandbox = sys.ns_path ns } ∷ []
    pub addressed : (conf.ipam_type ≡ []) ⊎ (r.ips ≢ [])
    pub dns_first : (dns_conf_set conf.dns ≡ false) ⊎ (r.dns ≡ conf.dns)

  with_dns-IsReport :
      (conf : PluginConf) (ns : sys.NetNs) (link : Link) (r : Printed sys net ipam)
      → r.interfaces
        ≡ record { name = link.name; mac = link.hardware_addr; sandbox = sys.ns_path ns } ∷ []
      → (conf.ipam_type ≡ []) ⊎ (r.ips ≢ [])
      → IsReport conf ns link (with_dns sys net ipam conf r)
  unfolding with_dns
  with_dns-IsReport conf ns link r one has = elim (Bool-cases (dns_conf_set conf.dns)) [
    | inl set ↦ rw set (record { one_link = one; addressed = has; dns_first = inr refl })
    | inr unset ↦ rw unset (record { one_link = one; addressed = has; dns_first = inl unset })
  ]

  -- The report that was printed
  abbrev pub Reported : PluginConf → sys.NetNs → Link → sys.State → Type 0
  Reported conf ns link t =
      (r : Printed sys net ipam) × (u : sys.State) × IsReport conf ns link r
      × (ipam.print_result r conf.cni_version u ≡ (ok tt, t))

  fail_if_empty-ok :
      (ips : List ipam.IpConfig) (s t : sys.State)
      → fail_if_empty sys net ipam ips s ≡ (ok tt, t)
      → ips ≢ []
  unfolding fail_if_empty
  fail_if_empty-ok [] s t h = cc
  fail_if_empty-ok (ip ∷ ips) s t h = λ p. cc

  apply_ipam-ok :
      (conf : PluginConf) (ns : sys.NetNs) (r : Printed sys net ipam) (raw : ipam.Raw)
      (s t : sys.State) {r' : Printed sys net ipam}
      → apply_ipam sys net ipam conf args ns r raw s ≡ (ok r', t)
      → (r'.interfaces ≡ r.interfaces) × (r'.ips ≢ [])
  unfolding apply_ipam
  apply_ipam-ok conf ns r raw s t {r'} h =
      let (given, u, e₁, h₁) = io_bind_ok (λ z. (ipam.new_result_from_result raw, z)) _ s h in
      let set : Printed sys net ipam = record r {
        ips = given.ips;
        routes = given.routes;
        dns = given.dns;
      } in
      let (x, v, e₂, h₂) = io_bind_ok (fail_if_empty sys net ipam set.ips) _ u h₁ in
      let (y, w, e₃, h₃) =
        io_bind_ok (net.do_ns (Unit {0}) ns λ host. configure sys net ipam conf args set) _ v h₂ in
      let same : set ≡ r' = cc in
      (
        sym (ap (λ z. z.interfaces) same),
        λ p. fail_if_empty-ok set.ips u v e₂ (ap (λ z. z.ips) same ∙ p),
      )

  with_ipam-Reported :
      (conf : PluginConf) (ns : sys.NetNs) (link : Link) (s t : sys.State)
      → with_ipam sys net ipam conf args ns (link_result sys net ipam ns link) s ≡ (ok tt, t)
      → Reported conf ns link t
  unfolding with_ipam link_result or_release finish
  with_ipam-Reported conf ns link s t h =
      let base = link_result sys net ipam ns link in
      let (raw, u, e, h₁) = io_bind_ok (ipam.exec_add conf.ipam_type args.stdin_data) _ s h in
      go raw u (apply_ipam sys net ipam conf args ns base raw u) refl h₁
    where
      go :
          (raw : ipam.Raw) (u : sys.State) (x : Result Error (Printed sys net ipam) × sys.State)
          → apply_ipam sys net ipam conf args ns (link_result sys net ipam ns link) raw u ≡ x
          → or_release sys net ipam conf args x ≡ (ok tt, t)
          → Reported conf ns link t
      go raw u (ok r, v) e h' =
          let (one, has) = apply_ipam-ok conf ns (link_result sys net ipam ns link) raw u v e in
          (with_dns sys net ipam conf r, v, with_dns-IsReport conf ns link r one (inr has), h')
      go raw u (err y, v) e h' = cc
      go raw u (panic, v) e h' = cc

  finish-Reported :
      (conf : PluginConf) (ns : sys.NetNs) (link : Link) (s t : sys.State)
      → conf.ipam_type ≡ []
      → finish sys net ipam conf (link_result sys net ipam ns link) s ≡ (ok tt, t)
      → Reported conf ns link t
  unfolding finish link_result
  finish-Reported conf ns link s t plain h =
      let base = link_result sys net ipam ns link in
      (with_dns sys net ipam conf base, s, with_dns-IsReport conf ns link base refl (inl plain), h)

  -- The configuration is the input, parsed, with what was parsed of its previous result.
  abbrev pub IsConfig : PluginConf → Type 0
  IsConfig conf =
      (plain : PluginConf) × (ipam.unmarshal args.stdin_data ≡ some plain)
      × (ipam.parse_prev_result plain ≡ some conf)

  or_message-ok :
      {A : Type 0} (text : Text) (o : Option A) (s t : sys.State) {a : A}
      → or_message sys net ipam text o s ≡ (ok a, t)
      → (o ≡ some a) × (s ≡ t)
  unfolding or_message
  or_message-ok text none s t h = cc
  or_message-ok text (some x) s t h = (cc, cc)

  parse_config-read :
      (s t : sys.State) {conf : PluginConf}
      → parse_config sys net ipam args.stdin_data s ≡ (ok conf, t)
      → IsConfig conf × (s ≡ t)
  unfolding parse_config
  parse_config-read s t h =
      let t₁ = bytes "failed to parse network configuration" in
      let read = or_message sys net ipam t₁ (ipam.unmarshal args.stdin_data) in
      let (plain, u, e, h₁) = io_bind_ok read _ s h in
      let (set, k) = or_message-ok t₁ (ipam.unmarshal args.stdin_data) s u e in
      let t₂ = bytes "could not parse prevResult" in
      let (prev, k') = or_message-ok t₂ (ipam.parse_prev_result plain) u t h₁ in
      ((plain, set, prev), k ∙ k')

  parse_config-IsConfig :
      (s t : sys.State) {conf : PluginConf}
      → parse_config sys net ipam args.stdin_data s ≡ (ok conf, t)
      → IsConfig conf
  parse_config-IsConfig s t h = (parse_config-read s t h).0

  parse_config-keeps :
      (s t : sys.State) {conf : PluginConf}
      → parse_config sys net ipam args.stdin_data s ≡ (ok conf, t)
      → s ≡ t
  parse_config-keeps s t h = (parse_config-read s t h).1

  -- The veth link that the configuration names was found and given to the pod's namespace; there it
  -- got the name that the runtime asks for, and `link` was read by this name afterwards.
  pub record IsMoved (inner : RunsInside sys net) (conf : PluginConf) (ns : sys.NetNs) (link : Link)
      (s t : sys.State) : Type 0 where
    pub veth : Link
    pub s₁ : sys.State
    pub s₂ : sys.State
    pub u₂ : sys.State
    pub u₃ : sys.State
    pub found : net.link_by_name conf.veth_name s ≡ (ok veth, s₁)
    pub given : net.link_set_ns_fd veth (net.ns_fd ns) s₁ ≡ (ok tt, s₂)
    pub renamed : net.link_set_name veth args.if_name (inner.enter ns s₂) ≡ (ok tt, u₂)
    pub read : net.link_by_name args.if_name u₂ ≡ (ok link, u₃)
    pub back : inner.leave s₂ u₃ ≡ t

  module _ (inner : RunsInside sys net) where
    move_veth-IsMoved :
        (conf : PluginConf) (ns : sys.NetNs) (s t : sys.State) {link : Link}
        → move_veth sys net ipam conf args ns s ≡ (ok link, t)
        → IsMoved inner conf ns link s t
    unfolding move_veth rename
    move_veth-IsMoved conf ns s t h =
        let find = net.link_by_name conf.veth_name in
        let t₁ = bytes "failed to locate veth interface" in
        let (veth, s₁, e₁, h₁) = io_bind_ok (wrapping t₁ find) _ s h in
        let give = net.link_set_ns_fd veth (net.ns_fd ns) in
        let t₂ = bytes "failed to move veth interface into pod NS" in
        let (x, s₂, e₂, h₂) = io_bind_ok (wrapping t₂ give) _ s₁ h₁ in
        let work = λ (host : sys.NetNs). rename sys net ipam veth args.if_name in
        let t₃ = bytes "failed to rename veth interface" in
        let e₃ = wrapping_ok t₃ (net.do_ns Link ns work) s₂ h₂ in
        let (host, v, ran, back) = inner.ran Link ns work s₂ e₃ in
        let (y, u₂, e₄, h₄) =
          io_bind_ok (net.link_set_name veth args.if_name) _ (inner.enter ns s₂) ran in
        record {
          veth = veth;
          s₁ = s₁;
          s₂ = s₂;
          u₂ = u₂;
          u₃ = v;
          found = wrapping_ok t₁ find s e₁;
          given = wrapping_ok t₂ give s₁ e₂;
          renamed = e₄;
          read = h₄;
          back = back;
        }

    -- Where `NetNS.Do` enters the namespace, runs the function that it is given and comes back: if
    -- ADD succeeds, its input was parsed, and the veth link that this configuration names was given
    -- to the pod's namespace and renamed there to the name asked for; the printed result has one
    -- interface, by the name and the address of the link as read there by that name after the
    -- renaming; it has addresses, if the configuration names an IPAM plugin; and the DNS settings
    -- of the configuration, if it has any.
    pub cmd_add-Reported :
        (s t : sys.State)
        → cmd_add sys net ipam args s ≡ (ok tt, t)
        → (conf : PluginConf) × (ns : sys.NetNs) × (link : Link) × (v w : sys.State) × IsConfig conf
          × (sys.get_ns args.netns s ≡ (ok ns, v))
          × IsMoved inner conf ns link v w
          × Reported conf ns link t
    unfolding cmd_add
    cmd_add-Reported s t h =
        let (conf, u, e₁, h₁) = io_bind_ok (parse_config sys net ipam args.stdin_data) _ s h in
        let text = bytes "failed to open pod netns" in
        let (ns, v, e₂, h₂) = io_bind_ok (printing text (sys.get_ns args.netns)) _ u h₁ in
        let (link, w, e₃, h₃) = io_bind_ok (move_veth sys net ipam conf args ns) _ v h₂ in
        let same = ap (sys.get_ns args.netns) (parse_config-keeps s u e₁) in
        let opened = same ∙ printing_ok text (sys.get_ns args.netns) u e₂ in
        (
          conf,
          ns,
          link,
          v,
          w,
          parse_config-IsConfig s u e₁,
          opened,
          move_veth-IsMoved conf ns v w e₃,
          last conf ns link w h₃,
        )
      where
        last :
            (conf : PluginConf) (ns : sys.NetNs) (link : Link) (w : sys.State)
            → (if conf.ipam_type == []
                  then finish sys net ipam conf (link_result sys net ipam ns link)
                  else with_ipam sys net ipam conf args ns (link_result sys net ipam ns link))
                w
              ≡ (ok tt, t)
            → Reported conf ns link t
        last conf ns link w e = elim (Bool-cases (conf.ipam_type == [])) [
          | inl plain ↦
              finish-Reported conf ns link w t ((==_iff conf.ipam_type []).0 plain) (rw plain at e)
          | inr used ↦ with_ipam-Reported conf ns link w t (rw used at e)
        ]
