-- ===== src/Cni/Plugin/Balance.antt =====
-- What ADD and DEL together do to the addresses that the IPAM plugin has lent.
use mathlib.Core.Path.{subst}
use k8slan.Base.{
  ℕ, ◌+◌, ◌≡◌, ◌≢◌, refl, sym, ap, ◌∙◌, ◌⊎◌, inl, inr, [], Result, ok, err, panic, arith, ◌==◌,
  ==_iff, Bool-cases, list_eq, nat_eq, if◌then◌else◌,
}
use k8slan.Base.Text.{Text, bytes}
use k8slan.Base.Io.{Io, Error, ◌>>=◌, then_run, pure, printing}
use k8slan.Base.Keeps.{Keeps, keeps_bind}
use k8slan.Interfaces.System.{System}
use k8slan.Interfaces.Netlink.{Netlink}
use k8slan.Cni.Ipam.{PluginConf, CmdArgs, Ipam}
use k8slan.Cni.Plugin.{
  Printed, parse_config, move_veth, link_result, with_ipam, finish, cmd_add, cmd_del,
}
use k8slan.Cni.Plugin.Release.{
  IsLedger, PrintFailed, move_veth-keeps, finish-keeps, with_ipam-Balanced, Balanced,
  parse_config-keeps,
}

module _ (sys : System) (net : Netlink sys) (ipam : Ipam sys) (lent : sys.State → ℕ)
    (args : CmdArgs) (l : IsLedger sys net ipam lent args.stdin_data) where
  -- After ADD: as many addresses more as the configuration asks for, or after an error none, but
  -- for one that is still lent if the result could not be printed.
  abbrev pub Paid : PluginConf → ℕ → Result Error (Unit {0}) × sys.State → Type 0
  Paid conf n (ok x, t) = lent t ≡ n + (if conf.ipam_type == [] then 0 else 1)
  Paid conf n (err e, t) =
      (lent t ≡ n) ⊎ ((lent t ≡ n + 1) × PrintFailed sys net ipam lent args l e t)
  Paid conf n (panic, t) = Unit

  Paid-bind :
      {A : Type 0} (conf : PluginConf) (n : ℕ) (m : Io sys.State A)
      (k : A → Io sys.State (Unit {0})) (s : sys.State)
      → Keeps lent m
      → lent s ≡ n
      → ((a : A) (t : sys.State) → lent t ≡ n → Paid conf n (k a t))
      → Paid conf n (◌>>=◌ m k s)
  Paid-bind {A} conf n m k s keeps h rest = go (m s) refl
    where
      go : (x : Result Error A × sys.State) → m s ≡ x → Paid conf n (then_run k x)
      go (ok a, t) e = rest a t (ap (λ z. lent z.1) (sym e) ∙ keeps s ∙ h)
      go (err y, t) e = inl (ap (λ z. lent z.1) (sym e) ∙ keeps s ∙ h)
      go (panic, t) e = tt

  finish-Paid :
      (conf : PluginConf) (r : Printed sys net ipam) (n : ℕ) (s : sys.State)
      → conf.ipam_type ≡ []
      → lent s ≡ n
      → Paid conf n (finish sys net ipam conf r s)
  finish-Paid conf r n s plain h = go (finish sys net ipam conf r s) refl
    where
      kept : lent (finish sys net ipam conf r s).1 ≡ n
      kept = finish-keeps sys net ipam lent args l conf r s ∙ h

      go :
          (x : Result Error (Unit {0}) × sys.State)
          → finish sys net ipam conf r s ≡ x
          → Paid conf n x
      go (ok y, t) e =
          let same : lent t ≡ n = ap (λ z. lent z.1) (sym e) ∙ kept in
          rw ((==_iff conf.ipam_type []).1 plain) (omega (arith, same))
      go (err y, t) e = inl (ap (λ z. lent z.1) (sym e) ∙ kept)
      go (panic, t) e = tt

  Balanced-Paid :
      (conf : PluginConf) (n : ℕ) (x : Result Error (Unit {0}) × sys.State)
      → conf.ipam_type ≢ []
      → Balanced sys net ipam lent args l n x
      → Paid conf n x
  Balanced-Paid conf n (ok y, t) used h = ground arith
  Balanced-Paid conf n (err e, t) used h = h
  Balanced-Paid conf n (panic, t) used h = tt

  last_Paid :
      (always : (kind : Text) (s : sys.State) → (ipam.exec_del kind args.stdin_data s).0 ≡ ok tt)
      (conf : PluginConf) (ns : sys.NetNs) (r : Printed sys net ipam) (n : ℕ) (s : sys.State)
      → lent s ≡ n
      → Paid conf n (
          (if conf.ipam_type == []
              then finish sys net ipam conf r
              else with_ipam sys net ipam conf args ns r)
            s)
  last_Paid always conf ns r n s h = elim (Bool-cases (conf.ipam_type == [])) [
    | inl plain ↦ rw plain (finish-Paid conf r n s ((==_iff conf.ipam_type []).0 plain) h)
    | inr used ↦ rw used (
        Balanced-Paid conf n _ (λ e. cc ((==_iff conf.ipam_type []).1 e))
          (subst
            (λ k. Balanced sys net ipam lent args l k (with_ipam sys net ipam conf args ns r s)) h
            (with_ipam-Balanced sys net ipam lent args l always conf ns r s)))
  ]

  -- Over an IPAM plugin that lends an address when its add succeeds and takes it back, whose
  -- deletion does not fail: after ADD as many more addresses are lent as the configuration asks
  -- for, and after an ADD that failed none, but for one that stays lent if it was the printing of
  -- the result that failed. The configuration can be parsed.
  pub cmd_add-Paid :
      ((kind : Text) (s : sys.State) → (ipam.exec_del kind args.stdin_data s).0 ≡ ok tt)
      → (s : sys.State) {conf : PluginConf}
      → parse_config sys net ipam args.stdin_data s ≡ (ok conf, s)
      → Paid conf (lent s) (cmd_add sys net ipam args s)
  unfolding cmd_add
  cmd_add-Paid always s {conf} parsed = rw parsed (
      Paid-bind conf (lent s) (printing (bytes "failed to open pod netns") (sys.get_ns args.netns))
        _ s (l.opens args.netns) refl
        λ ns u h.
          Paid-bind conf (lent s) (move_veth sys net ipam conf args ns) _ u
            (move_veth-keeps sys net ipam lent args l conf ns) h
            λ vlink v h'.
              last_Paid always conf ns (link_result sys net ipam ns vlink) (lent s) v h')

  -- Over the same IPAM plugin: the address that a successful ADD was lent is still lent after the
  -- DEL of the same input.
  pub cmd_del-leaks :
      ((kind : Text) (s : sys.State) → (ipam.exec_del kind args.stdin_data s).0 ≡ ok tt)
      → (s t : sys.State) {conf : PluginConf}
      → parse_config sys net ipam args.stdin_data s ≡ (ok conf, s)
      → conf.ipam_type ≢ []
      → cmd_add sys net ipam args s ≡ (ok tt, t)
      → lent (cmd_del sys net ipam args t).1 ≡ lent s + 1
  unfolding cmd_del
  cmd_del-leaks always s t {conf} parsed used added =
      let paid = subst (Paid conf (lent s)) added (cmd_add-Paid always s parsed) in
      keeps_bind lent (parse_config sys net ipam args.stdin_data) (λ x. pure tt)
        (parse_config-keeps sys net ipam lent args l args.stdin_data) (λ x u. refl) t
      ∙ ground arith
