-- ===== src/Interfaces/Apply/Ends.antt =====
-- `Ensure` (pkg/interfaces/apply.go) ends with a result or an error: which nil pointers and
-- addresses that do not parse it can reach, and what keeps it from them.
use k8slan.Base.{
  ℕ, ◌≡◌, ◌≢◌, refl, Bool, true, false, Bool-cases, inl, inr, some, Result, ok, err, panic, ◌==◌,
  ==_iff, list_eq, nat_eq, if◌then◌else◌,
}
use k8slan.Base.Int.{ℤ}
use k8slan.Base.Text.{Text, bytes}
use k8slan.Base.Io.{Error, ◌>>=◌, ◌>>◌, wrapping, ignoring, attempt, pure, attempt_ok}
use k8slan.Base.Returns.{
  Returns, returns_then, returns_bind, returns_pure, returns_wrapping, returns_ignoring,
  returns_deref, attempt_then,
}
use k8slan.Netip.{Addr, parse_addr}
use k8slan.Lan.{LanSpec}
use k8slan.Lan.Validation.Laws.{Accepted}
use k8slan.Interfaces.System.{System}
use k8slan.Interfaces.Netlink.{Link, VxlanAttrs, Netlink}
use k8slan.Interfaces.Returns.{SystemReturns, NetlinkReturns}
use k8slan.Interfaces.Namespace.{named_path, new_ns, delete_named}
use k8slan.Interfaces.Namespace.Open.{new_ns_returns, delete_named_returns}
use k8slan.Interfaces.Macvtap.{link_delete}
use k8slan.Interfaces.Macvtap.Ends.{link_delete_returns}
use k8slan.Interfaces.Vxlan.Ends.{returns_parse}
use k8slan.Interfaces.Apply.{
  opened_ns, stated_ns, lan_ns, lo_up, vxlan_differs, found_vxlan, vxlan_needed,
}

-- Every vxlan link that is found has a group that is an address.
pub record HasGroups (sys : System) (net : Netlink sys) : Type 0 where
  pub reads_group :
      {name : Text} {s t : sys.State} {l : Link}
      → net.link_by_name name s ≡ (ok l, t)
      → l.type_name ≡ bytes "vxlan"
      → (vx : VxlanAttrs) × (a : Addr) × (l.vxlan ≡ some vx) × (parse_addr vx.group ≡ some a)

module _ (sys : System) (net : Netlink sys) (q : SystemReturns sys)
    (r : NetlinkReturns sys net) where
  opened_ns_returns :
      (name : Text) (x : Result Error sys.NetNs) → x ≢ panic → Returns (opened_ns sys net name x)
  unfolding opened_ns
  opened_ns_returns name (ok ns) h = record { at = λ s p. cc }
  opened_ns_returns name panic h = absurd (h refl)
  opened_ns_returns name (err e) h =
      let again : Returns (do
        ignoring (delete_named sys name)
        wrapping (bytes "failed to recreate ns") (new_ns sys name)) =
        returns_bind (ignoring (delete_named sys name)) _
          (returns_ignoring (delete_named sys name) (delete_named_returns sys q name))
          (λ _. returns_wrapping (new_ns sys name) (new_ns_returns sys q name) _) in
      record { at = again.at }

  stated_ns_returns :
      (name : Text) (x : Result Error (Unit {0})) → x ≢ panic → Returns (stated_ns sys net name x)
  unfolding stated_ns
  stated_ns_returns name (err e) h = record {
    at = (returns_wrapping (new_ns sys name) (new_ns_returns sys q name) _).at;
  }
  stated_ns_returns name panic h = absurd (h refl)
  stated_ns_returns name (ok u) h =
      let tried : Returns
          (do opened ← attempt (sys.get_ns (named_path name)); opened_ns sys net name opened) =
        attempt_then (sys.get_ns (named_path name)) _ (q.opens (named_path name))
          (λ x s u ne e. (opened_ns_returns name x ne).at u) in
      record { at = tried.at }

  pub lan_ns_returns :
      (lan : LanSpec) {name : Text} → lan.ns ≡ some name → Returns (lan_ns sys net lan)
  unfolding lan_ns
  lan_ns_returns lan {name} set = returns_deref _ set (
      attempt_then (sys.stat (named_path name)) _ (q.stats (named_path name))
        (λ x s u ne e. (stated_ns_returns name x ne).at u))

module _ (sys : System) (net : Netlink sys) (r : NetlinkReturns sys net) where
  pub lo_up_returns : (ns : sys.NetNs) → Returns (lo_up sys net ns)
  unfolding lo_up
  lo_up_returns ns =
      returns_wrapping
        (net.do_ns (Unit {0}) ns λ host. do l ← net.link_by_name (bytes "lo"); net.link_set_up l)
        (r.does (Unit {0}) ns _ λ host.
          returns_bind (net.link_by_name (bytes "lo")) _ (r.finds (bytes "lo"))
            (λ l. r.brings_up l))
        _

  vxlan_differs_returns :
      (lan : LanSpec) (l : Link) (dev : ℕ) {vx : VxlanAttrs} {a : Addr} {port : ℤ}
      → Accepted lan
      → lan.vx_port ≡ some port
      → l.vxlan ≡ some vx
      → parse_addr vx.group ≡ some a
      → Returns (vxlan_differs sys net lan l dev)
  unfolding vxlan_differs
  vxlan_differs_returns lan l dev {vx} acc port_set attrs group =
      let (grp, grp_set, addr, parsed, _) = acc.group in
      let (vni, vni_set, _, _) = acc.vni in
      returns_deref _ grp_set (
        returns_parse grp _ parsed (
          returns_deref _ attrs (
            returns_parse vx.group _ group
              (returns_deref _ vni_set (returns_deref _ port_set (returns_pure _))))))

  settle_returns :
      (name : Text) (needed : Bool)
      → Returns (do (if needed then ignoring (link_delete sys net name) else pure tt); pure needed)
  settle_returns name true =
      returns_bind (ignoring (link_delete sys net name)) _
        (returns_ignoring (link_delete sys net name) (link_delete_returns sys net r name))
        (λ _. returns_pure true)
  settle_returns name false =
      returns_bind (pure {S = sys.State} (tt {0})) _ (returns_pure tt) (λ _. returns_pure false)

  module _ (g : HasGroups sys net) where
    found_vxlan_returns :
        (lan : LanSpec) (dev : ℕ) (name : Text) (x : Result Error Link) (s t : sys.State) {port : ℤ}
        → Accepted lan
        → lan.vx_port ≡ some port
        → x ≢ panic
        → attempt (net.link_by_name name) s ≡ (ok x, t)
        → (found_vxlan sys net lan dev x t).0 ≢ panic
    unfolding found_vxlan
    found_vxlan_returns lan dev name (err e) s t acc set ne h = λ p. cc
    found_vxlan_returns lan dev name panic s t acc set ne h = absurd (ne refl)
    found_vxlan_returns lan dev name (ok l) s t acc set ne h =
        elim (Bool-cases (l.type_name == bytes "vxlan")) [
          | inl same ↦
              let found = attempt_ok (net.link_by_name name) s h in
              let (vx, a, attrs, group) =
                g.reads_group found ((==_iff l.type_name (bytes "vxlan")).0 same) in
              rw (same, found_vxlan) ((vxlan_differs_returns lan l dev acc set attrs group).at t)
          | inr other ↦ rw (other, found_vxlan) (λ p. cc)
        ]

    pub vxlan_needed_returns :
        (lan : LanSpec) (dev : ℕ) {port : ℤ}
        → Accepted lan
        → lan.vx_port ≡ some port
        → Returns (vxlan_needed sys net lan dev)
    unfolding vxlan_needed
    vxlan_needed_returns lan dev acc set =
        let (grp, grp_set, addr, parsed, _) = acc.group in
        let (name, name_set, _) = acc.vxlan in
        returns_deref _ grp_set (
          returns_parse grp _ parsed (
            returns_deref _ name_set (
              attempt_then (net.link_by_name name) _ (r.finds name) (λ x s u ne e.
                returns_then (found_vxlan sys net lan dev x) _ u
                  (found_vxlan_returns lan dev name x s u acc set ne e)
                  (λ needed v e'. (settle_returns name needed).at v)))))
