-- ===== src/Interfaces/Apply/Names.antt =====
-- What `Ensure` (pkg/interfaces/apply.go) does before it makes the veth pair leaves the names of the
-- other links as they are, over a kernel that keeps the names of links.
use mathlib.Core.Path.{subst}
use k8slan.Base.{
  ℕ, ◌≡◌, ◌≢◌, refl, sym, ap, ◌∙◌, Bool, true, false, Bool-cases, Option-cases, inl, inr, some,
  Result, ok, err, panic, ◌==◌, ==_iff, list_eq, nat_eq, arith, if◌then◌else◌,
}
use k8slan.Base.Int.{ℤ, negsuc}
use k8slan.Base.Text.{Text, bytes}
use k8slan.Base.Io.{
  Io, ◌>>=◌, ◌>>◌, then_run, drop_error, Error, wrapping, printing, ignoring, attempt, pure,
}
use k8slan.Base.Preserves.{
  Preserves, Preserves-bind, Preserves-pure, Preserves-deref, Preserves-wrapping,
  Preserves-printing, Preserves-attempt,
}
use k8slan.Netip.{parse_addr}
use k8slan.Lan.{LanSpec}
use k8slan.Interfaces.System.{System}
use k8slan.Interfaces.Netlink.{Link, new_bridge, Netlink}
use k8slan.Interfaces.Kernel.{KernelLaws}
use k8slan.Interfaces.Macvtap.{link_delete}
use k8slan.Interfaces.Macvtap.Ends.{link_delete_found, link_delete_failed}
use k8slan.Interfaces.Vxlan.{must_parse_addr}
use k8slan.Interfaces.Apply.{
  vxlan_differs, found_vxlan, link_or_nil, add_bridge, found_bridge, lan_bridge, vxlan_needed,
}

vxlan_ne_veth : bytes "vxlan" ≢ bytes "veth"
vxlan_ne_veth e = cc

module _ (sys : System) (net : Netlink sys) (has : sys.State → Text → Bool)
    (k : KernelLaws sys net has) where
  -- The first name is taken, and the second is not.
  abbrev pub Taken : Text → Text → sys.State → Type 0
  Taken n m s = (has s n ≡ true) × (has s m ≡ false)

  module _ (n m : Text) where
    same_Taken : (s t : sys.State) → ((a : Text) → has t a ≡ has s a) → Taken n m s → Taken n m t
    same_Taken s t same (yes', no') = (same n ∙ yes', same m ∙ no')

    find_keeps : (name : Text) → Preserves (Taken n m) (net.link_by_name name)
    find_keeps name = record {
      at = λ s p. same_Taken s _ (λ a. ap (λ u. has u a) (k.reads name s)) p;
    }

    up_keeps : (l : Link) → Preserves (Taken n m) (net.link_set_up l)
    up_keeps l = record { at = λ s p. same_Taken s _ (k.ups l s) p }

    add_bridge_keeps :
        (name : Text) (mtu : ℤ) → name ≢ m → Preserves (Taken n m) (add_bridge sys net name mtu)
    unfolding add_bridge
    add_bridge_keeps name mtu other =
        let new = new_bridge name mtu (negsuc 0) in
        let make : Preserves (Taken n m) (net.link_add new) = record {
          at = λ s (taken, free). (
            k.keeps new s n taken,
            k.adds new s m (ground (arith, λ (e : m ≡ name). other (sym e))) ∙ free,
          );
        } in
        Preserves-bind (Taken n m) (printing (bytes "failed to create bridge") (net.link_add new)) _
          (Preserves-printing (Taken n m) (net.link_add new) make _)
          λ br.
            Preserves-bind (Taken n m)
              (wrapping (bytes "failed to bring bridge up") (net.link_set_up br)) _
              (Preserves-wrapping (Taken n m) (net.link_set_up br) (up_keeps br) _)
              λ _.
                Preserves-bind (Taken n m) (attempt (net.link_by_name name)) _
                  (Preserves-attempt (Taken n m) (net.link_by_name name) (find_keeps name))
                  (λ found. Preserves-pure (Taken n m) (ok (link_or_nil found)))

    found_bridge_keeps :
        (name : Text) (mtu : ℤ) (x : Result Error Link)
        → name ≢ m
        → Preserves (Taken n m) (found_bridge sys net name mtu x)
    unfolding found_bridge
    found_bridge_keeps name mtu (err e) other = record { at = (add_bridge_keeps name mtu other).at }
    found_bridge_keeps name mtu panic other = record { at = λ s p. p }
    found_bridge_keeps name mtu (ok l) other = record {
      at = λ s p. elim (Bool-cases (l.type_name == bytes "bridge")) [
        | inl same ↦ rw (same, found_bridge) p
        | inr differs ↦ rw (differs, found_bridge) p
      ];
    }

    pub lan_bridge_keeps :
        (lan : LanSpec) (mtu : ℤ)
        → lan.bridge_name ≢ some m
        → Preserves (Taken n m) (lan_bridge sys net lan mtu)
    unfolding lan_bridge
    lan_bridge_keeps lan mtu other = Preserves-deref (Taken n m) lan.bridge_name _ λ name set.
        Preserves-bind (Taken n m) (attempt (net.link_by_name name)) _
          (Preserves-attempt (Taken n m) (net.link_by_name name) (find_keeps name))
          (λ x. found_bridge_keeps name mtu x (λ e. other (set ∙ ap some e)))

    parse_keeps : (P : sys.State → Type 0) (text : Text) → Preserves P (must_parse_addr text)
    unfolding must_parse_addr
    parse_keeps P text = record {
      at = λ s p. elim (Option-cases (parse_addr text)) [
        | inl bad ↦ rw (bad, must_parse_addr) p
        | inr (a, good) ↦ rw (good, must_parse_addr) p
      ];
    }

    vxlan_differs_keeps :
        (P : sys.State → Type 0) (lan : LanSpec) (l : Link) (dev : ℕ)
        → Preserves P (vxlan_differs sys net lan l dev)
    unfolding vxlan_differs
    vxlan_differs_keeps P lan l dev = Preserves-deref P lan.vxlan_grp _ λ grp e₁.
        Preserves-bind P (must_parse_addr grp) _ (parse_keeps P grp) λ a.
          Preserves-deref P l.vxlan _ λ vx e₂.
            Preserves-bind P (must_parse_addr vx.group) _ (parse_keeps P vx.group) λ b.
              Preserves-deref P lan.vni _
                λ vni e₃. Preserves-deref P lan.vx_port _ λ port e₄. Preserves-pure P (ok _)

    -- What the check of the vxlan link does in the end.
    abbrev settle : Text → Bool → Io sys.State Bool
    settle name needed = do
      (if needed then ignoring (link_delete sys net name) else pure tt)
      pure needed

    settle_keeps :
        (name : Text) (needed : Bool) (s : sys.State)
        → Taken n m s
        → Taken n m (link_delete sys net name s).1
        → Taken n m (settle name needed s).1
    settle_keeps name false s p q = p
    settle_keeps name true s p q = after (link_delete sys net name s) q
      where
        after :
            (r : Result Error (Unit {0}) × sys.State)
            → Taken n m r.1
            → Taken n m (then_run (λ _ u. (ok true, u)) (drop_error r.0, r.1)).1
        after (ok x, u) h = h
        after (err e, u) h = h
        after (panic, u) h = h

    -- Deleting the vxlan link that was looked up leaves the names taken and free.
    delete_keeps :
        (name : Text) (s : sys.State) (l : Link)
        → name ≢ n
        → net.link_by_name name s ≡ (ok l, s)
        → l.type_name ≡ bytes "vxlan"
        → Taken n m s
        → Taken n m (link_delete sys net name s).1
    delete_keeps name s l other found is (taken, free) =
        let of : l.name ≡ name = k.of_name name s (ap (λ r. r.0) found) in
        let veth_free : l.type_name ≢ bytes "veth" = λ e. vxlan_ne_veth (sym is ∙ e) in
        let unlike : m ≢ l.name =
          λ e. let gone = k.absent name s (ap (λ a. has s a) (sym (e ∙ of)) ∙ free) in cc in
        rw (link_delete_found sys net name s s found) (
          k.deletes l s n veth_free (λ e. other (sym of ∙ sym e)) ∙ taken,
          k.deletes l s m veth_free unlike ∙ free,
        )

    settle_run :
        (name : Text) (s : sys.State) (r : Result Error Bool × sys.State)
        → r.1 ≡ s
        → Taken n m s
        → Taken n m (link_delete sys net name s).1
        → Taken n m (then_run (settle name) r).1
    settle_run name s (ok b, u) e p q =
        subst (λ w. Taken n m (settle name b w).1) (sym e) (settle_keeps name b s p q)
    settle_run name s (err x, u) e p q = subst (Taken n m) (sym e) p
    settle_run name s (panic, u) e p q = subst (Taken n m) (sym e) p

    checked_keeps :
        (lan : LanSpec) (dev : ℕ) (name : Text) (s : sys.State) (x : Result Error Link)
        → name ≢ n
        → net.link_by_name name s ≡ (x, s)
        → Taken n m s
        → Taken n m
            (then_run
              (λ r. found_vxlan sys net lan dev r >>= settle name)
              (attempt (net.link_by_name name) s)).1
    unfolding found_vxlan
    checked_keeps lan dev name s (err e) other found p =
        rw found (settle_keeps name true s p (rw (link_delete_failed sys net name s s found) p))
    checked_keeps lan dev name s panic other found p = rw found p
    checked_keeps lan dev name s (ok l) other found p =
        rw found (elim (Bool-cases (l.type_name == bytes "vxlan")) [
          | inl same ↦
              let is = (==_iff l.type_name (bytes "vxlan")).0 same in
              rw (same, found_vxlan)
                (settle_run name s (vxlan_differs sys net lan l dev s)
                  ((vxlan_differs_keeps (λ w. w ≡ s) lan l dev).at s refl) p
                  (delete_keeps name s l other found is p))
          | inr differs ↦ rw (differs, found_vxlan) p
        ])

    pub vxlan_needed_keeps :
        (lan : LanSpec) (dev : ℕ)
        → lan.vxlan_name ≢ some n
        → Preserves (Taken n m) (vxlan_needed sys net lan dev)
    unfolding vxlan_needed
    vxlan_needed_keeps lan dev other = Preserves-deref (Taken n m) lan.vxlan_grp _ λ grp e₁.
        Preserves-bind (Taken n m) (must_parse_addr grp) _ (parse_keeps (Taken n m) grp) λ a.
          Preserves-deref (Taken n m) lan.vxlan_name _ λ name set. record {
            at = λ s p.
                let looked : net.link_by_name name s ≡ ((net.link_by_name name s).0, s) =
                  ap (λ u. ((net.link_by_name name s).0, u)) (k.reads name s) in
                checked_keeps lan dev name s (net.link_by_name name s).0
                  (λ e. other (set ∙ ap some e)) looked p;
          }
