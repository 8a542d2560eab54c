-- ===== src/Interfaces/Apply/Collision.antt =====
-- A spoke whose name is another spoke's with a `p` behind it, over a kernel that keeps the names of
-- links.
use mathlib.Core.Path.{subst}
use k8slan.Base.{
  ◌≡◌, ◌≢◌, sym, ap, ◌∙◌, Bool, true, false, Option, some, length, length-append, Result, ok,
  list_eq, nat_eq, arith,
}
use k8slan.Base.Int.{ℤ, negsuc}
use k8slan.Base.Text.{Text, bytes}
use k8slan.Base.Io.{
  Error, printing, ignoring, deref_io, io_bind_ok, printing_ok, deref_io_ok, pure_ok,
}
use k8slan.Lan.{LanSpec}
use k8slan.Interfaces.System.{System}
use k8slan.Interfaces.Netlink.{Link, new_veth, Netlink}
use k8slan.Interfaces.Kernel.{KernelLaws}
use k8slan.Interfaces.Macvtap.{get_peer_veth_name, link_delete}
use k8slan.Interfaces.Macvtap.Ends.{link_delete_failed}
use k8slan.Interfaces.Vxlan.{br_slave_grp_fwd_mask}
use k8slan.Interfaces.Apply.{lan_bridge, vxlan_needed, add_spoke, in_ns}
use k8slan.Interfaces.Apply.Wiring.{add_spoke-IsWired}
use k8slan.Interfaces.Apply.Names.{Taken, lan_bridge_keeps, vxlan_needed_keeps}

peer_ne : (spoke : Text) → get_peer_veth_name spoke ≢ spoke
unfolding get_peer_veth_name
peer_ne spoke e = absurd (omega (arith, ap length e, length-append spoke (bytes "p")))

module _ (sys : System) (net : Netlink sys) (has : sys.State → Text → Bool)
    (k : KernelLaws sys net has) where
  -- What the first spoke leaves.
  peer_taken :
      (spoke : Text) (mtu : ℤ) (bridge : Option Link) (host : sys.NetNs) (s t : sys.State)
      → add_spoke sys net spoke mtu bridge host s ≡ (ok tt, t)
      → has t (get_peer_veth_name spoke) ≡ true
  unfolding get_peer_veth_name
  peer_taken spoke mtu bridge host s t h =
      let (br, is_br, w) = add_spoke-IsWired sys net spoke mtu bridge host s t h in
      let c = w.connected in
      let n = get_peer_veth_name spoke in
      let (name, taken) = k.paired spoke n br.index mtu (negsuc 0) w.s₁ w.made in
      let view = λ (r : Result Error (Unit {0}) × sys.State). has r.1 n in
      let found : has c.u₁ n ≡ has w.s₃ n =
        ap (λ (r : Result Error Link × sys.State). has r.1 n) (sym c.found)
        ∙ ap (λ u. has u n) (k.reads n w.s₃) in
      ap view (sym c.moved)
      ∙ k.moves w.veth (net.ns_fd host) c.u₄ n (λ e. peer_ne spoke (e ∙ name))
      ∙ ap view (sym c.peer_up)
      ∙ k.ups c.peer c.u₃ n
      ∙ ap view (sym c.masked)
      ∙ k.masks c.peer br_slave_grp_fwd_mask c.u₂ n
      ∙ ap view (sym c.attached)
      ∙ k.attaches c.peer br c.u₁ n
      ∙ found
      ∙ ap view (sym w.up)
      ∙ k.ups w.veth w.s₂ n
      ∙ taken

  -- A spoke whose name is in use cannot be made, once the name of its peer is free.
  add_spoke_refused :
      (spoke : Text) (mtu : ℤ) (bridge : Option Link) (host : sys.NetNs) (s t : sys.State)
      → Taken sys net has k spoke (get_peer_veth_name spoke) s
      → add_spoke sys net spoke mtu bridge host s ≢ (ok tt, t)
  unfolding add_spoke
  add_spoke_refused spoke mtu bridge host s t (taken, free) h =
      let name = get_peer_veth_name spoke in
      let (x, u, e, h₀) = io_bind_ok (ignoring (link_delete sys net name)) _ s h in
      let (br, u', e₁, h₁) = io_bind_ok (deref_io bridge) _ u h₀ in
      let make = net.link_add (new_veth spoke name br.index mtu (negsuc 0)) in
      let t₂ = bytes "failed to create veth interface" in
      let (veth, v, e₂, h₂) = io_bind_ok (printing t₂ make) _ u' h₁ in
      let gone : (link_delete sys net name s).1 ≡ s =
        link_delete_failed sys net name s s (k.absent name s free) in
      let unchanged : u' ≡ s =
        sym (deref_io_ok bridge u e₁).1
        ∙ sym (ap (λ (r : Result Error (Unit {0}) × sys.State). r.1) e)
        ∙ gone in
      k.in_use spoke name br.index mtu (negsuc 0) u' (ap (λ w. has w spoke) unchanged ∙ taken)
        (printing_ok t₂ make u' e₂)

  -- Over a kernel that keeps the names of links and gives none out twice: once `Ensure` has done
  -- its part in the namespace for a spoke, that part does not succeed in the state it left for a
  -- spoke of the same LAN with the same name and a `p` behind it, if no link has the name with `pp`
  -- behind it, which is not the bridge's either, and the vxlan link has not the name with one `p`.
  pub spokes_collide :
      (lan : LanSpec) (spoke : Text) (dev dev' : Link) (mtu mtu' : ℤ) (host host' : sys.NetNs)
      (s t u : sys.State) {needed needed' : Bool}
      → in_ns sys net lan spoke dev mtu host s ≡ (ok needed, t)
      → has t (get_peer_veth_name (get_peer_veth_name spoke)) ≡ false
      → lan.bridge_name ≢ some (get_peer_veth_name (get_peer_veth_name spoke))
      → lan.vxlan_name ≢ some (get_peer_veth_name spoke)
      → in_ns sys net lan (get_peer_veth_name spoke) dev' mtu' host' t ≢ (ok needed', u)
  unfolding in_ns
  spokes_collide lan spoke dev dev' mtu mtu' host host' s t u first free other_bridge other_vxlan
        h =
      let n = get_peer_veth_name spoke in
      let m = get_peer_veth_name n in
      let (b₀, a₁, f₁, g₁) = io_bind_ok (lan_bridge sys net lan mtu) _ s first in
      let (d₀, a₂, f₂, g₂) = io_bind_ok (vxlan_needed sys net lan dev.index) _ a₁ g₁ in
      let (x₀, a₃, f₃, g₃) = io_bind_ok (add_spoke sys net spoke mtu b₀ host) _ a₂ g₂ in
      let (same, end) = pure_ok g₃ in
      let taken : has t n ≡ true =
        sym (ap (λ w. has w n) end) ∙ peer_taken spoke mtu b₀ host a₂ a₃ f₃ in
      let (b, v₁, e₁, h₁) = io_bind_ok (lan_bridge sys net lan mtu') _ t h in
      let (d, v₂, e₂, h₂) = io_bind_ok (vxlan_needed sys net lan dev'.index) _ v₁ h₁ in
      let (x, v₃, e₃, h₃) = io_bind_ok (add_spoke sys net n mtu' b host') _ v₂ h₂ in
      let p₁ : Taken sys net has k n m v₁ =
        subst (λ (r : Result Error (Option Link) × sys.State). Taken sys net has k n m r.1) e₁
          ((lan_bridge_keeps sys net has k n m lan mtu' other_bridge).at t (taken, free)) in
      let p₂ : Taken sys net has k n m v₂ =
        subst (λ (r : Result Error Bool × sys.State). Taken sys net has k n m r.1) e₂
          ((vxlan_needed_keeps sys net has k n m lan dev'.index other_vxlan).at v₁ p₁) in
      add_spoke_refused n mtu' b host' v₂ v₃ p₂ e₃
