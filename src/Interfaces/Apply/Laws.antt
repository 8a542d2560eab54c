-- ===== src/Interfaces/Apply/Laws.antt =====
-- What a successful `Ensure` (pkg/interfaces/apply.go) gives back.
use k8slan.Base.{ℕ, ◌≡◌, sym, ap, ◌∙◌, Bool, true, false, ok, if◌then◌else◌}
use k8slan.Base.Text.{Text, bytes}
use k8slan.Base.Io.{attempt, pure, wrapping, printing, io_bind_ok, printing_ok}
use k8slan.Lan.{LanSpec}
use k8slan.Interfaces.System.{System}
use k8slan.Interfaces.Netlink.{Link, MacvlanMode, new_macvtap, Netlink}
use k8slan.Interfaces.Macvtap.{
  dummy_if_name, mode_from_string, link_delete, create_macvtap, recreate_macvtap,
}
use k8slan.Interfaces.Apply.{
  lan_ns, lo_up, vx_dev_name, inner_mtu, in_ns, found_dummy, add_vxlan, add_macvtap, ensure,
}

module _ (sys : System) (net : Netlink sys) where
  -- The macvtap link `link` was made on the link of this name and brought up.
  abbrev pub MadeOn : Text → Text → Text → Link → sys.State → Type 0
  MadeOn name lower_device mode link t =
      (lower : Link) × (nlmode : MacvlanMode) × (s u v : sys.State) × (net.link_by_name lower_device
          s
        ≡ (ok lower, u))
      × (mode_from_string mode ≡ ok nlmode)
      × (net.link_add (new_macvtap name lower.index lower.tx_qlen nlmode) u ≡ (ok link, v))
      × (net.link_set_up link v ≡ (ok tt, t))

  create_macvtap-MadeOn :
      (name lower_device mode : Text) (s : sys.State) {i : ℕ} {t : sys.State}
      → create_macvtap sys net name lower_device mode s ≡ (ok i, t)
      → (link : Link) × MadeOn name lower_device mode link t × (i ≡ link.index)
  unfolding create_macvtap
  create_macvtap-MadeOn name lower_device mode s {i} {t} h =
      let find = net.link_by_name lower_device in
      let find_text = bytes "failed to lookup lowerDevice" in
      let (lower, u, h₁, rest₁) = io_bind_ok (printing find_text find) _ s h in
      let (nlmode, u', h₂, rest₂) = io_bind_ok (λ x. (mode_from_string mode, x)) _ u rest₁ in
      let make = net.link_add (new_macvtap name lower.index lower.tx_qlen nlmode) in
      let make_text = bytes "failed to create macvtap" in
      let (link, v, h₃, rest₃) = io_bind_ok (printing make_text make) _ u' rest₂ in
      let up_text = bytes "failed to set link UP" in
      let (x, w, h₄, rest₄) = io_bind_ok (printing up_text (net.link_set_up link)) _ v rest₃ in
      let same : u' ≡ u = cc in
      let last : w ≡ t = cc in
      (
        link,
        (
          lower,
          nlmode,
          s,
          u,
          v,
          printing_ok find_text find s h₁,
          cc,
          ap make (sym same) ∙ printing_ok make_text make u' h₃,
          printing_ok up_text (net.link_set_up link) v h₄ ∙ ap (λ z. (ok tt, z)) last,
        ),
        cc,
      )

  -- If the macvtap link could be made anew, it was made on the link below it, in the mode that the
  -- text stands for, and brought up, and the index is the new link's.
  pub recreate_macvtap-MadeOn :
      (name lower_device mode : Text) (s : sys.State) {i : ℕ} {t : sys.State}
      → recreate_macvtap sys net name lower_device mode s ≡ (ok i, t)
      → (link : Link) × MadeOn name lower_device mode link t × (i ≡ link.index)
  unfolding recreate_macvtap
  recreate_macvtap-MadeOn name lower_device mode s h =
      let (x, u, h₁, rest) = io_bind_ok (link_delete sys net name) _ s h in
      create_macvtap-MadeOn name lower_device mode u rest

  -- The link below the macvtap link, and its mode
  abbrev pub base_of : Text → Text → Bool → Text × Text
  base_of spoke mode false = (spoke, mode)
  base_of spoke mode true = (dummy_if_name, bytes "private")

  pub add_macvtap-MadeOn :
      (mac_name spoke mode : Text) (dummy : Bool) (s : sys.State) {i : ℕ} {t : sys.State}
      → add_macvtap sys net mac_name spoke mode dummy s ≡ (ok i, t)
      → (link : Link) × MadeOn mac_name
          (base_of spoke mode dummy).0
          (base_of spoke mode dummy).1
          link
          t
        × (i ≡ link.index)
  unfolding add_macvtap
  add_macvtap-MadeOn mac_name spoke mode false s h = recreate_macvtap-MadeOn mac_name spoke mode s h
  add_macvtap-MadeOn mac_name spoke mode true s h =
      let (found, u, h₁, rest) = io_bind_ok (attempt (net.link_by_name dummy_if_name)) _ s h in
      let (x, v, h₂, last) = io_bind_ok (found_dummy sys net found) _ u rest in
      recreate_macvtap-MadeOn mac_name dummy_if_name (bytes "private") v last

  -- If `Ensure` succeeds, the index that it gives is that of a macvtap link of the name asked for,
  -- which it has just made and brought up: on the spoke's link in the mode asked for, or, for a pod
  -- that asked for no macvtap, on the dummy link in private mode.
  pub ensure-MadeOn :
      (mac_name spoke : Text) (lan : LanSpec) (hostname mode : Text) (dummy : Bool) (s : sys.State)
      {i : ℕ} {t : sys.State}
      → ensure sys net mac_name spoke lan hostname mode dummy s ≡ (ok i, t)
      → (link : Link) × MadeOn mac_name
          (base_of spoke mode dummy).0
          (base_of spoke mode dummy).1
          link
          t
        × (i ≡ link.index)
  unfolding ensure
  ensure-MadeOn mac_name spoke lan hostname mode dummy s h =
      let (ns, s₁, e₁, h₁) = io_bind_ok (lan_ns sys net lan) _ s h in
      let (x, s₂, e₂, h₂) = io_bind_ok (lo_up sys net ns) _ s₁ h₁ in
      let find_dev =
        wrapping (bytes "vxlan dev not found") (net.link_by_name (vx_dev_name lan hostname)) in
      let (dev, s₃, e₃, h₃) = io_bind_ok find_dev _ s₂ h₂ in
      let inside = net.do_ns Bool ns (in_ns sys net lan spoke dev (inner_mtu dev.mtu)) in
      let (needed, s₄, e₄, h₄) = io_bind_ok inside _ s₃ h₃ in
      let vxlan = if needed then add_vxlan sys net lan ns dev (inner_mtu dev.mtu) else pure tt in
      let (y, s₅, e₅, h₅) = io_bind_ok vxlan _ s₄ h₄ in
      let find_spoke =
        wrapping (bytes "failed to get the created spoke link in host ns")
          (net.link_by_name spoke) in
      let (vlink, s₆, e₆, h₆) = io_bind_ok find_spoke _ s₅ h₅ in
      let bring_up =
        wrapping (bytes "failed to bring up spoke link in host ns") (net.link_set_up vlink) in
      let (z, s₇, e₇, h₇) = io_bind_ok bring_up _ s₆ h₆ in
      add_macvtap-MadeOn mac_name spoke mode dummy s₇ h₇
