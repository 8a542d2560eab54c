-- ===== src/Interfaces/Macvtap.antt =====
-- Links that are replaced, and macvtap links (pkg/interfaces/apply.go, from `getPeerVethName` on).
pub mod Ends
use k8slan.Base.{ℕ, ◌||◌, [], ◌++◌, Result, ok, err, panic, ◌==◌, list_eq, nat_eq, if◌then◌else◌}
use k8slan.Base.Text.{Text, bytes}
use k8slan.Base.Io.{Io, Error, link_not_found, message, ◌>>=◌, ◌>>◌, printing, attempt, pure}
use k8slan.Interfaces.System.{System}
use k8slan.Interfaces.Netlink.{
  Link, MacvlanMode, private, vepa, bridge, passthru, new_macvtap, Netlink,
}

abbrev pub dummy_if_name : Text
dummy_if_name = bytes "k8slan-dummy"

unfoldable pub get_peer_veth_name : Text → Text
get_peer_veth_name name = name ++ bytes "p"

unfoldable pub mode_from_string : Text → Result Error MacvlanMode
unfolding list_eq nat_eq
mode_from_string s =
    if s == [] || s == bytes "bridge"
    then ok bridge
    else if s == bytes "private"
    then ok private
    else if s == bytes "vepa"
    then ok vepa
    else if s == bytes "passthru"
    then ok passthru
    else err (message (bytes "unknown macvtap mode"))

module _ (sys : System) (net : Netlink sys) where
  -- What `LinkDelete` does with what it found.
  delete_found : Result Error Link → Io sys.State (Unit {0})
  delete_found (ok l) s = net.link_del l s
  delete_found (err link_not_found) s = (ok tt, s)
  delete_found (err e) s = (err e, s)
  delete_found panic s = (panic, s)

  unfoldable pub link_delete : Text → Io sys.State (Unit {0})
  unfolding delete_found
  link_delete link = do found ← attempt (net.link_by_name link); delete_found found

  unfoldable pub create_macvtap : Text → Text → Text → Io sys.State ℕ
  unfolding mode_from_string
  create_macvtap name lower_device mode = do
    m ← printing (bytes "failed to lookup lowerDevice") (net.link_by_name lower_device)
    nlmode ← (λ s. (mode_from_string mode, s))
    mv ←
        printing (bytes "failed to create macvtap")
          (net.link_add (new_macvtap name m.index m.tx_qlen nlmode))
    printing (bytes "failed to set link UP") (net.link_set_up mv)
    pure mv.index

  unfoldable pub recreate_macvtap : Text → Text → Text → Io sys.State ℕ
  unfolding link_delete create_macvtap
  recreate_macvtap name lower_device mode = do
    link_delete name
    create_macvtap name lower_device mode
