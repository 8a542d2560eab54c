-- ===== src/Interfaces/Macvtap/Ends.antt =====
-- Replacing a link and making a macvtap link (pkg/interfaces/apply.go) ends with a result or an
-- error.
use k8slan.Base.{◌≡◌, ◌≢◌, refl, arith, Result, ok, err, panic}
use k8slan.Base.Text.{Text, bytes}
use k8slan.Base.Io.{Error, printing, link_not_found, errno, wrap, message}
use k8slan.Base.Returns.{Returns, returns_bind, returns_printing, returns_pure, attempt_then}
use k8slan.Interfaces.System.{System}
use k8slan.Interfaces.Netlink.{Link, new_macvtap, Netlink}
use k8slan.Interfaces.Returns.{NetlinkReturns}
use k8slan.Interfaces.Macvtap.{
  mode_from_string, delete_found, link_delete, create_macvtap, recreate_macvtap,
}

mode_returns : (mode : Text) → mode_from_string mode ≢ panic
unfolding mode_from_string
mode_returns mode = ground arith

module _ (sys : System) (net : Netlink sys) (r : NetlinkReturns sys net) where
  delete_found_returns : (x : Result Error Link) → x ≢ panic → Returns (delete_found sys net x)
  unfolding delete_found
  delete_found_returns (ok l) h = r.deletes l
  delete_found_returns (err link_not_found) h = record { at = λ s p. cc }
  delete_found_returns (err (errno n)) h = record { at = λ s p. cc }
  delete_found_returns (err (wrap t e)) h = record { at = λ s p. cc }
  delete_found_returns (err (message t)) h = record { at = λ s p. cc }
  delete_found_returns panic h = absurd (h refl)

  pub link_delete_returns : (name : Text) → Returns (link_delete sys net name)
  unfolding link_delete
  link_delete_returns name =
      attempt_then (net.link_by_name name) _ (r.finds name)
        (λ found s u ne e. (delete_found_returns found ne).at u)

  create_macvtap_returns :
      (name lower mode : Text) → Returns (create_macvtap sys net name lower mode)
  unfolding create_macvtap
  create_macvtap_returns name lower mode =
      let find = net.link_by_name lower in
      returns_bind (printing (bytes "failed to lookup lowerDevice") find) _
        (returns_printing find (r.finds lower) _)
        λ m.
          returns_bind (λ s. (mode_from_string mode, s)) _ (record { at = λ s. mode_returns mode })
            λ nlmode.
              let make = net.link_add (new_macvtap name m.index m.tx_qlen nlmode) in
              returns_bind (printing (bytes "failed to create macvtap") make) _
                (returns_printing make (r.adds _) _)
                λ mv.
                  returns_bind (printing (bytes "failed to set link UP") (net.link_set_up mv)) _
                    (returns_printing (net.link_set_up mv) (r.brings_up mv) _)
                    (λ _. returns_pure mv.index)

  pub recreate_macvtap_returns :
      (name lower mode : Text) → Returns (recreate_macvtap sys net name lower mode)
  unfolding recreate_macvtap
  recreate_macvtap_returns name lower mode =
      returns_bind (link_delete sys net name) _ (link_delete_returns name)
        (λ _. create_macvtap_returns name lower mode)

-- What `LinkDelete` does once the look-up is known.
module _ (sys : System) (net : Netlink sys) where
  pub link_delete_found :
      (name : Text) (s t : sys.State) {l : Link}
      → net.link_by_name name s ≡ (ok l, t)
      → link_delete sys net name s ≡ net.link_del l t
  unfolding link_delete delete_found
  link_delete_found name s t e = rw e refl

  delete_err_state : (e : Error) (s : sys.State) → (delete_found sys net (err e) s).1 ≡ s
  unfolding delete_found
  delete_err_state link_not_found s = refl
  delete_err_state (errno n) s = refl
  delete_err_state (wrap t e) s = refl
  delete_err_state (message t) s = refl

  pub link_delete_failed :
      (name : Text) (s t : sys.State) {e : Error}
      → net.link_by_name name s ≡ (err e, t)
      → (link_delete sys net name s).1 ≡ t
  unfolding link_delete
  link_delete_failed name s t {e} h = rw h (delete_err_state e t)
