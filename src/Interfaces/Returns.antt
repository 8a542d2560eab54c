-- ===== src/Interfaces/Returns.antt =====
-- Systems and kernels whose calls end with a result or an error, as those of `os`, `unix`, `ns` and
-- `netlink` do, and kernels that run what `NetNS.Do` is given.
use k8slan.Base.{ℕ, ◌≡◌, ok}
use k8slan.Base.Io.{Io}
use k8slan.Base.Text.{Text}
use k8slan.Base.Returns.{Returns}
use k8slan.Interfaces.System.{System}
use k8slan.Interfaces.Netlink.{Link, NewLink, Netlink}

-- The calls that `Ensure` makes of the system
pub record SystemReturns (sys : System) : Type 0 where
  pub makes_dir : (path : Text) → Returns (sys.mkdir_all path)
  pub mounts : (source target : Text) (flags : ℕ) → Returns (sys.mount source target flags)
  pub unmounts : (path : Text) (flags : ℕ) → Returns (sys.unmount path flags)
  pub creates : (path : Text) → Returns (sys.create_file path)
  pub removes : (path : Text) → Returns (sys.remove path)
  pub stats : (path : Text) → Returns (sys.stat path)
  pub opens : (path : Text) → Returns (sys.get_ns path)
  pub unshares : Returns sys.unshare_net

-- The calls of `netlink`; `NetNS.Do` returns if the function that it is given does.
pub record NetlinkReturns (sys : System) (net : Netlink sys) : Type 1 where
  pub does :
      (A : Type 0) (ns : sys.NetNs) (f : sys.NetNs → Io sys.State A)
      → ((host : sys.NetNs) → Returns (f host))
      → Returns (net.do_ns A ns f)
  pub finds : (name : Text) → Returns (net.link_by_name name)
  pub adds : (new : NewLink) → Returns (net.link_add new)
  pub deletes : (l : Link) → Returns (net.link_del l)
  pub brings_up : (l : Link) → Returns (net.link_set_up l)
  pub attaches : (l br : Link) → Returns (net.link_set_master l br)
  pub masks : (l : Link) (mask : ℕ) → Returns (net.link_set_br_slave_group_fwd_mask l mask)
  pub moves : (l : Link) (fd : ℕ) → Returns (net.link_set_ns_fd l fd)

-- `NetNS.Do` goes to the namespace, runs the function there, and comes back: if it ends without an
-- error, so did the function, which was given the namespace that the thread came from.
pub record RunsInside (sys : System) (net : Netlink sys) : Type 1 where
  pub enter : sys.NetNs → sys.State → sys.State
  -- The state after the return, by the states before and at the end of the function
  pub leave : sys.State → sys.State → sys.State
  pub ran :
      (A : Type 0) (ns : sys.NetNs) (f : sys.NetNs → Io sys.State A) (s : sys.State) {a : A}
      {t : sys.State}
      → net.do_ns A ns f s ≡ (ok a, t)
      → (host : sys.NetNs) × (v : sys.State) × (f host (enter ns s) ≡ (ok a, v)) × (leave s v ≡ t)
