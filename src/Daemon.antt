-- ===== src/Daemon.antt =====
-- The daemon's reconciler (dset/main.go): it registers a node on a LAN by a finalizer, announces
-- the LAN to the device plugin, and takes both back when the LAN is deleted. The Kubernetes client,
-- with `controllerutil`, is a parameter. A channel is the list of what was sent: a send to a full
-- channel (`chanDepth`) only waits for the device plugin. `makeFinalizerPatch`, whose calls are
-- commented out, is left out, and `main` stands in Startup/Node.
pub mod Api
pub mod Lifecycle
pub mod Webhook
pub mod Deletion
use k8slan.Base.{
  Bool, true, false, not, Option, none, some, List, [], ◌∷◌, ◌++◌, Result, ok, err, panic,
  if◌then◌else◌,
}
use k8slan.Base.Text.{Text, bytes}
use k8slan.Base.Io.{Io, Error}
use k8slan.Lan.{LanSpec, Lan, finalizer_prefix}
use k8slan.Interfaces.System.{System}
use k8slan.Interfaces.Namespace.{remove_ns}
use k8slan.Daemon.Api.{Client, Fetch, found, not_found, failed}

-- `fmt.Sprintf("%v/%v", k8slan.FinalizerPrefix, r.hostName)`
unfoldable pub my_finalizer_name : Text → Text
my_finalizer_name host_name = finalizer_prefix ++ (bytes "/" ++ host_name)

module _ (c : Client) (sys : System) where
  -- The API server, the node, and what was sent on the two channels.
  pub record Daemon : Type 0 where
    pub api : c.State
    pub node : sys.State
    pub dp_add : List LanSpec
    pub dp_remove : List LanSpec

  -- `r.Update`, whose error is returned
  update : Lan → Io Daemon (Unit {0})
  update lan d = let (r, api) = c.update lan d.api in (r, record d { api = api })

  -- A LAN that is not being deleted
  keep : Text → Lan → Io Daemon (Unit {0})
  unfolding update
  keep fin lan d =
      if not (c.contains_finalizer lan fin)
      then update (c.add_finalizer lan fin) d
      else (ok tt, record d { dp_add = d.dp_add ++ (lan.spec ∷ []) })

  -- The removal from the node, the notice, and the finalizer. The namespace's pointer is followed.
  withdraw : Text → Lan → Option Text → Io Daemon (Unit {0})
  unfolding update
  withdraw fin lan none d = (panic, d)
  withdraw fin lan (some ns) d =
      update (c.remove_finalizer lan fin) (record d {
        node = (remove_ns sys ns d.node).1;
        dp_remove = d.dp_remove ++ (lan.spec ∷ []);
      })

  -- A LAN that is being deleted
  give_up : Text → Lan → Io Daemon (Unit {0})
  unfolding withdraw
  give_up fin lan d =
      if c.contains_finalizer lan fin then withdraw fin lan lan.spec.ns d else (ok tt, d)

  reconcile_lan : Text → Lan → Io Daemon (Unit {0})
  unfolding keep give_up
  reconcile_lan fin lan = elim lan.deletion_timestamp [
    | none ↦ keep fin lan
    | some time ↦ give_up fin lan
  ]

  -- `Reconcile`, on the host of this name, for the request's namespace and name
  unfoldable pub reconcile : Text → Text → Text → Io Daemon (Unit {0})
  unfolding reconcile_lan
  reconcile host_name ns name d = elim (c.get_lan d.api ns name) [
    | not_found ↦ (ok tt, d)
    | failed e ↦ (err e, d)
    | found lan ↦ reconcile_lan (my_finalizer_name host_name) lan d
  ]
