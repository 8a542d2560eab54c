-- ===== src/Startup/Node.antt =====
-- `main` of the daemon (dset/main.go). The two channels that it makes stand in DevicePlugin/Channels;
-- the path of the main thread's namespace, which the lister is given and does not use, is left out.
use k8slan.Base.{[], false, ok}
use k8slan.Base.Text.{Text}
use k8slan.Base.Io.{Io, ◌>>=◌, ◌>>◌, pure, attempt}
use k8slan.DevicePlugin.Lister.{new_macvtap_lister, get_resource_namespace}
use k8slan.Startup.Options.{ManagerOptions, Certs}
use k8slan.Startup.Runtime.{Runtime, Exit, exit_of, must, lan_types}
use k8slan.Base.{Result, err, panic}
use k8slan.Base.Io.{Error}

abbrev pub no_certs : Certs
no_certs = record { cert_dir = []; cert_name = []; key_name = [] }

-- `ctrl.Options` with a scheme only
abbrev pub plain_options : ManagerOptions
plain_options = record {
  metrics = record {
    bind_address = [];
    secure_serving = false;
    tls = [];
    with_auth = false;
    certs = no_certs;
  };
  webhook_server = record { tls = []; certs = no_certs };
  health_probe_bind_address = [];
  leader_election = false;
  leader_election_id = [];
}

module _ (rt : Runtime) where
  -- The scheme: that the types could not be added is not looked at.
  scheme_or : rt.Scheme → Result Error rt.Scheme → rt.Scheme
  scheme_or old (ok new) = new
  scheme_or old (err e) = old
  scheme_or old panic = old

  unfoldable pub node_scheme : Io rt.State rt.Scheme
  unfolding scheme_or
  node_scheme = do
    added ← attempt (rt.add_to_scheme lan_types rt.new_scheme)
    pure (scheme_or rt.new_scheme added)

  -- `SetupWithManager` of the daemon's reconciler
  unfoldable pub daemon_setup_with_manager : rt.Manager → Text → Io rt.State (Unit {0})
  daemon_setup_with_manager mgr host_name = rt.complete_daemon mgr host_name

  -- All that is done before the manager starts; the device plugins run beside it from then on.
  unfoldable pub node_manager : Io rt.State rt.Manager
  node_manager = do
    host_name ← must rt.hostname
    scheme ← node_scheme
    config ← rt.get_config
    mgr ← rt.new_manager config scheme plain_options
    daemon_setup_with_manager mgr host_name
    (λ s. (ok (tt {0}), rt.spawn_plugins get_resource_namespace new_macvtap_lister s))
    pure mgr

  unfoldable pub node_main : rt.State → Exit × rt.State
  node_main s = let (r, t) = (node_manager >>= rt.start) s in (exit_of r, t)
