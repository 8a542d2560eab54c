-- ===== src/Startup/Order.antt =====
-- The managers start last: what has been done when one runs.
use k8slan.Base.{
  List, ◌≡◌, refl, inl, inr, Bool, true, false, Bool-cases, Result, ok, err, panic, ◌==◌, list_eq,
  nat_eq,
}
use k8slan.Base.Text.{Text, bytes}
use k8slan.Base.Io.{Io, Error, ◌>>=◌, then_run, attempt}
use k8slan.Base.Keeps.{Keeps, keeps_bind}
use k8slan.Webhook.{LanCustomDefaulter, lan_defaulter}
use k8slan.Lan.Nads.{Nad}
use k8slan.DevicePlugin.Lister.{DeviceList, new_macvtap_lister, get_resource_namespace}
use k8slan.Startup.Options.{Flags, ManagerOptions, manager_options}
use k8slan.Startup.Runtime.{Runtime, Types, must, client_go_types, nad_types, lan_types}
use k8slan.Startup.Operator.{
  init_scheme, enable_webhooks, setup_lan_webhook_with_manager, registr_resource,
  setup_with_manager, register, operator_manager,
}
use k8slan.Startup.Node.{plain_options, node_scheme, daemon_setup_with_manager, node_manager}

-- Only `Start` makes a manager run.
pub record StartsLast (rt : Runtime) (running : rt.State → Bool) : Type 0 where
  pub schemes : (t : Types) (x : rt.Scheme) → Keeps running (rt.add_to_scheme t x)
  pub configs : Keeps running rt.get_config
  pub managers :
      (c : rt.Config) (x : rt.Scheme) (o : ManagerOptions) → Keeps running (rt.new_manager c x o)
  pub webhooks : (m : rt.Manager) (d : LanCustomDefaulter) → Keeps running (rt.complete_webhook m d)
  pub indexes :
      (m : rt.Manager) (field : Text) (key : Nad → List Text)
      → Keeps running (rt.index_field m field key)
  pub operators : (m : rt.Manager) (name : Text) → Keeps running (rt.complete_operator m name)
  pub daemons : (m : rt.Manager) (host : Text) → Keeps running (rt.complete_daemon m host)
  pub healthz : (m : rt.Manager) (name : Text) → Keeps running (rt.add_healthz_check m name)
  pub readyz : (m : rt.Manager) (name : Text) → Keeps running (rt.add_readyz_check m name)
  pub hosts : Keeps running rt.hostname
  pub spawns :
      (ns : Text) (d : DeviceList) (s : rt.State) → running (rt.spawn_plugins ns d s) ≡ running s

-- What runs after an action that starts nothing, runs because the action succeeded.
pub reached :
    {S A B : Type 0} (running : S → Bool) (m : Io S A) (k : A → Io S B) (s : S)
    → Keeps running m
    → running s ≡ false
    → running (◌>>=◌ m k s).1 ≡ true
    → (a : A) × (u : S) × (m s ≡ (ok a, u)) × ((k a u).1 ≡ (◌>>=◌ m k s).1)
reached {S} {A} running m k s keeps idle runs = split (m s) refl (keeps s) runs
  where
    split :
        (r : Result Error A × S)
        → m s ≡ r
        → running r.1 ≡ running s
        → running (then_run k r).1 ≡ true
        → (a : A) × (u : S) × (m s ≡ (ok a, u)) × ((k a u).1 ≡ (then_run k r).1)
    split (ok a, u) e same up = (a, u, e, refl)
    split (err x, u) e same up = cc
    split (panic, u) e same up = cc

module _ (rt : Runtime) (running : rt.State → Bool) (l : StartsLast rt running) where
  must_keeps : {A : Type 0} (m : Io rt.State A) → Keeps running m → Keeps running (must m)
  must_keeps m h = h

  init_scheme_keeps : Keeps running (init_scheme rt)
  unfolding init_scheme
  init_scheme_keeps =
      keeps_bind running (must (rt.add_to_scheme client_go_types rt.new_scheme)) _
        (l.schemes client_go_types rt.new_scheme)
        λ a.
          keeps_bind running (must (rt.add_to_scheme nad_types a)) _ (l.schemes nad_types a)
            (λ b. l.schemes lan_types b)

  enable_webhooks_keeps : (mgr : rt.Manager) → Keeps running (enable_webhooks rt mgr)
  unfolding enable_webhooks setup_lan_webhook_with_manager
  enable_webhooks_keeps mgr s =
      elim (Bool-cases (rt.getenv (bytes "ENABLE_WEBHOOKS") s == bytes "false")) [
        | inl off ↦ rw (off, enable_webhooks) refl
        | inr on ↦ rw (on, enable_webhooks) (l.webhooks mgr lan_defaulter s)
      ]

  register_keeps : (mgr : rt.Manager) → Keeps running (register rt mgr)
  unfolding register setup_with_manager registr_resource
  register_keeps mgr =
      keeps_bind running (enable_webhooks rt mgr) _ (enable_webhooks_keeps mgr) λ _.
        keeps_bind running (setup_with_manager rt mgr) _
          (keeps_bind running (registr_resource rt mgr) _ (l.indexes mgr _ _)
            (λ _. l.operators mgr _))
          λ _.
            keeps_bind running (rt.add_healthz_check mgr (bytes "healthz")) _ (l.healthz mgr _)
              (λ _. l.readyz mgr _)

  pub operator_manager_keeps : (flags : Flags) → Keeps running (operator_manager rt flags)
  unfolding operator_manager
  operator_manager_keeps flags = keeps_bind running (init_scheme rt) _ init_scheme_keeps λ scheme.
      keeps_bind running rt.get_config _ l.configs λ config.
        keeps_bind running (rt.new_manager config scheme (manager_options flags)) _
          (l.managers config scheme _)
          λ mgr. keeps_bind running (register rt mgr) _ (register_keeps mgr) (λ _ s. refl)

  pub node_manager_keeps : Keeps running (node_manager rt)
  unfolding node_manager node_scheme daemon_setup_with_manager
  node_manager_keeps = keeps_bind running (must rt.hostname) _ l.hosts λ host.
      keeps_bind running (node_scheme rt) _
        (keeps_bind running (attempt (rt.add_to_scheme lan_types rt.new_scheme)) _
          (l.schemes lan_types rt.new_scheme) (λ x s. refl))
        λ scheme. keeps_bind running rt.get_config _ l.configs λ config.
          keeps_bind running (rt.new_manager config scheme plain_options) _
            (l.managers config scheme _)
            λ mgr.
              keeps_bind running (daemon_setup_with_manager rt mgr host) _ (l.daemons mgr host)
                λ _ s. l.spawns get_resource_namespace new_macvtap_lister s
